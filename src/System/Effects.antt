-- ===== src/System/Effects.antt =====
-- The steps of the system, reduced to what they do to the CPUs and to the two views of the table.
use tp2_so.Base.{
  ℕ, ◌+◌, ◌≡◌, ◌⊎◌, inl, inr, refl, ◌∙◌, true, false, none, some, List, ◌==◌, get_elem?, modify,
  arith, if◌then◌else◌, add32, find_index-passes,
}
use tp2_so.Proc.{Proc, runnable, null, is_unused, is_running}
use tp2_so.Proc.Sleep.{fall_asleep, set_state}
use tp2_so.Proc.Alloc.{claim, drop_slot, init_proc, inherit}
use tp2_so.Proc.Exit.{exit_locked}
use tp2_so.Proc.Wait.{free_slot, reset_times}
use tp2_so.Proc.Wait.Children.{zombie_child-some}
use tp2_so.Proc.Sched.{switch_back, start_running}
use tp2_so.Proc.Sched.Choice.{dispatch_inv}
use tp2_so.System.{
  System, scanning, on, update, leave, Step, switch, restart, yields, sleeps, exits, tidies, claims,
  drops, readies, readies_first, reaps, reaps_times, wakes, kills, reprios,
}
use tp2_so.System.Observe.{
  run_slot, run_at, live_at, live_of, SameViews, modify-SameViews, modify_views, exit_views,
  switch_back-SameViews, wakeup1-SameViews, kill-SameViews, change_prio-SameViews,
}

-- Every slot is as before or free.
abbrev pub Shrinks : List Proc → List Proc → Type 0
Shrinks ps ps' = (j : ℕ) → (live_at ps' j ≡ live_at ps j) ⊎ (live_at ps' j ≡ none)

-- The process that a CPU is on is running.
abbrev pub Held : System → Type 0
Held s = (c i : ℕ) → s.cpus c ≡ on i → run_at s.procs i ≡ true

pub record SamePids (s t : System) : Type 0 where
  pub next : t.nextpid ≡ s.nextpid
  pub count : t.claimed ≡ s.claimed
  pub slots : Shrinks s.procs t.procs

pub data Effect (s t : System) : Type 0 where
  -- A scanning CPU goes on to a slot that did not run.
  enters :
      (c from i : ℕ)
      → s.cpus c ≡ scanning from
      → t.cpus ≡ update s.cpus c (on i)
      → run_at s.procs i ≡ false
      → ((j : ℕ) → run_at t.procs j ≡ (if i == j then true else run_at s.procs j))
      → SamePids s t
      → Effect s t
  -- A CPU leaves the slot that it was on, which no longer runs.
  leaves :
      (c from i : ℕ)
      → s.cpus c ≡ on i
      → t.cpus ≡ update s.cpus c (scanning from)
      → ((j : ℕ) → run_at t.procs j ≡ (if i == j then false else run_at s.procs j))
      → SamePids s t
      → Effect s t
  -- A scanning CPU starts again.
  rescans :
      (c from : ℕ)
      → s.cpus c ≡ scanning from
      → t.cpus ≡ update s.cpus c (scanning 0)
      → t.procs ≡ s.procs
      → SamePids s t
      → Effect s t
  -- The CPUs stay where they are, and the same slots run.
  edits :
      t.cpus ≡ s.cpus → ((j : ℕ) → run_at t.procs j ≡ run_at s.procs j) → SamePids s t → Effect s t
  -- A free slot gets `nextpid`.
  allots :
      (n : ℕ)
      → t.cpus ≡ s.cpus
      → ((j : ℕ) → run_at t.procs j ≡ run_at s.procs j)
      → ((j : ℕ) → live_at t.procs j ≡ (if n == j then some s.nextpid else live_at s.procs j))
      → t.nextpid ≡ add32 s.nextpid 1
      → t.claimed ≡ s.claimed + 1
      → Effect s t

-- A section that keeps both views.
same_views :
    (s t : System)
    → t.cpus ≡ s.cpus
    → t.nextpid ≡ s.nextpid
    → t.claimed ≡ s.claimed
    → SameViews s.procs t.procs
    → Effect s t
same_views s t c n k v =
    edits c (λ j. (v j).0) (record { next = n; count = k; slots = λ j. inl (v j).1 })

-- A write into a slot that does not run before or after, and keeps its pid or frees it.
edit_slot :
    (s : System) (f : Proc → Proc) (i : ℕ) (p : Proc)
    → get_elem? s.procs i ≡ some p
    → is_running p.state ≡ false
    → is_running (f p).state ≡ false
    → (live_of (some (f p)) ≡ live_of (some p)) ⊎ (live_of (some (f p)) ≡ none)
    → Effect s (record s { procs = modify s.procs i f })
edit_slot s f i p g r r' l =
    edits refl (λ j. ground (arith, modify_views f s.procs i p j g))
      (record {
        next = refl;
        count = refl;
        slots = λ j. ground (arith, modify_views f s.procs i p j g, l);
      })

-- A process gives up its CPU by a write into its slot.
leave_slot :
    (s : System) (c i : ℕ) (ps : List Proc)
    → s.cpus c ≡ on i
    → ((j : ℕ) → run_at ps j ≡ (if i == j then false else run_at s.procs j))
    → ((j : ℕ) → live_at ps j ≡ live_at s.procs j)
    → Effect s (leave c i ps s)
leave_slot s c i ps e r l =
    leaves c (switch_back i ps).0 i e refl (λ j. (switch_back-SameViews i ps j).0 ∙ r j)
      (record {
        next = refl;
        count = refl;
        slots = λ j. inl ((switch_back-SameViews i ps j).1 ∙ l j);
      })

write_and_leave :
    (s : System) (f : Proc → Proc) (c i : ℕ) (p : Proc)
    → s.cpus c ≡ on i
    → get_elem? s.procs i ≡ some p
    → is_running (f p).state ≡ false
    → live_of (some (f p)) ≡ live_of (some p)
    → Effect s (leave c i (modify s.procs i f) s)
write_and_leave s f c i p e g r l =
    leave_slot s c i (modify s.procs i f) e (λ j. ground (arith, modify_views f s.procs i p j g))
      (λ j. ground (arith, modify_views f s.procs i p j g))

pub Step-Effect : {s t : System} → Held s → Step s t → Effect s t
Step-Effect {s} h (switch c from i ps e d) =
    let (p, best, eq) = dispatch_inv from s.procs ps i d in
    let views = λ (j : ℕ). modify_views start_running s.procs i p j best.there in
    enters c from i e refl (ground (arith, best.there, best.ready))
      (λ j. rw eq (ground (arith, views j)))
      (record {
        next = refl;
        count = refl;
        slots = λ j. inl (rw eq (ground (arith, views j, best.there, best.ready)));
      })
Step-Effect {s} h (restart c from e d) =
    rescans c from e refl refl (record { next = refl; count = refl; slots = λ j. inl refl })
Step-Effect {s} h (yields c i e) =
    let (p, g, r) = run_slot s.procs i (h c i e) in
    write_and_leave s (set_state runnable) c i p e g (ground arith) (ground arith)
Step-Effect {s} h (sleeps c i ch e) =
    let (p, g, r) = run_slot s.procs i (h c i e) in
    write_and_leave s (fall_asleep ch) c i p e g (ground arith) (ground arith)
Step-Effect {s} h (exits c i n e) =
    let (p, g, r) = run_slot s.procs i (h c i e) in
    let views = λ (j : ℕ). exit_views i s.initproc n s.procs p j g (ground arith) in
    leave_slot s c i (exit_locked i s.initproc n s.procs) e (λ j. (views j).0) (λ j. (views j).1)
Step-Effect {s} h (tidies c i e) =
    same_views s _ refl refl refl
      (modify-SameViews (λ p. record p { chan = null }) s.procs i (λ q. (refl, refl, refl)))
Step-Effect {s} h (claims n e) =
    let (p, g, u) = find_index-passes (λ (q : Proc). is_unused q.state) s.procs n e in
    let views = λ (j : ℕ). modify_views (claim s.nextpid) s.procs n p j g in
    allots n refl (λ j. ground (arith, views j)) (λ j. ground (arith, views j)) refl refl
Step-Effect {s} h (drops n p g e) = edit_slot s drop_slot n p g (ground arith) refl (inr refl)
Step-Effect {s} h (readies n p cur pgdir cwd prio par files g e) =
    edit_slot s (inherit cur par pgdir files cwd prio) n p g (ground arith) refl
      (inl (ground arith))
Step-Effect {s} h (readies_first n p pgdir cwd g e) =
    let views = λ (j : ℕ). modify_views (init_proc pgdir cwd) s.procs n p j g in
    edits refl (λ j. ground (arith, views j))
      (record { next = refl; count = refl; slots = λ j. ground (arith, views j) })
Step-Effect {s} h (reaps cur i e) =
    let (z, f) = zombie_child-some cur s.procs i e in
    edit_slot s free_slot i z f.there (ground (arith, f.dead)) refl (inr refl)
Step-Effect {s} h (reaps_times cur i e) =
    let (z, f) = zombie_child-some cur s.procs i e in
    edit_slot s (λ q. reset_times (free_slot q)) i z f.there (ground (arith, f.dead)) refl
      (inr refl)
Step-Effect {s} h (wakes ch) = same_views s _ refl refl refl (wakeup1-SameViews ch s.procs)
Step-Effect {s} h (kills pid) = same_views s _ refl refl refl (kill-SameViews pid s.procs)
Step-Effect {s} h (reprios prio pid) =
    same_views s _ refl refl refl (change_prio-SameViews prio pid s.procs)
