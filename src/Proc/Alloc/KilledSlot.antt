-- ===== src/Proc/Alloc/KilledSlot.antt =====
-- `kill (0)` of proc.c on a table with a free slot, whose pid `wait` has set to 0, and the `fork` that
-- takes the slot.
use tp2_so.Base.{
  subst, ℕ, ◌≡◌, ◌≢◌, ◌∙◌, sym, ◌<◌, inl, inr, true, false, some, List, get_elem?, arith, minus_one,
  dec_lt,
}
use tp2_so.Proc.{Proc, Kernel, is_unused}
use tp2_so.Proc.Env.{Env}
use tp2_so.Proc.Sleep.{kill, kill_proc}
use tp2_so.Proc.Sleep.Kill.{ChangesFirst, kill_lem}
use tp2_so.Proc.Alloc.{fork}
use tp2_so.Proc.Alloc.Child.{Forked, fork_lem}

-- Slot `n` is the first free one, and the first whose pid is 0.
pub record FirstFree (ps : List Proc) (n : ℕ) : Type 0 where
  pub slot : Proc
  pub there : get_elem? ps n ≡ some slot
  pub free : is_unused slot.state ≡ true
  pub no_pid : slot.pid ≡ 0
  pub used_below : (j : ℕ) (q : Proc) → j < n → get_elem? ps j ≡ some q → is_unused q.state ≡ false
  pub pids_below : (j : ℕ) (q : Proc) → j < n → get_elem? ps j ≡ some q → q.pid ≢ 0

-- What `kill (0)` does to such a table.
record Marked (ps : List Proc) (n : ℕ) (slot : Proc) : Type 0 where
  answer : (kill 0 ps).0 ≡ 0
  after : get_elem? (kill 0 ps).1 n ≡ some (kill_proc slot)
  others : (j : ℕ) → j ≢ n → get_elem? (kill 0 ps).1 j ≡ get_elem? ps j

same_slot :
    (ps ps' : List Proc) (n i : ℕ) (p p' : Proc)
    → FirstFree ps n
    → ChangesFirst 0 i p p' ps ps'
    → i ≡ n
same_slot ps ps' n i p p' f c = elim (dec_lt i n) [
  | yes lt ↦ absurd (f.pids_below i p lt c.before c.has_pid)
  | no ge ↦ elim (dec_lt n i) [
    | yes lt ↦ absurd (c.first n f.slot lt f.there f.no_pid)
    | no le ↦ omega arith
  ]
]

kill_zero : (ps : List Proc) (n : ℕ) (f : FirstFree ps n) → Marked ps n f.slot
kill_zero ps n f = elim (kill_lem 0 ps) [
  | inl (a, e) ↦ absurd (a n f.slot f.there f.no_pid)
  | inr (i, p, z, c, w) ↦
      let same = same_slot ps (kill 0 ps).1 n i p (kill_proc p) f c in
      record {
        answer = z;
        after = ground (arith, c.after, c.before, f.there);
        others = λ j ne. c.others j (λ e. ne (e ∙ same));
      }
]

module _ {M : Type 0} (env : Env M) where
  abbrev after_kill : Kernel M → Kernel M
  after_kill k = record k { procs = (kill 0 k.procs).1 }

  Forked-slot :
      (cur ret n : ℕ) (p : Proc) (k k' : Kernel M)
      → FirstFree k.procs n
      → (r : Forked env (λ pid. 2) cur ret p (after_kill k) k') → r.n ≡ n
  Forked-slot cur ret n p k k' f r =
      let m = kill_zero k.procs n f in
      elim (dec_lt r.n n) [
        | yes lt ↦
            absurd (ground (arith, f.used_below r.n r.old lt, m.others r.n, r.free, r.was_free))
        | no ge ↦ elim (dec_lt n r.n) [
          | yes lt ↦ absurd (ground (arith, r.first n (kill_proc f.slot) lt m.after, f.free))
          | no le ↦ omega arith
        ]
      ]

  Forked-marked :
      (cur ret n : ℕ) (p : Proc) (k k' : Kernel M)
      → FirstFree k.procs n
      → Forked env (λ pid. 2) cur ret p (after_kill k) k'
      → (c : Proc) × (get_elem? k'.procs n ≡ some c) × (c.pid ≡ ret) × (c.killed ≡ 1)
  Forked-marked cur ret n p k k' f r =
      let m = kill_zero k.procs n f in
      let same = Forked-slot cur ret n p k k' f r in
      (
        r.child,
        ground (arith, same, r.there),
        r.is_child.pid_is,
        ground (arith, same, r.mark_kept, r.free, m.after),
      )

  -- Where the first free slot is also the first with pid 0, `kill (0)` answers 0, and the next
  -- `fork` that succeeds makes a child that is marked killed from the start.
  pub kill_zero-fork :
      (cur ret n : ℕ) (p : Proc) (k k' : Kernel M)
      → FirstFree k.procs n
      → get_elem? k.procs cur ≡ some p
      → is_unused p.state ≡ false
      → fork env cur (record k { procs = (kill 0 k.procs).1 }) ≡ some (ret, k')
      → ret ≢ minus_one
      → ((kill 0 k.procs).0 ≡ 0)
        × ((c : Proc) × (get_elem? k'.procs n ≡ some c) × (c.pid ≡ ret) × (c.killed ≡ 1))
  kill_zero-fork cur ret n p k k' f g u e ne =
      let m = kill_zero k.procs n f in
      let p1 : get_elem? (kill 0 k.procs).1 cur ≡ some p =
        ground (arith, m.others cur, f.there, f.free) in
      let (ret', k'', e', r) = fork_lem env cur (after_kill k) p p1 u in
      let ret_eq : ret' ≡ ret = ground arith in
      let k_eq : k'' ≡ k' = ground arith in
      (
        m.answer,
        elim r [
          | inl no_fork ↦ absurd (ne (sym ret_eq ∙ no_fork.ret_is))
          | inr f' ↦
              let (c, at, pid, mark) = Forked-marked cur ret' n p k k'' f f' in
              (
                c,
                subst (λ (x : Kernel M). get_elem? x.procs n ≡ some c) k_eq at,
                pid ∙ ret_eq,
                mark,
              )
        ],
      )
