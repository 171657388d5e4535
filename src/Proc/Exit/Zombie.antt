-- ===== src/Proc/Exit/Zombie.antt =====
-- `exit` of proc.c: what it leaves, and how it meets `wait`.
use tp2_so.Base.{
  ℕ, ◌≤◌, ◌≡◌, ◌≢◌, inl, inr, refl, Option, none, some, List, ◌==◌, ◌&&◌, get_elem?,
  get_elem?-modify, modify, length, get_elem?-lt, arith, opt_map, if◌then◌else◌, Option-cases,
  find_index-none, find_index-passes,
}
use tp2_so.Proc.{
  Proc, Kernel, zombie, sleeping, runnable, proc_at, is_zombie, ptr_eq, ptr_eq_iff, chan_of,
}
use tp2_so.Proc.Env.{Env}
use tp2_so.Proc.Sleep.{wakeup1, wake_if, set_state}
use tp2_so.Proc.Sleep.Wake.{wakeup1_at}
use tp2_so.Proc.Exit.{abandon, exit_locked}
use tp2_so.Proc.Exit.Woken.{Woken, AllWoken, AllWoken-trans, wakeup1-AllWoken, abandon-AllWoken}
use tp2_so.Proc.Exit.Parents.{parent_at, moved, parent_at-wakeup1, parent_at-abandon}
use tp2_so.Proc.Wait.{free_slot, zombie_child, is_child, wait_round, reaped}

module _ (cur : ℕ) (init : Option ℕ) (n : ℕ) (ps : List Proc) (p : Proc) where
  abbrev swept : List Proc
  swept = abandon (some cur) init n 0 (wakeup1 (chan_of p.parent) ps)

  swept-AllWoken : AllWoken ps swept
  swept-AllWoken =
      AllWoken-trans ps (wakeup1 (chan_of p.parent) ps) swept
        (wakeup1-AllWoken (chan_of p.parent) ps)
        (abandon-AllWoken (some cur) init n 0 (wakeup1 (chan_of p.parent) ps))

  exit_locked-eq :
      get_elem? ps cur ≡ some p → exit_locked cur init n ps ≡ modify swept cur (set_state zombie)
  unfolding exit_locked
  exit_locked-eq g = rw (g, exit_locked)

  at_others :
      get_elem? ps cur ≡ some p
      → (j : ℕ) → j ≢ cur
      → get_elem? (exit_locked cur init n ps) j ≡ get_elem? swept j
  at_others g j ne =
      rw (exit_locked-eq g) (ground (arith, get_elem?-modify swept cur j (set_state zombie)))

  at_cur :
      get_elem? ps cur ≡ some p
      → get_elem? (exit_locked cur init n ps) cur ≡ opt_map (set_state zombie) (get_elem? swept cur)
  at_cur g =
      rw (exit_locked-eq g) (ground (arith, get_elem?-modify swept cur cur (set_state zombie)))

  parent_kept :
      get_elem? ps cur ≡ some p
      → (j : ℕ) → parent_at (exit_locked cur init n ps) j ≡ parent_at swept j
  parent_kept g j =
      rw (exit_locked-eq g) (ground (arith, get_elem?-modify swept cur j (set_state zombie)))

  parents_after :
      get_elem? ps cur ≡ some p
      → length ps ≤ n
      → (j : ℕ) (q : Proc) → get_elem? ps j ≡ some q
      → parent_at (exit_locked cur init n ps) j ≡ some (moved (some cur) init q.parent)
  parents_after g small j q gq = ground (
    arith,
    parent_kept g j,
    parent_at-abandon (some cur) init n 0 (wakeup1 (chan_of p.parent) ps) j,
    parent_at-wakeup1 (chan_of p.parent) ps j,
    get_elem?-lt ps j q gq,
  )

  waiter_woken :
      (j : ℕ) (q : Proc)
      → get_elem? ps j ≡ some q
      → p.parent ≡ some j
      → q.state ≡ sleeping
      → q.chan ≡ proc_at j
      → (r : Proc) × (get_elem? swept j ≡ some r) × (r.state ≡ runnable)
  waiter_woken j q gq par st ch =
      let w : Proc = wake_if (chan_of p.parent) q in
      let gw : get_elem? (wakeup1 (chan_of p.parent) ps) j ≡ some w =
        ground (arith, wakeup1_at (chan_of p.parent) ps j) in
      let wr : w.state ≡ runnable = rw (par, ch, st) (ground arith) in
      let (r, gr, v) =
        abandon-AllWoken (some cur) init n 0 (wakeup1 (chan_of p.parent) ps) j w gw in
      (r, gr, ground arith)

  -- What `exit` leaves of slot `j`: the caller is a zombie. Any other process is as it was or has
  -- been woken; it is woken if it is the caller's parent and sleeps in `wait`. The caller's children
  -- are init's now, and other processes keep their parent.
  pub record Exited (j : ℕ) (q q' : Proc) : Type 0 where
    pub there : get_elem? (exit_locked cur init n ps) j ≡ some q'
    pub pid : q'.pid ≡ q.pid
    pub parent : q'.parent ≡ (if ptr_eq q.parent (some cur) then init else q.parent)
    pub caller : j ≡ cur → q'.state ≡ zombie
    pub other : j ≢ cur → Woken q q'
    pub waiter :
        j ≢ cur → p.parent ≡ some j → q.state ≡ sleeping → q.chan ≡ proc_at j → q'.state ≡ runnable

  slot_after :
      get_elem? ps cur ≡ some p
      → (j : ℕ) (r : Proc) → get_elem? swept j ≡ some r
      → get_elem? (exit_locked cur init n ps) j ≡ some (if cur == j then set_state zombie r else r)
  slot_after g j r gr =
      rw (exit_locked-eq g) (ground (arith, get_elem?-modify swept cur j (set_state zombie)))

  -- `exit` under the table's lock, of the process `p` in slot `cur`, for every slot of a table of at
  -- most `n` slots: it keeps its pid; the caller is a zombie; any other process keeps its state or
  -- has been woken, and it is woken if it is the caller's parent and sleeps in `wait`; a child of the
  -- caller has init as its parent, and any other process keeps its parent.
  pub exit_locked_lem :
      get_elem? ps cur ≡ some p
      → length ps ≤ n
      → (j : ℕ) (q : Proc) → get_elem? ps j ≡ some q
      → (q' : Proc) × Exited j q q'
  exit_locked_lem g small j q gq =
      let (r, gr, w) = swept-AllWoken j q gq in
      let q' : Proc = (if cur == j then set_state zombie r else r) in
      let at : get_elem? (exit_locked cur init n ps) j ≡ some q' = slot_after g j r gr in
      (
        q',
        record {
          there = at;
          pid = ground arith;
          parent = ground (arith, parents_after g small j q gq);
          caller = λ e. ground arith;
          other = λ ne. ground arith;
          waiter = λ ne par st ch. ground (arith, waiter_woken j q gq par st ch);
        },
      )

  zombie_child_found :
      (par : ℕ)
      → get_elem? ps cur ≡ some p
      → length ps ≤ n
      → p.parent ≡ some par
      → par ≢ cur
      → zombie_child par (exit_locked cur init n ps) ≢ none
  unfolding zombie_child
  zombie_child_found par g small hp ne e =
      let (q', x) = exit_locked_lem g small cur p g in
      ground (
        arith,
        find_index-none (λ (q : Proc). is_child par q && is_zombie q.state) _ e cur q' x.there,
        x.caller refl,
        x.parent,
      )

-- `exit` and `wait` meet: when a process has exited, its parent's next round of `wait` does not go to
-- sleep and does not answer -1. It reaps a child: it answers the pid of a process of the table that
-- is a zombie child of the parent.
pub exit-wait_round :
    {M Out : Type 0} (env : Env M) (out : Proc → Out) (clean : Proc → Proc) (cur par : ℕ)
    (init : Option ℕ) (n : ℕ) (p : Proc) (k : Kernel M)
    → get_elem? k.procs cur ≡ some p
    → length k.procs ≤ n
    → p.parent ≡ some par
    → par ≢ cur
    → (i : ℕ) × (z : Proc) × (k' : Kernel M) × (get_elem? (exit_locked cur init n k.procs) i
        ≡ some z)
      × (z.state ≡ zombie)
      × (z.parent ≡ some par)
      × (wait_round env out clean par (record k { procs = exit_locked cur init n k.procs })
          ≡ reaped z.pid (out z) k')
unfolding wait_round zombie_child
exit-wait_round {M = M} env out clean cur par init n p k g small hp ne =
    elim (Option-cases (zombie_child par (exit_locked cur init n k.procs))) [
      | inl e ↦ absurd (zombie_child_found cur init n k.procs p par g small hp ne e)
      | inr (i, e) ↦
          let (z, gz, t) =
            find_index-passes (λ (q : Proc). is_child par q && is_zombie q.state) _ i e in
          let k' : Kernel M = record k {
            procs = modify (exit_locked cur init n k.procs) i (λ q. clean (free_slot q));
            mem = env.freevm z.pgdir (env.kfree z.kstack k.mem);
          } in
          (
            i,
            z,
            k',
            gz,
            ground arith,
            ground (arith, ptr_eq_iff z.parent (some par)),
            rw (e, wait_round, gz),
          )
    ]
