-- ===== src/Proc/Alloc/Slots.antt =====
-- `allocproc` of proc.c: which slot it takes, and what it leaves on failure.
use tp2_so.Base.{
  ◌<◌, ℕ, ◌≡◌, ◌≢◌, ◌⊎◌, inl, inr, refl, true, false, none, some, List, ◌==◌, get_elem?,
  get_elem?-modify, modify, arith, if◌then◌else◌, find_index, find_index-passes, find_index-first,
  Option-cases, Bool-cases, add32,
}
use tp2_so.Proc.{Proc, Kernel, is_unused}
use tp2_so.Proc.Env.{Env}
use tp2_so.Proc.Alloc.{claim, give_stack, drop_slot, found, allocproc}

-- A slot that is free in both tables, or the same in both.
abbrev pub SameOrFree : List Proc → List Proc → Type 0
SameOrFree ps ps' =
    (j : ℕ) (q : Proc)
    → get_elem? ps' j ≡ some q
    → (get_elem? ps j ≡ some q)
      ⊎ ((is_unused q.state ≡ true)
          × ((o : Proc) × (get_elem? ps j ≡ some o) × (is_unused o.state ≡ true)))

module _ {M : Type 0} (env : Env M) where
  -- Slot `n`, free with content `old`, has been claimed in `k'`, and no other slot has changed.
  pub record Claimed (k k' : Kernel M) (n : ℕ) (old : Proc) : Type 0 where
    pub free : get_elem? k.procs n ≡ some old
    pub was_free : is_unused old.state ≡ true
    pub now :
        get_elem? k'.procs n
        ≡ some (give_stack env.forkret (env.kalloc k.mem).0 (claim k.nextpid old))
    pub first :
        (j : ℕ) (q : Proc) → j < n → get_elem? k.procs j ≡ some q → is_unused q.state ≡ false
    pub others : (j : ℕ) → j ≢ n → get_elem? k'.procs j ≡ get_elem? k.procs j
    pub counter : k'.nextpid ≡ add32 k.nextpid 1
    pub stack : (env.kalloc k.mem).0 ≢ 0
    pub memory : k'.mem ≡ (env.kalloc k.mem).1

  found_ok :
      (k : Kernel M) (i : ℕ) (o : Proc)
      → get_elem? k.procs i ≡ some o
      → is_unused o.state ≡ true
      → ((j : ℕ) (q : Proc) → j < i → get_elem? k.procs j ≡ some q → is_unused q.state ≡ false)
      → ((env.kalloc k.mem).0 == 0) ≡ false
      → ((found env i k).0 ≡ some i) × Claimed k (found env i k).1 i o
  unfolding found
  found_ok k i o g u low a = (
    rw (a, found),
    rw (a, found)
        (record {
          free = g;
          was_free = u;
          first = low;
          now = ground (arith, two_writes i);
          others = λ j ne. ground (arith, two_writes j);
          counter = refl;
          stack = ground arith;
          memory = refl;
        }),
  )
    where
      two_writes :
          (j : ℕ)
          → get_elem?
              (modify
                (modify k.procs i (claim k.nextpid))
                i
                (give_stack env.forkret (env.kalloc k.mem).0))
              j
            ≡ (if i == j
                then some (give_stack env.forkret (env.kalloc k.mem).0 (claim k.nextpid o))
                else get_elem? k.procs j)
      two_writes j = ground (
        arith,
        get_elem?-modify (modify k.procs i (claim k.nextpid)) i j
            (give_stack env.forkret (env.kalloc k.mem).0),
        get_elem?-modify k.procs i j (claim k.nextpid),
      )

  found_fail :
      (k : Kernel M) (i : ℕ) (o : Proc)
      → get_elem? k.procs i ≡ some o
      → is_unused o.state ≡ true
      → ((env.kalloc k.mem).0 == 0) ≡ true
      → ((found env i k).0 ≡ none) × SameOrFree k.procs (found env i k).1.procs
  unfolding found
  found_fail k i o g u a = (
    rw (a, found),
    rw (a, found)
        (λ j q e. ground (
          arith,
          get_elem?-modify (modify k.procs i (claim k.nextpid)) i j drop_slot,
          get_elem?-modify k.procs i j (claim k.nextpid),
        )),
  )

  -- `allocproc` either answers null, with every slot that was in use as it was and no slot newly in
  -- use, or claims a free slot for the next pid and changes no other.
  pub allocproc_lem :
      (k : Kernel M)
      → (((allocproc env k).0 ≡ none) × SameOrFree k.procs (allocproc env k).1.procs)
        ⊎ ((n : ℕ) × (old : Proc) × ((allocproc env k).0 ≡ some n)
            × Claimed k (allocproc env k).1 n old)
  unfolding allocproc
  allocproc_lem k = elim (Option-cases (find_index (λ p. is_unused p.state) k.procs)) [
    | inl e ↦ inl (rw (e, allocproc), rw (e, allocproc) (λ j q g. inl g))
    | inr (i, e) ↦
        let (o, g, u) = find_index-passes (λ (p : Proc). is_unused p.state) k.procs i e in
        elim (Bool-cases ((env.kalloc k.mem).0 == 0)) [
          | inl a ↦ inl (rw (e, allocproc) (found_fail k i o g u a))
          | inr a ↦
              let (r, c) = found_ok k i o g u (find_index-first _ k.procs i e) a in
              inr (i, o, rw (e, allocproc) r, rw (e, allocproc) c)
        ]
  ]
