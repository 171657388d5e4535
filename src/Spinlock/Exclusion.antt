-- ===== src/Spinlock/Exclusion.antt =====
-- Runs of CPUs that use one lock of spinlock.c.
use tp2_so.Base.{
  sub32, ℕ, ◌≡◌, ◌≢◌, refl, Bool, true, false, some, ◌==◌, ◌&&◌, if◌then◌else◌, arith,
}
use tp2_so.Spinlock.{
  Cpu, pushcli, popcli, holding, Pc, away, won, inside, leaving, Machine, Step, enter, spin, win,
  sign, unsign, unlock, Boots, boots, Reach, start, later,
}

-- From the `xchg` that answered 0 to the write of 0 into `locked`.
abbrev pub has_lock : Pc → Bool
has_lock won = true
has_lock inside = true
has_lock leaving = true
has_lock _ = false

abbrev pub is_away : Pc → Bool
is_away away = true
is_away _ = false

pub record Inv (m : Machine) : Type 0 where
  pub taken : (c : ℕ) → has_lock (m.pc c) ≡ true → m.lock.locked ≡ 1
  pub one : (c d : ℕ) → has_lock (m.pc c) ≡ true → has_lock (m.pc d) ≡ true → c ≡ d
  pub signed : (c : ℕ) → m.pc c ≡ inside → m.lock.cpu ≡ some c
  pub owner : (c : ℕ) → m.lock.cpu ≡ some c → m.pc c ≡ inside
  pub held : m.lock.locked ≢ 0 → (c : ℕ) × (has_lock (m.pc c) ≡ true)
  pub idle : (c : ℕ) → is_away (m.pc c) ≡ true → (m.cpus c).ncli ≡ 0
  pub quiet :
      (c : ℕ) → is_away (m.pc c) ≡ false → ((m.cpus c).ncli ≡ 1) × ((m.cpus c).if_flag ≡ false)

Step-Inv : {m n : Machine} → Step m n → Inv m → Inv n
unfolding pushcli popcli holding
Step-Inv {m} (enter c e h) v = record {
  taken = λ d q. ground (arith, v.taken d);
  one = λ d k p q. ground (arith, v.one d k);
  signed = λ d p. ground (arith, v.signed d);
  owner = λ d p. ground (arith, v.owner d);
  held = λ p. let (d, q) = v.held p in (d, ground arith);
  idle = λ d p. ground (arith, v.idle d, v.quiet d);
  quiet = λ d p. ground (arith, v.quiet d, v.idle d);
}
Step-Inv {m} (spin c e h) v = v
Step-Inv {m} (win c e h) v = record {
  taken = λ d q. refl;
  one = λ d k p q. ground (arith, v.taken d, v.taken k);
  signed = λ d p. ground (arith, v.signed d);
  owner = λ d p. ground (arith, v.owner d);
  held = λ p. (c, ground arith);
  idle = λ d p. ground (arith, v.idle d, v.quiet d);
  quiet = λ d p. ground (arith, v.quiet d, v.idle d);
}
Step-Inv {m} (sign c e) v = record {
  taken = λ d q. ground (arith, v.taken d);
  one = λ d k p q. ground (arith, v.one d k);
  signed = λ d p. ground (arith, v.one d c);
  owner = λ d p. ground arith;
  held = λ p. let (d, q) = v.held p in (d, ground arith);
  idle = λ d p. ground (arith, v.idle d, v.quiet d);
  quiet = λ d p. ground (arith, v.quiet d, v.idle d);
}
Step-Inv {m} (unsign c e h) v = record {
  taken = λ d q. ground (arith, v.taken d);
  one = λ d k p q. ground (arith, v.one d k);
  signed = λ d p. ground (arith, v.one d c);
  owner = λ d p. cc;
  held = λ p. let (d, q) = v.held p in (d, ground arith);
  idle = λ d p. ground (arith, v.idle d, v.quiet d);
  quiet = λ d p. ground (arith, v.quiet d, v.idle d);
}
Step-Inv {m} (unlock c k e h) v = record {
  taken = λ d q. ground (arith, v.one d c);
  one = λ d j p q. ground (arith, v.one d j);
  signed = λ d p. ground (arith, v.signed d);
  owner = λ d p. ground (arith, v.owner d);
  held = λ p. absurd (p refl);
  idle = λ d p. ground (arith, v.idle d, v.quiet d);
  quiet = λ d p. ground (arith, v.quiet d, v.idle d);
}

Boots-Inv : {m : Machine} → Boots m → Inv m
Boots-Inv {m} (boots l q) = record {
  taken = λ c h. ground (arith, q c);
  one = λ c d h k. ground (arith, q c);
  signed = λ c h. ground (arith, q c);
  owner = λ c h. ground arith;
  held = λ h. absurd (ground arith);
  idle = λ c h. (q c).1;
  quiet = λ c h. ground (arith, q c);
}

pub Reach-Inv : {m : Machine} → Reach m → Inv m
Reach-Inv (start b) = Boots-Inv b
Reach-Inv (later r s) = Step-Inv s (Reach-Inv r)

-- In every state that the CPUs can reach, in any interleaving, two CPUs never have the lock at once,
-- from the `xchg` that takes it to the write that gives it up, and interrupts are off on the one that
-- has it.
pub mutual_exclusion :
    {m : Machine}
    → Reach m
    → (c d : ℕ) → has_lock (m.pc c) ≡ true
    → ((m.cpus c).if_flag ≡ false) × (has_lock (m.pc d) ≡ true → c ≡ d)
mutual_exclusion {m} r c d h =
    let v = Reach-Inv r in ((v.quiet c (ground arith)).1, λ k. v.one c d h k)

-- A CPU that is inside is found by `holding`, one that is not is not, and `release` does not panic:
-- neither its check nor the `popcli` at its end.
pub release_never_panics :
    {m : Machine}
    → Reach m
    → (c : ℕ)
    → ((holding c m.lock ≡ true) → m.pc c ≡ inside)
      × (m.pc c ≡ inside → holding c m.lock ≡ true)
      × (m.pc c ≡ leaving → (k : Cpu) × (popcli (m.cpus c) ≡ some k))
unfolding holding popcli
release_never_panics {m} r c =
    let v = Reach-Inv r in
    (
      λ h. v.owner c (ground arith),
      λ h. ground (arith, v.signed c h, v.taken c),
      λ h. (
        record (m.cpus c) {
          ncli = sub32 (m.cpus c).ncli 1;
          if_flag =
              if sub32 (m.cpus c).ncli 1 == 0 && (m.cpus c).intena
              then true
              else (m.cpus c).if_flag;
        },
        ground (arith, v.quiet c),
      ),
    )
