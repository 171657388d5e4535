-- ===== src/Spinlock.antt =====
-- xv6-public/spinlock.c: `pushcli`, `popcli`, `holding`, `acquire`, `release` on one lock, a shared
-- access at a time. The caller's program counters in `pcs` serve debugging alone and are left out.
pub mod Nesting
pub mod Exclusion
pub mod Tests
use tp2_so.Base.{
  add32, sub32, slt, ℕ, zero, suc, ◌+◌, ◌-◌, ◌≡◌, ◌≢◌, Bool, true, false, not, Option, none, some,
  ◌==◌, ◌&&◌, if◌then◌else◌, ltb,
}

-- What `struct cpu` has for the locks, with the interrupt flag of the processor.
pub record Cpu : Type 0 where
  pub if_flag : Bool
  pub ncli : ℕ
  pub intena : Bool

-- `struct spinlock`: `cpu` is the holder.
pub record Lock : Type 0 where
  pub locked : ℕ
  pub cpu : Option ℕ

abbrev pub init_lock : Lock
init_lock = record { locked = 0; cpu = none }

unfoldable pub pushcli : Cpu → Cpu
pushcli c = record {
  if_flag = false;
  intena = if c.ncli == 0 then c.if_flag else c.intena;
  ncli = add32 c.ncli 1;
}

-- `none` is a panic: with interrupts on, or with no `pushcli` to undo.
unfoldable pub popcli : Cpu → Option Cpu
popcli c =
    if c.if_flag
    then none
    else if slt (sub32 c.ncli 1) 0
    then none
    else some (record c {
      ncli = sub32 c.ncli 1;
      if_flag = if sub32 c.ncli 1 == 0 && c.intena then true else c.if_flag;
    })

abbrev pub owner_is : ℕ → Option ℕ → Bool
owner_is c none = false
owner_is c (some d) = c == d

-- `holding`, for CPU `c`. Its `pushcli` and `popcli` are left out.
unfoldable pub holding : ℕ → Lock → Bool
holding c l = not (l.locked == 0) && owner_is c l.cpu

-- Where a CPU stands in its use of the lock.
pub data Pc : Type 0 where
  away : Pc  -- it has no business with the lock
  spinning : Pc  -- in the `while` of `acquire`
  won : Pc  -- `xchg` has answered 0
  inside : Pc  -- `acquire` has returned
  leaving : Pc  -- `release` has cleared `cpu`, and not yet `locked`

pub record Machine : Type 0 where
  pub lock : Lock
  pub pc : ℕ → Pc
  pub cpus : ℕ → Cpu

abbrev pub set_pc : (ℕ → Pc) → ℕ → Pc → ℕ → Pc
set_pc f c v d = if c == d then v else f d

abbrev pub set_cpu : (ℕ → Cpu) → ℕ → Cpu → ℕ → Cpu
set_cpu f c v d = if c == d then v else f d

-- One shared access of one CPU. An access after which the CPU panics is no step.
pub data Step (m : Machine) : Machine → Type 0 where
  enter :
      (c : ℕ)
      → m.pc c ≡ away
      → holding c m.lock ≡ false
      → Step m
          (record m { pc = set_pc m.pc c spinning; cpus = set_cpu m.cpus c (pushcli (m.cpus c)) })
  spin : (c : ℕ) → m.pc c ≡ spinning → m.lock.locked ≢ 0 → Step m m
  win :
      (c : ℕ)
      → m.pc c ≡ spinning
      → m.lock.locked ≡ 0
      → Step m (record m { lock = record (m.lock) { locked = 1 }; pc = set_pc m.pc c won })
  sign :
      (c : ℕ)
      → m.pc c ≡ won
      → Step m (record m { lock = record (m.lock) { cpu = some c }; pc = set_pc m.pc c inside })
  unsign :
      (c : ℕ)
      → m.pc c ≡ inside
      → holding c m.lock ≡ true
      → Step m (record m { lock = record (m.lock) { cpu = none }; pc = set_pc m.pc c leaving })
  unlock :
      (c : ℕ) (k : Cpu)
      → m.pc c ≡ leaving
      → popcli (m.cpus c) ≡ some k
      → Step m (record m {
        lock = record (m.lock) { locked = 0 };
        pc = set_pc m.pc c away;
        cpus = set_cpu m.cpus c k;
      })

-- At boot nobody has touched the lock.
pub data Boots (m : Machine) : Type 0 where
  boots : m.lock ≡ init_lock → ((c : ℕ) → (m.pc c ≡ away) × ((m.cpus c).ncli ≡ 0)) → Boots m

pub data Reach : Machine → Type 0 where
  start : {m : Machine} → Boots m → Reach m
  later : {m n : Machine} → Reach m → Step m n → Reach n
