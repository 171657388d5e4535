-- ===== src/Proc/Outcome.antt =====
-- The results of kernel code that may panic, and the locks that one CPU holds (spinlock.c as its
-- callers in proc.c see it: `acquire` has returned, whoever spun before).
use tp2_so.Base.{ℕ, ◌≡◌, refl, Bool, true, false, List, [], ◌∷◌, ◌==◌, if◌then◌else◌, arith}

-- The messages that the process code panics with.
pub data Panic : Type 0 where
  acquire_held release_free : Panic
  sched_ptable_lock sched_locks sched_running sched_interruptible : Panic
  sleep_no_proc sleep_without_lk : Panic
  init_exiting zombie_exit user_init : Panic

pub data Outcome {ℓ} (A : Type ℓ) : Type ℓ where
  ok : A → Outcome A
  panic : Panic → Outcome A

infixl 5 ◌>>=◌ ◌>>◌
abbrev pub ◌>>=◌ {ℓ κ} : {A : Type ℓ} {B : Type κ} → Outcome A → (A → Outcome B) → Outcome B
ok a >>= f = f a
panic m >>= f = panic m

abbrev pub ◌>>◌ {ℓ} : {B : Type ℓ} → Outcome (Unit {0}) → Outcome B → Outcome B
m >> k = m >>= λ _. k

abbrev pub check : Bool → Panic → Outcome (Unit {0})
check true m = panic m
check false m = ok tt

pub data LockRef : Type 0 where
  ptable_lock : LockRef
  lock_at : ℕ → LockRef

abbrev pub lock_eq : LockRef → LockRef → Bool
lock_eq ptable_lock ptable_lock = true
lock_eq (lock_at a) (lock_at b) = a == b
lock_eq _ _ = false

-- The spinlocks that this CPU holds, last taken first.
abbrev pub Held : Type 0
Held = List LockRef

unfoldable pub holding : LockRef → Held → Bool
holding l [] = false
holding l (h ∷ hs) = if lock_eq l h then true else holding l hs

unfoldable pub drop_lock : LockRef → Held → Held
drop_lock l [] = []
drop_lock l (h ∷ hs) = if lock_eq l h then hs else h ∷ drop_lock l hs

unfoldable pub acquire : LockRef → Held → Outcome Held
acquire l hs = if holding l hs then panic acquire_held else ok (l ∷ hs)

unfoldable pub release : LockRef → Held → Outcome Held
release l hs = if holding l hs then ok (drop_lock l hs) else panic release_free

pub lock_eq_refl : (l : LockRef) → lock_eq l l ≡ true
lock_eq_refl ptable_lock = refl
lock_eq_refl (lock_at a) = ground arith
