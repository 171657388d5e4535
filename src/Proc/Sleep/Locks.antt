-- ===== src/Proc/Sleep/Locks.antt =====
-- The locks across `sleep`, and the panics of `sched`.
use tp2_so.Base.{ℕ, ◌≡◌, refl, false, some, List, [], ◌∷◌, arith, modify}
use tp2_so.Proc.{Proc, Chan, null}
use tp2_so.Proc.Outcome.{
  ok, panic, Held, LockRef, ptable_lock, lock_at, sched_locks, holding, lock_eq_refl, acquire,
  release, drop_lock,
}
use tp2_so.Proc.Sleep.{sleep, sleep_return, sched, fall_asleep}

-- A caller that holds just `lk` switches away holding just the table's lock, and has just `lk` again
-- when `sleep` returns.
pub sleep_swaps_locks :
    (cur : ℕ) (c : Chan) (lk : LockRef) (ps later : List Proc)
    → (sleep (some cur) c (some lk) ps (lk ∷ [])
        ≡ ok (modify ps cur (fall_asleep c), ptable_lock ∷ []))
      × (sleep_return cur lk later (ptable_lock ∷ [])
          ≡ ok (modify later cur (λ p. record p { chan = null }), lk ∷ []))
unfolding sleep sleep_return sched acquire release holding drop_lock
sleep_swaps_locks cur c ptable_lock ps later = (refl, refl)
sleep_swaps_locks cur c (lock_at a) ps later = ground (arith, lock_eq_refl (lock_at a))

-- Going to sleep with one more spinlock held panics, whatever that lock is.
pub sleep_with_more_locks :
    (cur : ℕ) (c : Chan) (lk l : LockRef) (held : Held) (ps : List Proc)
    → holding ptable_lock (l ∷ held) ≡ false
    → sleep (some cur) c (some lk) ps (lk ∷ l ∷ held) ≡ panic sched_locks
unfolding sleep sched acquire release holding drop_lock
sleep_with_more_locks cur c ptable_lock l held ps h = ground arith
sleep_with_more_locks cur c (lock_at a) l held ps h = ground (arith, lock_eq_refl (lock_at a))
