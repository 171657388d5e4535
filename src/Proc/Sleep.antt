-- ===== src/Proc/Sleep.antt =====
-- proc.c: `sched`, `yield`, `sleep`, `wakeup1`, `wakeup`, `kill`, `change_prio`. A function that
-- calls `sched` is two functions: what it does up to the switch, and what it does when the process
-- runs again. `cur` is the slot of `myproc()`.
pub mod Wake
pub mod Locks
pub mod Kill
use tp2_so.Base.{
  ℕ, Bool, false, not, Option, none, some, List, ◌==◌, ◌&&◌, if◌then◌else◌, length, modify,
  map_list, find_index, minus_one,
}
use tp2_so.Proc.{Proc, ProcState, sleeping, runnable, Chan, null, is_sleeping, is_running, chan_eq}
use tp2_so.Proc.Outcome.{
  Outcome, ok, panic, sched_ptable_lock, sched_locks, sched_running, sched_interruptible,
  sleep_no_proc, sleep_without_lk, check, ◌>>=◌, ◌>>◌, Held, LockRef, ptable_lock, lock_eq, holding,
  acquire, release,
}

abbrev pub set_state : ProcState → Proc → Proc
set_state s p = record p { state = s }

abbrev pub wake_if : Chan → Proc → Proc
wake_if c p = if is_sleeping p.state && chan_eq p.chan c then set_state runnable p else p

-- The loop over the whole table.
unfoldable pub wakeup1 : Chan → List Proc → List Proc
wakeup1 c = map_list (wake_if c)

-- `wakeup1` between `acquire` and `release` of the table's lock.
unfoldable pub wakeup : Chan → List Proc → Held → Outcome (List Proc × Held)
wakeup c ps held = do
  held1 ← acquire ptable_lock held
  held2 ← release ptable_lock held1
  ok (wakeup1 c ps, held2)

-- The body of the `if` in `kill`.
abbrev pub kill_proc : Proc → Proc
kill_proc p = record p { killed = 1; state = if is_sleeping p.state then runnable else p.state }

unfoldable pub kill : ℕ → List Proc → ℕ × List Proc
kill pid ps = elim (find_index (λ p. p.pid == pid) ps) [
  | none ↦ (minus_one, ps)
  | some i ↦ (0, modify ps i kill_proc)
]

-- `change_prio` looks for the pid of the caller, not for its slot.
unfoldable pub change_prio : ℕ → ℕ → List Proc → ℕ × List Proc
change_prio priority pid ps = elim (find_index (λ p. p.pid == pid) ps) [
  | none ↦ (minus_one, ps)
  | some i ↦ (0, modify ps i (λ p. record p { priority = priority }))
]

-- The four checks of `sched`. `ncli` counts the `acquire`s of this CPU, and its interrupts are off
-- (`interruptible` is false) as long as one is outstanding.
unfoldable pub sched : ProcState → Held → Bool → Outcome (Unit {0})
sched state held interruptible = do
  check (not (holding ptable_lock held)) sched_ptable_lock
  check (not (length held == 1)) sched_locks
  check (is_running state) sched_running
  check interruptible sched_interruptible

abbrev pub fall_asleep : Chan → Proc → Proc
fall_asleep c p = record p { chan = c; state = sleeping }

-- `sleep` up to the switch. A null `lk` is `none`.
unfoldable pub sleep :
    Option ℕ → Chan → Option LockRef → List Proc → Held → Outcome (List Proc × Held)
sleep none c lk ps held = panic sleep_no_proc
sleep (some cur) c none ps held = panic sleep_without_lk
sleep (some cur) c (some lk) ps held = do
  held1 ← (if lock_eq lk ptable_lock then ok held else (acquire ptable_lock held >>= release lk))
  sched sleeping held1 false
  ok (modify ps cur (fall_asleep c), held1)

-- `sleep` after the switch back.
unfoldable pub sleep_return : ℕ → LockRef → List Proc → Held → Outcome (List Proc × Held)
sleep_return cur lk ps held = do
  held1 ← (if lock_eq lk ptable_lock then ok held else (release ptable_lock held >>= acquire lk))
  ok (modify ps cur (λ p. record p { chan = null }), held1)

-- `yield` up to the switch, and after it.
unfoldable pub yield : ℕ → List Proc → Held → Outcome (List Proc × Held)
yield cur ps held = do
  held1 ← acquire ptable_lock held
  sched runnable held1 false
  ok (modify ps cur (set_state runnable), held1)

unfoldable pub yield_return : Held → Outcome Held
yield_return held = release ptable_lock held
