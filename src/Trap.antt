-- ===== src/Trap.antt =====
-- xv6-public/trap.c: `trap`, and the time slice of a process.
-- Device handlers (`ideintr`, `kbdintr`, `uartintr`, `lapiceoi`) leave the process alone.
pub mod Slice
pub mod Tests
use tp2_so.Base.{
  ◌+◌, ℕ, zero, suc, ◌%◌, Bool, true, false, not, Option, none, some, ◌==◌, ◌&&◌, ◌||◌,
  if◌then◌else◌, add32, sub32,
}
use tp2_so.Proc.{Proc, TrapFrame, is_running}

-- traps.h: the trap numbers that `trap` knows.
abbrev pub t_syscall : ℕ
t_syscall = 64

abbrev pub t_irq0 : ℕ
t_irq0 = 32

abbrev pub irq_timer : ℕ
irq_timer = 0

abbrev pub irq_kbd : ℕ
irq_kbd = 1

abbrev pub irq_com1 : ℕ
irq_com1 = 4

abbrev pub irq_ide : ℕ
irq_ide = 14

abbrev pub irq_spurious : ℕ
irq_spurious = 31

abbrev pub is_timer : ℕ → Bool
is_timer n = n == t_irq0 + irq_timer

-- The cases of the `switch`, but for `default` and the timer.
abbrev pub is_device : ℕ → Bool
is_device n =
    (n == t_irq0 + irq_ide || n == t_irq0 + irq_ide + 1)
    || (n == t_irq0 + irq_kbd || n == t_irq0 + irq_com1)
    || (n == t_irq0 + 7 || n == t_irq0 + irq_spurious)

-- `(tf->cs & 3) == DPL_USER`
abbrev pub from_user : TrapFrame → Bool
from_user tf = tf.cs % 4 == 3

-- `myproc() && myproc()->killed && (tf->cs & 3) == DPL_USER`
abbrev pub must_exit : TrapFrame → Option Proc → Bool
must_exit tf none = false
must_exit tf (some p) = not (p.killed == 0) && from_user tf

-- The `switch`: `ticks`, whether `wakeup(&ticks)` is called, and the process; `none` is the panic.
unfoldable pub dispatch_trap : ℕ → TrapFrame → ℕ → Option Proc → Option (ℕ × Bool × Option Proc)
dispatch_trap cpu tf ticks me =
    if is_timer tf.trapno
    then some (if cpu == 0 then (add32 ticks 1, true, me) else (ticks, false, me))
    else if is_device tf.trapno
    then some (ticks, false, me)
    else elim me [
      | none ↦ none
      | some p ↦
          if tf.cs % 4 == 0 then none else some (ticks, false, some (record p { killed = 1 }))
    ]

-- How the code after the `switch` ends: in `exit`, in `yield`, or in the return from the trap.
pub data Ending : Type 0 where
  exits : Ending
  yields : Proc → Ending
  returns : Option Proc → Ending

-- The part after the `switch` up to `yield`, and the last check when it does not yield.
unfoldable pub after_switch : TrapFrame → Option Proc → Ending
after_switch tf none = returns none
after_switch tf (some p) =
    if must_exit tf (some p)
    then exits
    else if is_running p.state && is_timer tf.trapno
    then (if not (p.time_slice == 0)
        then (let q : Proc = record p { time_slice = sub32 p.time_slice 1 } in
            if must_exit tf (some q) then exits else returns (some q))
        else yields p)
    else if must_exit tf (some p)
    then exits
    else returns (some p)

-- The check after `yield` has returned, to a process that may have been killed since.
unfoldable pub after_yield : TrapFrame → Proc → Ending
after_yield tf p = if must_exit tf (some p) then exits else returns (some p)

-- The branch for T_SYSCALL, `call` being what `syscall` does to the process.
unfoldable pub trap_syscall : (Proc → Proc) → TrapFrame → Proc → Ending
trap_syscall call tf p =
    if not (p.killed == 0)
    then exits
    else (let q : Proc = call (record p { frame = tf }) in
        if not (q.killed == 0) then exits else returns (some q))

-- `trap`, up to its end or its `yield`. A system call comes from a process.
unfoldable pub trap : (Proc → Proc) → ℕ → TrapFrame → ℕ → Option Proc → Option (ℕ × Bool × Ending)
unfolding trap_syscall dispatch_trap after_switch
trap call cpu tf ticks me =
    if tf.trapno == t_syscall
    then elim me [ none ↦ none | some p ↦ some (ticks, false, trap_syscall call tf p) ]
    else elim (dispatch_trap cpu tf ticks me) [
      | none ↦ none
      | some (t, w, me1) ↦ some (t, w, after_switch tf me1)
    ]
