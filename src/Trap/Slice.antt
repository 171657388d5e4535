-- ===== src/Trap/Slice.antt =====
-- How long a process runs before trap.c preempts it.
use tp2_so.Base.{
  ℕ, zero, suc, ◌+◌, ◌-◌, ◌<◌, ◌≤◌, ◌^◌, ◌≡◌, refl, ap, true, false, none, some, ◌==◌, arith, sub32,
  if◌then◌else◌,
}
use tp2_so.Proc.{Proc, TrapFrame, running, interv}
use tp2_so.Proc.Sched.{start_running}
use tp2_so.Trap.{Ending, exits, yields, returns, after_switch}

-- `n` timer interrupts in a row that each end in the return to the process.
unfoldable pub ticks_of : ℕ → TrapFrame → Proc → Ending
ticks_of zero tf p = returns (some p)
ticks_of (suc n) tf p = elim (after_switch tf (some p)) [
  | exits ↦ exits
  | yields q ↦ yields q
  | returns none ↦ returns none
  | returns (some q) ↦ ticks_of n tf q
]

tick-eq :
    (tf : TrapFrame) (p : Proc)
    → tf.trapno ≡ 32
    → p.state ≡ running
    → p.killed ≡ 0
    → after_switch tf (some p) ≡ (
        if p.time_slice == 0
        then yields p
        else returns (some (record p { time_slice = sub32 p.time_slice 1 })))
unfolding after_switch
tick-eq tf p ht hr hk = ground arith

goes_on :
    (tf : TrapFrame) (n t : ℕ) (p : Proc)
    → tf.trapno ≡ 32
    → p.state ≡ running
    → p.killed ≡ 0
    → p.time_slice ≡ n + t
    → n + t < 2 ^ 32
    → ticks_of n tf p ≡ returns (some (record p { time_slice = t }))
unfolding ticks_of
goes_on tf zero t p ht hr hk e b =
    let same : p.time_slice ≡ t = omega arith in
    ap (λ v. returns (some (record p { time_slice = v }))) same
goes_on tf (suc n) t p ht hr hk e b =
    let more : (p.time_slice == 0) ≡ false = ground arith in
    rw (tick-eq tf p ht hr hk, ticks_of, more)
      (goes_on tf n t (record p { time_slice = sub32 p.time_slice 1 }) ht hr hk (omega arith)
        (omega arith))

stops_after :
    (tf : TrapFrame) (n : ℕ) (p : Proc)
    → tf.trapno ≡ 32
    → p.state ≡ running
    → p.killed ≡ 0
    → p.time_slice ≡ n
    → n < 2 ^ 32
    → ticks_of (suc n) tf p ≡ yields (record p { time_slice = 0 })
unfolding ticks_of
stops_after tf zero p ht hr hk e b =
    let empty : (p.time_slice == 0) ≡ true = ground arith in
    rw (tick-eq tf p ht hr hk, ticks_of, empty) (ap (λ v. yields (record p { time_slice = v })) e)
stops_after tf (suc n) p ht hr hk e b =
    let more : (p.time_slice == 0) ≡ false = ground arith in
    rw (tick-eq tf p ht hr hk, ticks_of, more)
      (stops_after tf n (record p { time_slice = sub32 p.time_slice 1 }) ht hr hk (omega arith)
        (omega arith))

-- A process that the scheduler has just put on a CPU and that nobody kills gets INTERV + 1 timer
-- interrupts: it goes on after each of the first INTERV, its slice counting down to 0, and yields at
-- the next.
pub slice_lem :
    (tf : TrapFrame) (p : Proc) (n : ℕ)
    → tf.trapno ≡ 32
    → p.killed ≡ 0
    → n ≤ interv
    → (ticks_of n tf (start_running p)
        ≡ returns (some (record (start_running p) { time_slice = interv - n })))
      × (ticks_of (interv + 1) tf (start_running p)
          ≡ yields (record (start_running p) { time_slice = 0 }))
slice_lem tf p n ht hk hn = (
  goes_on tf n (interv - n) (start_running p) ht refl hk (omega arith) (omega arith),
  stops_after tf interv (start_running p) ht refl hk refl (omega arith),
)
