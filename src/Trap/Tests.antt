-- ===== src/Trap/Tests.antt =====
-- Timer interrupts of a process that the scheduler has just started.
use tp2_so.Base.{◌≡◌, refl, arith, some}
use tp2_so.Proc.{TrapFrame}
use tp2_so.Proc.Sched.{start_running}
use tp2_so.Proc.Tests.{frame0, low}
use tp2_so.Trap.{returns, yields}
use tp2_so.Trap.Slice.{ticks_of, slice_lem}

abbrev tick : TrapFrame
tick = record frame0 { trapno = 32 }

slice_lem_example :
    (ticks_of 2 tick (start_running low)
      ≡ returns (some (record (start_running low) { time_slice = 3 })))
    × (ticks_of 6 tick (start_running low) ≡ yields (record (start_running low) { time_slice = 0 }))
slice_lem_example = slice_lem tick low 2 refl refl (omega arith)
