-- ===== src/Syscall/Tests.antt =====
-- A process whose stack at 4000 holds the arguments 2 and 100, and a text at 100.
use tp2_so.Base.{◌+◌, ◌≤◌, ◌<◌, ◌^◌, ◌≡◌, ◌↔◌, some, if◌then◌else◌, ◌==◌, arith}
use tp2_so.Memory.{Mem}
use tp2_so.Syscall.{argint, argptr}
use tp2_so.Syscall.Arguments.{argptr_lem}

abbrev memory : Mem
memory a = if a == 4004 then 2 else if a == 4008 then 100 else if a == 100 then 104 else 0

argptr_lem_example :
    (argptr 8192 memory 4000 1 64 ≡ some 100)
    ↔ ((argint 8192 memory 4000 1 ≡ some 100) × (64 < 2 ^ 31) × (100 < 8192) × (100 + 64 ≤ 8192))
argptr_lem_example = argptr_lem 8192 4000 1 64 memory 100 (omega arith) (omega arith)
