-- ===== src/Memory/Tests.antt =====
-- Moves and strings on a memory in which each byte is its address modulo 256.
use tp2_so.Base.{◌≡◌, ◌%◌, arith}
use tp2_so.Memory.{Mem, memmove}
use tp2_so.Memory.Move.{memmove_lem}

abbrev bytes : Mem
bytes a = a % 256

-- An overlapping move up by 2: byte 12 gets what byte 10 had.
memmove_lem_example : memmove 12 10 4 bytes 13 ≡ 11
memmove_lem_example = memmove_lem 12 10 4 bytes (omega arith) (omega arith) 13
