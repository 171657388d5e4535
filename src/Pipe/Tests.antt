-- ===== src/Pipe/Tests.antt =====
-- The calls of pipe.c on a pipe that holds two bytes, just before its counters wrap around.
use tp2_so.Base.{◌≡◌, ◌++◌, refl, false, [], ◌∷◌, replicate, set, arith}
use tp2_so.Pipe.{Pipe, pipewrite, piperead, copy_out, put, pipe_init, done}
use tp2_so.Pipe.Ring.{IsValid, contents}
use tp2_so.Pipe.Stream.{History, writes, reads, Turns, here, next, pipe_in_order}

abbrev fresh : Pipe
fresh = pipe_init (replicate 512 1)

-- Its two bytes are in the last cell and the first.
abbrev two_bytes : Pipe
two_bytes = record {
  bytes = set (set (replicate 512 1) 511 7) 0 8;
  nread = 0xffff_ffff;
  nwrite = 1;
  readopen = 1;
  writeopen = 1;
}

fresh-IsValid : IsValid fresh
unfolding pipe_init
fresh-IsValid = record {
  storage = refl;
  read_in = omega arith;
  write_in = omega arith;
  fits = omega arith;
}

two_bytes-IsValid : IsValid two_bytes
two_bytes-IsValid = record {
  storage = refl;
  read_in = omega arith;
  write_in = omega arith;
  fits = omega arith;
}

two_bytes_there : contents two_bytes ≡ 7 ∷ 8 ∷ []
two_bytes_there = refl

abbrev three_bytes : Pipe
three_bytes = record two_bytes { bytes = set two_bytes.bytes 1 9; nwrite = 2 }

abbrev holding_two : History
holding_two = record { pipe = put 8 (put 7 fresh); written = 7 ∷ 8 ∷ []; received = [] }

abbrev one_left : History
one_left = record holding_two {
  pipe = record (put 8 (put 7 fresh)) { nread = 1 };
  received = 7 ∷ [];
}

session : Turns (record { pipe = fresh; written = []; received = [] }) one_left
unfolding pipewrite piperead copy_out put pipe_init
session =
    next (next here (writes false (7 ∷ 8 ∷ []) [] (put 8 (put 7 fresh)) done refl))
      (reads false 1 (7 ∷ []) _ refl)

pipe_in_order_example :
    (one_left.written ≡ one_left.received ++ contents one_left.pipe) × IsValid one_left.pipe
unfolding pipe_init
pipe_in_order_example = pipe_in_order fresh-IsValid refl refl refl session
