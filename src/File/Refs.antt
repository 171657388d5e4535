-- ===== src/File/Refs.antt =====
-- The reference counts of file.c, and what `fileclose` does.
use tp2_so.Base.{ℕ, ◌≡◌, ◌≢◌, Bool, true, false, sub32}
use tp2_so.File.{File, Last, nothing, pipeclose, iput, fd_none, fd_pipe, fd_inode}

-- `fileclose` by a holder: the last one has the file closed and frees the slot.
abbrev after_close : Bool → File → File
after_close true g = record g { ref = 0; type = fd_none }
after_close false g = record g { ref = sub32 g.ref 1 }

-- What becomes of the file `o`, with `refs` references, when a holder closes it.
pub record Closed (refs : ℕ) (o : File) (l : Last) : Type 0 where
  pub not_last : refs ≢ 1 → l ≡ nothing
  pub last_pipe : refs ≡ 1 → o.type ≡ fd_pipe → l ≡ pipeclose o.pipe o.writable
  pub last_inode : refs ≡ 1 → o.type ≡ fd_inode → l ≡ iput o.ip
  pub last_none : refs ≡ 1 → o.type ≡ fd_none → l ≡ nothing
