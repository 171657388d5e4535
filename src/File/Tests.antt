-- ===== src/File/Tests.antt =====
-- A table of two files, and a disk that counts the bytes written.
use tp2_so.Base.{ℕ, ◌+◌, ◌≡◌, refl, some, List, [], ◌∷◌, arith, minus_one}
use tp2_so.File.{File, fd_none, fd_inode, Inodes, filewrite}
use tp2_so.File.Counts.{Open}
use tp2_so.File.Chunks.{Ended, filewrite_lem}
use tp2_so.File.{write_chunks, write_chunk}
use tp2_so.Base.{ltb, if◌then◌else◌}

abbrev closed : File
closed = record { type = fd_none; ref = 0; readable = 0; writable = 0; pipe = 0; ip = 0; off = 0 }

abbrev empty : Open
empty = record { files = closed ∷ closed ∷ []; owners = [] }

-- File 0 once it has been opened for reading, on inode 7.
abbrev opened : ℕ → File
opened refs = record {
  type = fd_inode;
  ref = refs;
  readable = 1;
  writable = 0;
  pipe = 0;
  ip = 7;
  off = 0;
}

abbrev with_refs : ℕ → List ℕ → Open
with_refs refs owners = record { files = opened refs ∷ closed ∷ []; owners = owners }

abbrev disk : Inodes ℕ
disk = record {
  begin_op = λ s. s;
  end_op = λ s. s;
  ilock = λ ip s. s;
  iunlock = λ ip s. s;
  stati = λ ip s. s;
  readi = λ ip addr off n s. (n, s);
  writei = λ ip addr off n s. (n, s + n);
  piperead = λ p addr n s. (n, s);
  pipewrite = λ p addr n s. (n, s);
}

abbrev notes : File
notes = record closed { type = fd_inode; ref = 1; writable = 1; ip = 3; off = 100 }

filewrite_lem_example : Ended disk notes 0 5000 0 0 (filewrite disk 5001 notes 0 5000 0)
filewrite_lem_example =
    filewrite_lem disk notes 0 5000 5001 0 (omega arith) (omega arith) (omega arith) refl
      (λ e. absurd (omega (arith, e)))

-- A disk that refuses every write after 2000 bytes, at the round from 1536 on.
abbrev full_disk : Inodes ℕ
full_disk = record disk {
  writei = λ ip addr off n s. (if ltb 2000 (s + n) then minus_one else n, s + n);
}

stops :
    filewrite full_disk 5001 notes 0 5000 0
    ≡ some (some (minus_one, record notes { off = 1636 }, 3072))
unfolding filewrite write_chunks write_chunk
stops = refl
