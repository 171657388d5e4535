-- ===== src/File.antt =====
-- xv6-public/file.c: the table of open files, with a count of the references to each entry, and the
-- reads and writes through an entry. An entry is the index of its slot.
pub mod Counts
pub mod Refs
pub mod Chunks
pub mod Tests
use tp2_so.Base.{
  ℕ, zero, suc, ◌+◌, ◌-◌, ◌*◌, ◌/◌, Bool, true, false, not, Option, none, some, List, ◌==◌,
  if◌then◌else◌, ltb, get_elem?, modify, find_index, add32, sub32, slt, minus_one,
}

pub data FileType : Type 0 where
  fd_none fd_pipe fd_inode : FileType

-- `struct file`
pub record File : Type 0 where
  pub type : FileType
  pub ref : ℕ
  pub readable : ℕ
  pub writable : ℕ
  pub pipe : ℕ
  pub ip : ℕ
  pub off : ℕ

unfoldable pub filealloc : List File → Option ℕ × List File
filealloc fs = elim (find_index (λ f. f.ref == 0) fs) [
  | none ↦ (none, fs)
  | some i ↦ (some i, modify fs i (λ f. record f { ref = 1 }))
]

-- `none` is the panic, here and below. There is no file out of range.
unfoldable pub filedup : ℕ → List File → Option (List File)
filedup i fs = elim (get_elem? fs i) [
  | none ↦ none
  | some f ↦
      if slt f.ref 1 then none else some (modify fs i (λ g. record g { ref = add32 g.ref 1 }))
]

-- What `fileclose` does after it has released the lock: nothing, or the close of the pipe (with its
-- `writable`), or `iput` inside a transaction.
pub data Last : Type 0 where
  nothing : Last
  pipeclose : ℕ → ℕ → Last
  iput : ℕ → Last

abbrev pub last_of : File → Last
last_of f = elim f.type [
  | fd_none ↦ nothing
  | fd_pipe ↦ pipeclose f.pipe f.writable
  | fd_inode ↦ iput f.ip
]

unfoldable pub fileclose : ℕ → List File → Option (Last × List File)
fileclose i fs = elim (get_elem? fs i) [
  | none ↦ none
  | some f ↦
      if slt f.ref 1
      then none
      else if slt 0 (sub32 f.ref 1)
      then some (nothing, modify fs i (λ g. record g { ref = sub32 g.ref 1 }))
      else some (last_of f, modify fs i (λ g. record g { ref = 0; type = fd_none }))
]

-- The calls that reads and writes make, over the state `S` of the rest of the kernel. A call that
-- answers an `int` gives its pattern.
pub record Inodes (S : Type 0) : Type 0 where
  pub begin_op : S → S
  pub end_op : S → S
  pub ilock : ℕ → S → S
  pub iunlock : ℕ → S → S
  pub stati : ℕ → S → S
  pub readi : ℕ → ℕ → ℕ → ℕ → S → ℕ × S
  pub writei : ℕ → ℕ → ℕ → ℕ → S → ℕ × S
  pub piperead : ℕ → ℕ → ℕ → S → ℕ × S
  pub pipewrite : ℕ → ℕ → ℕ → S → ℕ × S

-- The most that `filewrite` writes in one transaction.
abbrev pub max_chunk : ℕ
max_chunk = ((10 - 1 - 1 - 2) / 2) * 512

-- `if((r = ...) > 0) f->off += r;`
abbrev pub advance : ℕ → File → File
advance r f = if slt 0 r then record f { off = add32 f.off r } else f

module _ {S : Type 0} (io : Inodes S) where
  unfoldable pub filestat : File → S → ℕ × S
  filestat f s = elim f.type [
    | fd_inode ↦ (0, io.iunlock f.ip (io.stati f.ip (io.ilock f.ip s)))
    | _ ↦ (minus_one, s)
  ]

  -- `none` is the panic.
  unfoldable pub fileread : File → ℕ → ℕ → S → Option (ℕ × File × S)
  fileread f addr n s = if f.readable == 0 then some (minus_one, f, s) else elim f.type [
    | fd_none ↦ none
    | fd_pipe ↦ let (r, s1) = io.piperead f.pipe addr n s in some (r, f, s1)
    | fd_inode ↦
        let (r, s1) = io.readi f.ip addr f.off n (io.ilock f.ip s) in
        some (r, advance r f, io.iunlock f.ip s1)
  ]

  -- One transaction of `filewrite`.
  unfoldable pub write_chunk : File → ℕ → ℕ → S → ℕ × File × S
  write_chunk f addr n1 s =
      let (r, s1) = io.writei f.ip addr f.off n1 (io.ilock f.ip (io.begin_op s)) in
      (r, advance r f, io.end_op (io.iunlock f.ip s1))

  -- The loop of `filewrite`, `i` bytes being written; `n` is not negative. The outer `none` says
  -- that the fuel ran out, the inner is the panic.
  unfoldable pub write_chunks : ℕ → ℕ → ℕ → ℕ → File → S → Option (Option (ℕ × File × S))
  unfolding write_chunk
  write_chunks zero addr i n f s = none
  write_chunks (suc fuel) addr i n f s = elim (ltb i n) [
    | false ↦ some (some ((if i == n then n else minus_one), f, s))
    | true ↦
        let n1 = if ltb max_chunk (n - i) then max_chunk else n - i in
        let (r, f1, s1) = write_chunk f (addr + i) n1 s in
        elim (slt r 0) [
          | true ↦ some (some ((if i == n then n else minus_one), f1, s1))
          | false ↦ elim (r == n1) [
            | false ↦ some none
            | true ↦ write_chunks fuel addr (i + r) n f1 s1
          ]
        ]
  ]

  unfoldable pub filewrite : ℕ → File → ℕ → ℕ → S → Option (Option (ℕ × File × S))
  unfolding write_chunks
  filewrite fuel f addr n s =
      if f.writable == 0 then some (some (minus_one, f, s)) else elim f.type [
        | fd_none ↦ some none
        | fd_pipe ↦ let (r, s1) = io.pipewrite f.pipe addr n s in some (some (r, f, s1))
        | fd_inode ↦ write_chunks fuel addr 0 n f s
      ]
