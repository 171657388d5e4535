-- ===== src/Sysfile.antt =====
-- xv6-public/sysfile.c: the system calls on files and names, as actions on the state of the file
-- system. What `argstr`, `argint` and `argptr` gave is an argument of each call, `none` being their -1.
-- `begin_op` and `end_op` count the transactions of the process; log.c is modelled apart.

pub mod Tests
pub mod Balanced
pub mod Unlink
pub mod Create
use tp2_so.Base.{
  ℕ, zero, suc, ◌+◌, ◌-◌, ◌*◌, ◌/◌, ◌%◌, Bool, true, false, not, Option, none, some, List, [], ◌∷◌,
  ◌==◌, ◌&&◌, ◌||◌, if◌then◌else◌, ltb, slt, add32, sub32, minus_one, get_elem?, get_or, set,
  modify, find_index, replicate, length,
}
use tp2_so.File.{
  File, FileType, fd_none, fd_pipe, fd_inode, Last, nothing, pipeclose, filealloc, filedup,
  fileclose, Inodes, fileread, filewrite, filestat,
}
use tp2_so.File
use tp2_so.Fs.{
  Inode, Fs, M, Run, ok, panic, no_fuel, pure, panics, gets, alter, if_none, ◌>>=◌, ◌>>◌, dirsiz,
}
use tp2_so.Fs.Inodes.{inode_at, change, iupdate, ialloc, ilock, iunlock, iput, iunlockput}
use tp2_so.Fs.Content.{Devices, t_dir, t_file, t_dev}
use tp2_so.Fs.Names.{
  namecmp, dirent_size, entry_inum, read_entry, write_entry, dirlookup, dirlink, namei, nameiparent,
}

abbrev pub nofile : ℕ
nofile = 16

unfoldable pub begin_op : M (Unit {0})
begin_op s = ok tt (record s { ops = s.ops + 1 })

unfoldable pub end_op : M (Unit {0})
end_op s = ok tt (record s { ops = s.ops - 1 })

-- `argfd`: the descriptor and the open file. `fd` is the pattern of an `int`.
unfoldable pub argfd : Option ℕ → Fs → Option (ℕ × ℕ)
argfd none s = none
argfd (some fd) s =
    if ltb fd nofile
    then elim (get_or s.ofile fd none) [ none ↦ none | some f ↦ some (fd, f) ]
    else none

abbrev pub is_free : Option ℕ → Bool
is_free none = true
is_free (some f) = false

unfoldable pub set_fd : ℕ → Option ℕ → Fs → Fs
set_fd fd f s = record s { ofile = set s.ofile fd f }

unfoldable pub fdalloc : ℕ → M (Option ℕ)
unfolding set_fd
fdalloc f s = elim (find_index is_free s.ofile) [
  | none ↦ ok none s
  | some fd ↦ ok (some fd) (set_fd fd (some f) s)
]

-- `filealloc`, `filedup` and `fileclose` of file.c on this state.
unfoldable pub alloc_file : M (Option ℕ)
unfolding filealloc
alloc_file s = let (f, files) = filealloc s.files in ok f (record s { files = files })

unfoldable pub dup_file : ℕ → M (Unit {0})
unfolding filedup
dup_file f s = elim (filedup f s.files) [
  | none ↦ panic
  | some files ↦ ok tt (record s { files = files })
]

-- The end of `fileclose`. The close of a pipe concerns pipe.c alone.
unfoldable pub close_last : Last → M (Unit {0})
unfolding begin_op end_op iput ◌>>=◌
close_last nothing = pure tt
close_last (pipeclose p w) = pure tt
close_last (File.iput ip) = do begin_op; iput ip; end_op

unfoldable pub drop_file : ℕ → M Last
unfolding fileclose
drop_file f s = elim (fileclose f s.files) [
  | none ↦ panic
  | some p ↦ ok p.0 (record s { files = p.1 })
]

unfoldable pub close_file : ℕ → M (Unit {0})
unfolding drop_file close_last ◌>>=◌
close_file f = drop_file f >>= close_last

unfoldable pub sys_dup : Option ℕ → M ℕ
unfolding argfd fdalloc dup_file ◌>>=◌
sys_dup fd = do
  a ← gets (argfd fd)
  if_none a (pure minus_one)
      λ p. do new ← fdalloc p.1; if_none new (pure minus_one) λ n. do dup_file p.1; pure n

unfoldable pub sys_close : Option ℕ → M ℕ
unfolding argfd set_fd close_file ◌>>=◌
sys_close fd = do
  a ← gets (argfd fd)
  if_none a (pure minus_one) λ p. do alter (set_fd p.0 none); close_file p.1; pure 0

-- `sys_read`, `sys_write` and `sys_fstat`, once the arguments are fetched.
module _ {S : Type 0} (io : Inodes S) where
  unfoldable pub sys_read : Option File → Option ℕ → Option ℕ → S → Option (ℕ × Option File × S)
  unfolding fileread
  sys_read (some f) (some n) (some p) s = elim (fileread io f p n s) [
    | none ↦ none
    | some r ↦ some (r.0, some r.1, r.2)
  ]
  sys_read f n p s = some (minus_one, f, s)

  -- The outer `none` says that the fuel ran out, the inner is the panic.
  unfoldable pub sys_write :
      ℕ → Option File → Option ℕ → Option ℕ → S → Option (Option (ℕ × Option File × S))
  unfolding filewrite
  sys_write fuel (some f) (some n) (some p) s = elim (filewrite io fuel f p n s) [
    | none ↦ none
    | some none ↦ some none
    | some (some r) ↦ some (some (r.0, some r.1, r.2))
  ]
  sys_write fuel f n p s = some (some (minus_one, f, s))

  unfoldable pub sys_fstat : Option File → Option ℕ → S → ℕ × S
  unfolding filestat
  sys_fstat (some f) (some st) s = filestat io f s
  sys_fstat f st s = (minus_one, s)

-- `nlink` is a `short`.
abbrev pub add_link : Inode → Inode
add_link i = record i { nlink = (i.nlink + 1) % 65536 }

abbrev pub drop_link : Inode → Inode
drop_link i = record i { nlink = (i.nlink + 65535) % 65536 }

abbrev pub dot : List ℕ
dot = 46 ∷ []

abbrev pub dotdot : List ℕ
dotdot = 46 ∷ 46 ∷ []

abbrev pub fail : M ℕ
fail = pure minus_one

module _ (devsw : Devices) where
  -- From `bad` on in `sys_link`.
  unfoldable pub unlink_back : ℕ → M ℕ
  unfolding ilock change iupdate iunlockput end_op ◌>>=◌
  unlink_back ip = do ilock ip; change ip drop_link; iupdate ip; iunlockput ip; end_op; fail

  -- The second half of `sys_link`, with `ip->nlink` counted up.
  unfoldable pub link_into : ℕ → List ℕ → M ℕ
  unfolding unlink_back nameiparent ilock dirlink iunlockput iput end_op inode_at ◌>>=◌
  link_into ip new = do
    found ← nameiparent devsw new
    if_none found (unlink_back ip) λ p. do
      ilock p.0
      d ← inode_at p.0
      i ← inode_at ip
      r ← (if d.dev == i.dev then dirlink devsw p.0 p.1 i.inum else fail)
      if slt r 0
          then (do iunlockput p.0; unlink_back ip)
          else (do iunlockput p.0; iput ip; end_op; pure 0)

  unfoldable pub sys_link : Option (List ℕ) → Option (List ℕ) → M ℕ
  unfolding begin_op end_op namei ilock iunlock iunlockput change iupdate link_into inode_at ◌>>=◌
  sys_link none new = fail
  sys_link (some old) none = fail
  sys_link (some old) (some new) = do
    begin_op
    found ← namei devsw old
    if_none found (do end_op; fail)
        λ ip. do
          ilock ip
          i ← inode_at ip
          if i.type == t_dir
              then (do iunlockput ip; end_op; fail)
              else (do change ip add_link; iupdate ip; iunlock ip; link_into ip new)

  -- The body of the loop of `isdirempty` at `off`, and the loop.
  unfoldable pub empty_from : ℕ → ℕ → M Bool → M Bool
  unfolding read_entry inode_at ◌>>=◌
  empty_from dp off next = do
    i ← inode_at dp
    if ltb off i.size
        then (do de ← read_entry devsw dp off; if entry_inum de == 0 then next else pure false)
        else pure true

  unfoldable pub empty_loop : ℕ → ℕ → ℕ → M Bool
  unfolding empty_from
  empty_loop dp zero off = no_fuel
  empty_loop dp (suc fuel) off = empty_from dp off (empty_loop dp fuel (add32 off dirent_size))

  unfoldable pub isdirempty : ℕ → M Bool
  unfolding empty_loop inode_at ◌>>=◌
  isdirempty dp = do i ← inode_at dp; empty_loop dp (i.size / dirent_size + 2) (2 * dirent_size)
