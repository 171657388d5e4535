-- ===== src/Sysfile/Create.antt =====
-- xv6-public/sysfile.c and pipe.c: the calls that make files, directories, devices and pipes, and
-- `sys_chdir`.
use tp2_so.Base.{
  ℕ, ◌/◌, ◌%◌, Bool, not, Option, none, some, List, ◌==◌, ◌&&◌, ◌||◌, if◌then◌else◌, slt, modify,
}
use tp2_so.File.{File, fd_inode, fd_pipe}
use tp2_so.Fs.{Fs, M, pure, panics, gets, alter, if_none, ◌>>=◌, ◌>>◌}
use tp2_so.Fs.Inodes.{inode_at, change, iupdate, ialloc, ilock, iunlock, iput, iunlockput}
use tp2_so.Fs.Content.{Devices, t_dir, t_file, t_dev}
use tp2_so.Fs.Names.{dirlookup, dirlink, namei, nameiparent}
use tp2_so.Sysfile.{
  begin_op, end_op, fdalloc, set_fd, alloc_file, close_file, add_link, dot, dotdot, fail,
}

-- `omode & O_CREATE`, `O_WRONLY` and `O_RDWR`
abbrev pub o_create : ℕ → Bool
o_create omode = not (omode / 512 % 2 == 0)

abbrev pub o_wronly : ℕ → Bool
o_wronly omode = not (omode % 2 == 0)

abbrev pub o_rdwr : ℕ → Bool
o_rdwr omode = not (omode / 2 % 2 == 0)

-- `f->type = FD_INODE` and on.
abbrev pub opened : ℕ → ℕ → File → File
opened ip omode f = record f {
  type = fd_inode;
  ip = ip;
  off = 0;
  readable = if o_wronly omode then 0 else 1;
  writable = if o_wronly omode || o_rdwr omode then 1 else 0;
}

unfoldable pub set_file : ℕ → (File → File) → Fs → Fs
set_file f change s = record s { files = modify s.files f change }

unfoldable pub set_cwd : ℕ → Fs → Fs
set_cwd ip s = record s { cwd = ip }

module _ (devsw : Devices) where
  -- The part of `create` for a name that is there, and the two for a new one.
  unfoldable pub create_old : ℕ → ℕ → ℕ → M (Option ℕ)
  unfolding iunlockput ilock inode_at ◌>>=◌
  create_old dp ip type = do
    iunlockput dp
    ilock ip
    i ← inode_at ip
    if type == t_file && i.type == t_file then pure (some ip) else (do iunlockput ip; pure none)

  unfoldable pub create_dots : ℕ → ℕ → M (Unit {0})
  unfolding change iupdate inode_at dirlink ◌>>=◌
  create_dots dp ip = do
    change dp add_link
    iupdate dp
    i ← inode_at ip
    r ← dirlink devsw ip dot i.inum
    d ← inode_at dp
    q ← (if slt r 0 then pure r else dirlink devsw ip dotdot d.inum)
    if slt q 0 then panics else pure tt

  unfoldable pub create_new : ℕ → List ℕ → ℕ → ℕ → ℕ → M (Option ℕ)
  unfolding inode_at ialloc ilock change iupdate create_dots dirlink iunlockput ◌>>=◌
  create_new dp name type major minor = do
    d ← inode_at dp
    ip ← ialloc d.dev type
    ilock ip
    change ip (λ i. record i { major = major; minor = minor; nlink = 1 })
    iupdate ip
    if type == t_dir then create_dots dp ip else pure tt
    i ← inode_at ip
    r ← dirlink devsw dp name i.inum
    if slt r 0 then panics else pure tt
    iunlockput dp
    pure (some ip)

  unfoldable pub create : List ℕ → ℕ → ℕ → ℕ → M (Option ℕ)
  unfolding nameiparent ilock dirlookup create_old create_new ◌>>=◌
  create path type major minor = do
    found ← nameiparent devsw path
    if_none found (pure none) λ p. do
      ilock p.0
      entry ← dirlookup devsw p.0 p.1
      if_none entry (create_new p.0 p.1 type major minor) λ e. create_old p.0 e.0 type

  -- The inode of `sys_open`, locked, or none.
  unfoldable pub open_inode : List ℕ → ℕ → M (Option ℕ)
  unfolding create namei ilock inode_at iunlockput ◌>>=◌
  open_inode path omode = if o_create omode then create path t_file 0 0 else (do
    found ← namei devsw path
    if_none found (pure none) λ ip. do
      ilock ip
      i ← inode_at ip
      if i.type == t_dir && not (omode == 0) then (do iunlockput ip; pure none) else pure (some ip))

  unfoldable pub open_fails : ℕ → M ℕ
  unfolding iunlockput end_op ◌>>=◌
  open_fails ip = do iunlockput ip; end_op; fail

  unfoldable pub sys_open : Option (List ℕ) → Option ℕ → M ℕ
  unfolding begin_op end_op open_inode alloc_file fdalloc close_file open_fails iunlock set_file
      ◌>>=◌
  sys_open path omode = if_none path fail λ text. if_none omode fail λ mode. do
    begin_op
    found ← open_inode text mode
    if_none found (do end_op; fail)
        λ ip. do
          file ← alloc_file
          if_none file (open_fails ip) λ f. do
            new ← fdalloc f
            if_none new (do close_file f; open_fails ip)
                λ fd. do iunlock ip; end_op; alter (set_file f (opened ip mode)); pure fd

  -- From the `if` of `sys_mkdir` and `sys_mknod` on.
  unfoldable pub made : Option ℕ → M ℕ
  unfolding iunlockput end_op ◌>>=◌
  made ip = if_none ip (do end_op; fail) λ i. do iunlockput i; end_op; pure 0

  unfoldable pub sys_mkdir : Option (List ℕ) → M ℕ
  unfolding begin_op create made ◌>>=◌
  sys_mkdir path = do begin_op; ip ← if_none path (pure none) λ text. create text t_dir 0 0; made ip

  -- `major` and `minor` become `short`s.
  unfoldable pub sys_mknod : Option (List ℕ) → Option ℕ → Option ℕ → M ℕ
  unfolding begin_op create made ◌>>=◌
  sys_mknod path major minor = do
    begin_op
    ip ← if_none path (pure none) λ text.
        if_none major (pure none)
          λ a. if_none minor (pure none) λ b. create text t_dev (a % 65536) (b % 65536)
    made ip

  unfoldable pub sys_chdir : Option (List ℕ) → M ℕ
  unfolding begin_op end_op namei ilock iunlock iput iunlockput inode_at set_cwd ◌>>=◌
  sys_chdir path = do
    begin_op
    found ← if_none path (pure none) λ text. namei devsw text
    if_none found (do end_op; fail)
        λ ip. do
          ilock ip
          i ← inode_at ip
          if not (i.type == t_dir) then (do iunlockput ip; end_op; fail) else (do
            iunlock ip
            cwd ← gets (λ s. s.cwd)
            iput cwd
            end_op
            alter (set_cwd ip)
            pure 0)

-- `*f` of an end of a new pipe.
abbrev pub pipe_end : ℕ → ℕ → ℕ → File → File
pipe_end p readable writable f = record f {
  type = fd_pipe;
  readable = readable;
  writable = writable;
  pipe = p;
}

-- `pipealloc`, `page` being what `kalloc` gives, a null pointer or the new pipe's page.
unfoldable pub pipealloc : Option ℕ → M (Option (ℕ × ℕ))
unfolding alloc_file close_file set_file ◌>>=◌
pipealloc page = do
  first ← alloc_file
  if_none first (pure none) λ f0. do
    second ← alloc_file
    if_none second (do close_file f0; pure none)
        λ f1.
          if_none page (do close_file f0; close_file f1; pure none)
            λ p. do
              alter (set_file f0 (pipe_end p 1 0))
              alter (set_file f1 (pipe_end p 0 1))
              pure (some (f0, f1))

-- `sys_pipe`: what it stores in the array of the caller, `array` saying that `argptr` found it.
unfoldable pub sys_pipe : Bool → Option ℕ → M (Option (ℕ × ℕ))
unfolding pipealloc fdalloc set_fd close_file ◌>>=◌
sys_pipe array page = if not array then pure none else (do
  made ← pipealloc page
  if_none made (pure none) λ p. do
    first ← fdalloc p.0
    if_none first (do close_file p.0; close_file p.1; pure none)
        λ fd0. do
          second ← fdalloc p.1
          if_none second (do alter (set_fd fd0 none); close_file p.0; close_file p.1; pure none)
              (λ fd1. pure (some (fd0, fd1))))
