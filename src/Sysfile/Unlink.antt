-- ===== src/Sysfile/Unlink.antt =====
-- xv6-public/sysfile.c: `sys_unlink`.
use tp2_so.Base.{ℕ, true, not, Option, List, ◌==◌, ◌&&◌, ◌||◌, if◌then◌else◌, ltb, replicate}
use tp2_so.Fs.{M, pure, panics, if_none, ◌>>=◌, ◌>>◌}
use tp2_so.Fs.Inodes.{inode_at, change, iupdate, ilock, iunlockput}
use tp2_so.Fs.Content.{Devices, t_dir}
use tp2_so.Fs.Names.{namecmp, dirent_size, write_entry, dirlookup, nameiparent}
use tp2_so.Sysfile.{begin_op, end_op, drop_link, dot, dotdot, fail, isdirempty}

module _ (devsw : Devices) where
  -- From `bad` on.
  unfoldable pub unlink_fails : ℕ → M ℕ
  unfolding iunlockput end_op ◌>>=◌
  unlink_fails dp = do iunlockput dp; end_op; fail

  -- From the write of the empty entry on.
  unfoldable pub unlink_entry : ℕ → ℕ → ℕ → M ℕ
  unfolding write_entry inode_at change iupdate iunlockput end_op ◌>>=◌
  unlink_entry dp ip off = do
    write_entry devsw dp off (replicate dirent_size 0)
    i ← inode_at ip
    if i.type == t_dir then (do change dp drop_link; iupdate dp) else pure tt
    iunlockput dp
    change ip drop_link
    iupdate ip
    iunlockput ip
    end_op
    pure 0

  -- From `ilock(ip)` on.
  unfoldable pub unlink_found : ℕ → ℕ → ℕ → M ℕ
  unfolding unlink_fails unlink_entry isdirempty ilock inode_at iunlockput ◌>>=◌
  unlink_found dp ip off = do
    ilock ip
    i ← inode_at ip
    if i.nlink == 0 || not (ltb i.nlink 32768) then panics else pure tt
    empty ← (if i.type == t_dir then isdirempty devsw ip else pure true)
    if i.type == t_dir && not empty
        then (do iunlockput ip; unlink_fails dp)
        else unlink_entry dp ip off

  unfoldable pub sys_unlink : Option (List ℕ) → M ℕ
  unfolding begin_op end_op nameiparent ilock namecmp dirlookup unlink_found unlink_fails ◌>>=◌
  sys_unlink path = if_none path fail λ text. do
    begin_op
    found ← nameiparent devsw text
    if_none found (do end_op; fail)
        λ p. do
          ilock p.0
          if namecmp p.1 dot == 0 || namecmp p.1 dotdot == 0 then unlink_fails p.0 else (do
            entry ← dirlookup devsw p.0 p.1
            if_none entry (unlink_fails p.0) λ e. unlink_found p.0 e.0 e.1)
