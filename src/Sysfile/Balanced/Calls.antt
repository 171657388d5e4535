-- ===== src/Sysfile/Balanced/Calls.antt =====
-- xv6-public/sysfile.c: the system calls, one after the other.
use tp2_so.Base.{ℕ, zero, suc, Bool, Option, none, some, List, ◌≡◌, refl, subst, occurs}
use tp2_so.Fs.{Block, Fs, M, ok}
use tp2_so.Fs.Keeps.{After, Keeps, Keeps-no_fuel}
use tp2_so.Fs.Content.{Devices}
use tp2_so.Fs.Closed.Inodes.{Keeps-ialloc, Keeps-ilock, Keeps-iunlock, Keeps-iput, Keeps-iunlockput}
use tp2_so.Fs.Closed.Names.{
  Keeps-dirlookup, Keeps-dirlink, Keeps-write_entry, Keeps-read_entry, Keeps-namei,
  Keeps-nameiparent,
}
use tp2_so.Sysfile.{
  sys_dup, sys_close, unlink_back, link_into, sys_link, empty_from, empty_loop, isdirempty,
}
use tp2_so.Sysfile.Unlink.{unlink_fails, unlink_entry, unlink_found, sys_unlink}
use tp2_so.Sysfile.Create.{
  create_old, create_dots, create_new, create, open_inode, open_fails, sys_open, made, sys_mkdir,
  sys_mknod, sys_chdir,
}
use tp2_so.Sysfile.Balanced.{Within, Within-IsClosed, Ends, call_rules, Keeps-close_file}

pub ruleset fs_rules = (
  call_rules, Keeps-ialloc, Keeps-ilock, Keeps-iunlock, Keeps-iput, Keeps-iunlockput,
  Keeps-dirlookup, Keeps-dirlink, Keeps-write_entry, Keeps-read_entry, Keeps-namei,
  Keeps-nameiparent, Keeps-close_file,
)

module _ {d : ℕ → Block} {n : ℕ} (devsw : Devices) where
  Keeps-sys_dup : (fd : Option ℕ) → Keeps (Within d n) (sys_dup fd)
  unfolding sys_dup
  Keeps-sys_dup fd = search fs_rules depth 14

  Keeps-sys_close : (fd : Option ℕ) → Keeps (Within d n) (sys_close fd)
  unfolding sys_close
  Keeps-sys_close fd = search fs_rules depth 14

  Ends-unlink_back : (ip : ℕ) → Ends d n (unlink_back devsw ip)
  unfolding unlink_back
  Ends-unlink_back ip = search fs_rules depth 16

  Ends-link_into : (ip : ℕ) (new : List ℕ) → Ends d n (link_into devsw ip new)
  unfolding link_into
  Ends-link_into ip new = search (fs_rules, Ends-unlink_back) depth 20

  Keeps-sys_link : (old new : Option (List ℕ)) → Keeps (Within d n) (sys_link devsw old new)
  unfolding sys_link
  Keeps-sys_link none new = search fs_rules
  Keeps-sys_link (some old) none = search fs_rules
  Keeps-sys_link (some old) (some new) = search (fs_rules, Ends-link_into) depth 20

  Keeps-empty_from :
      (dp off : ℕ) (next : M Bool)
      → Keeps (Within d n) next
      → Keeps (Within d n) (empty_from devsw dp off next)
  unfolding empty_from
  Keeps-empty_from dp off next k = search fs_rules depth 14

  Keeps-empty_loop : (dp fuel off : ℕ) → Keeps (Within d n) (empty_loop devsw dp fuel off)
  unfolding empty_loop
  Keeps-empty_loop dp zero off = Keeps-no_fuel
  Keeps-empty_loop dp (suc fuel) off = Keeps-empty_from dp off _ (Keeps-empty_loop dp fuel _)

  Keeps-isdirempty : (dp : ℕ) → Keeps (Within d n) (isdirempty devsw dp)
  unfolding isdirempty
  Keeps-isdirempty dp = search (fs_rules, Keeps-empty_loop) depth 14

module _ {d : ℕ → Block} {n : ℕ} (devsw : Devices) where
  Ends-unlink_fails : (dp : ℕ) → Ends d n (unlink_fails devsw dp)
  unfolding unlink_fails
  Ends-unlink_fails dp = search fs_rules depth 14

  Ends-unlink_entry : (dp ip off : ℕ) → Ends d n (unlink_entry devsw dp ip off)
  unfolding unlink_entry
  Ends-unlink_entry dp ip off = search fs_rules depth 20

  Ends-unlink_found : (dp ip off : ℕ) → Ends d n (unlink_found devsw dp ip off)
  unfolding unlink_found
  Ends-unlink_found dp ip off =
      search (fs_rules, Ends-unlink_entry, Ends-unlink_fails, Keeps-isdirempty) depth 20

  Keeps-sys_unlink : (path : Option (List ℕ)) → Keeps (Within d n) (sys_unlink devsw path)
  unfolding sys_unlink
  Keeps-sys_unlink path = search (fs_rules, Ends-unlink_found, Ends-unlink_fails) depth 24

  Keeps-create_old : (dp ip type : ℕ) → Keeps (Within d n) (create_old devsw dp ip type)
  unfolding create_old
  Keeps-create_old dp ip type = search fs_rules depth 16

  Keeps-create_dots : (dp ip : ℕ) → Keeps (Within d n) (create_dots devsw dp ip)
  unfolding create_dots
  Keeps-create_dots dp ip = search fs_rules depth 20

  Keeps-create_new :
      (dp : ℕ) (name : List ℕ) (type major minor : ℕ)
      → Keeps (Within d n) (create_new devsw dp name type major minor)
  unfolding create_new
  Keeps-create_new dp name type major minor = search (fs_rules, Keeps-create_dots) depth 24

  Keeps-create :
      (path : List ℕ) (type major minor : ℕ)
      → Keeps (Within d n) (create devsw path type major minor)
  unfolding create
  Keeps-create path type major minor =
      search (fs_rules, Keeps-create_new, Keeps-create_old) depth 20

  Keeps-open_inode : (path : List ℕ) (omode : ℕ) → Keeps (Within d n) (open_inode devsw path omode)
  unfolding open_inode
  Keeps-open_inode path omode = search (fs_rules, Keeps-create) depth 20

  Ends-open_fails : (ip : ℕ) → Ends d n (open_fails devsw ip)
  unfolding open_fails
  Ends-open_fails ip = search fs_rules depth 14

  Keeps-sys_open :
      (path : Option (List ℕ)) (omode : Option ℕ) → Keeps (Within d n) (sys_open devsw path omode)
  unfolding sys_open
  Keeps-sys_open path omode = search (fs_rules, Ends-open_fails) depth 24

  Ends-made : (ip : Option ℕ) → Ends d n (made devsw ip)
  unfolding made
  Ends-made ip = search fs_rules depth 14

  Keeps-sys_mkdir : (path : Option (List ℕ)) → Keeps (Within d n) (sys_mkdir devsw path)
  unfolding sys_mkdir
  Keeps-sys_mkdir path = search (fs_rules, Ends-made) depth 24

  Keeps-sys_mknod :
      (path : Option (List ℕ)) (major minor : Option ℕ)
      → Keeps (Within d n) (sys_mknod devsw path major minor)
  unfolding sys_mknod
  Keeps-sys_mknod path major minor = search (fs_rules, Ends-made) depth 26

  Keeps-sys_chdir : (path : Option (List ℕ)) → Keeps (Within d n) (sys_chdir devsw path)
  unfolding sys_chdir
  Keeps-sys_chdir path = search fs_rules depth 24

-- The calls, with what was fetched for them.
pub data FileCall : Type 0 where
  dup close : Option ℕ → FileCall
  link : Option (List ℕ) → Option (List ℕ) → FileCall
  unlink mkdir chdir : Option (List ℕ) → FileCall
  opens : Option (List ℕ) → Option ℕ → FileCall
  mknod : Option (List ℕ) → Option ℕ → Option ℕ → FileCall

abbrev pub call : Devices → FileCall → M ℕ
call devsw (dup fd) = sys_dup fd
call devsw (close fd) = sys_close fd
call devsw (link old new) = sys_link devsw old new
call devsw (unlink path) = sys_unlink devsw path
call devsw (mkdir path) = sys_mkdir devsw path
call devsw (chdir path) = sys_chdir devsw path
call devsw (opens path omode) = sys_open devsw path omode
call devsw (mknod path major minor) = sys_mknod devsw path major minor

Keeps-call :
    {d : ℕ → Block} {n : ℕ} (devsw : Devices) (c : FileCall) → Keeps (Within d n) (call devsw c)
Keeps-call devsw (dup fd) = Keeps-sys_dup devsw fd
Keeps-call devsw (close fd) = Keeps-sys_close devsw fd
Keeps-call devsw (link old new) = Keeps-sys_link devsw old new
Keeps-call devsw (unlink path) = Keeps-sys_unlink devsw path
Keeps-call devsw (mkdir path) = Keeps-sys_mkdir devsw path
Keeps-call devsw (chdir path) = Keeps-sys_chdir devsw path
Keeps-call devsw (opens path omode) = Keeps-sys_open devsw path omode
Keeps-call devsw (mknod path major minor) = Keeps-sys_mknod devsw path major minor

-- Whenever sys_dup, sys_close, sys_link, sys_unlink, sys_open, sys_mkdir, sys_mknod or sys_chdir
-- returns, with success or an error, every transaction that it began has ended, and every block of
-- the disk that was given to `log_write` neither before nor by the call is as it was.
pub calls_log :
    (devsw : Devices) (c : FileCall) (s t : Fs) (r : ℕ)
    → call devsw c s ≡ ok r t
    → (t.ops ≡ s.ops) × ((b i : ℕ) → occurs b t.logged ≡ 0 → t.blocks b i ≡ s.blocks b i)
calls_log devsw c s t r e =
    let first : Within s.blocks s.ops s = record { same = λ b i o. refl; open_ops = refl } in
    let last = subst (After (Within s.blocks s.ops)) e ((Keeps-call devsw c).at s first).after in
    (last.open_ops, last.same)
