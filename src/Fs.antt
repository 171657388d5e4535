-- ===== src/Fs.antt =====
-- xv6-public/fs.c and fs.h: the file system, from blocks to path names. The disk is one, as the buffer
-- cache shows it: bytes by block number and place. A `struct inode *` is the index of a slot of the
-- inode cache. What `log_write` is given is kept as a list. The child modules are the layers of fs.c.
pub mod Bits
pub mod Words
pub mod Blocks
pub mod Inodes
pub mod Keeps
pub mod Closed
pub mod Bitmap
pub mod Steps
pub mod Bytes
pub mod Overwrite
pub mod Refine
pub mod Paths
pub mod Cache
pub mod Tests
pub mod Content
pub mod Names
use tp2_so.Base.{
  ℕ, Bool, true, false, Option, none, some, List, ◌∷◌, ◌==◌, if◌then◌else◌, ◌/◌, ◌+◌, ◌*◌,
}
use tp2_so.Bio.{SleepLock}
use tp2_so.File.{File}

abbrev pub bsize : ℕ
bsize = 512

abbrev pub ndirect : ℕ
ndirect = 12

abbrev pub nindirect : ℕ
nindirect = 512 / 4

abbrev pub maxfile : ℕ
maxfile = ndirect + nindirect

abbrev pub bpb : ℕ
bpb = bsize * 8

abbrev pub ipb : ℕ
ipb = 512 / 64

abbrev pub dirsiz : ℕ
dirsiz = 14

abbrev pub Block : Type 0
Block = ℕ → ℕ

-- `struct superblock`
pub record Superblock : Type 0 where
  pub size : ℕ
  pub nblocks : ℕ
  pub ninodes : ℕ
  pub nlog : ℕ
  pub logstart : ℕ
  pub inodestart : ℕ
  pub bmapstart : ℕ

-- `IBLOCK` and `BBLOCK`
abbrev pub iblock : ℕ → Superblock → ℕ
iblock i sb = i / ipb + sb.inodestart

abbrev pub bblock : ℕ → Superblock → ℕ
bblock b sb = b / bpb + sb.bmapstart

-- `struct inode`; a `short` is its 16-bit pattern.
pub record Inode : Type 0 where
  pub dev : ℕ
  pub inum : ℕ
  pub ref : ℕ
  pub lock : SleepLock
  pub valid : Bool
  pub type : ℕ
  pub major : ℕ
  pub minor : ℕ
  pub nlink : ℕ
  pub size : ℕ
  pub addrs : List ℕ

-- `sb`, the disk, the blocks that were given to `log_write` (the last first), `icache`, the file table,
-- the calls of `begin_op` that wait for `end_op`, and of the running process its number, its directory
-- and its open files.
pub record Fs : Type 0 where
  pub sb : Superblock
  pub blocks : ℕ → Block
  pub logged : List ℕ
  pub inodes : List Inode
  pub files : List File
  pub ops : ℕ
  pub pid : ℕ
  pub cwd : ℕ
  pub ofile : List (Option ℕ)

-- How a piece of code ends: with a result, in a panic, asleep on a lock, or out of fuel.
pub data Run (A : Type 0) : Type 0 where
  ok : A → Fs → Run A
  panic : Run A
  sleeps : Run A
  out_of_fuel : Run A

-- `P` of a result and the state that it comes with.
abbrev pub Gives : {A : Type 0} → (A → Fs → Type 0) → Run A → Type 0
Gives P (ok a s) = P a s
Gives P panic = Unit
Gives P sleeps = Unit
Gives P out_of_fuel = Unit

abbrev pub M : Type 0 → Type 0
M A = Fs → Run A

unfoldable pub pure : {A : Type 0} → A → M A
pure a s = ok a s

unfoldable pub panics : {A : Type 0} → M A
panics s = panic

unfoldable pub no_fuel : {A : Type 0} → M A
no_fuel s = out_of_fuel

unfoldable pub gets : {A : Type 0} → (Fs → A) → M A
gets f s = ok (f s) s

unfoldable pub alter : (Fs → Fs) → M (Unit {0})
alter f s = ok tt (f s)

unfoldable pub bread : ℕ → M Block
bread b s = ok (s.blocks b) s

abbrev pub stored : ℕ → Block → Fs → Fs
stored b d s = record s { blocks = λ c. if b == c then d else s.blocks c }

-- A write of a buffer's data.
unfoldable pub store : ℕ → Block → M (Unit {0})
store b d s = ok tt (stored b d s)

unfoldable pub log_write : ℕ → M (Unit {0})
log_write b s = ok tt (record s { logged = b ∷ s.logged })

module _ {A B : Type 0} where
  -- A test for a null pointer, or for another missing answer.
  unfoldable pub if_none : Option A → M B → (A → M B) → M B
  if_none none m k = m
  if_none (some a) m k = k a

  abbrev pub and_then : Run A → (A → M B) → Run B
  and_then (ok a s) k = k a s
  and_then panic k = panic
  and_then sleeps k = sleeps
  and_then out_of_fuel k = out_of_fuel

  infixl 5 ◌>>=◌ ◌>>◌
  -- Opening this opens the actions above too.
  unfoldable pub ◌>>=◌ : M A → (A → M B) → M B
  unfolding pure panics no_fuel gets alter bread store log_write if_none
  ◌>>=◌ m k s = and_then (m s) k

  abbrev pub ◌>>◌ : M A → M B → M B
  m >> n = m >>= λ _. n
