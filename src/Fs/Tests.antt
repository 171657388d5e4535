-- ===== src/Fs/Tests.antt =====
-- A small disk for fs.c: 20 blocks, the inodes from block 2 on, the bitmap in block 4, the root
-- directory in block 5 and a file of 5 bytes in block 6.
use tp2_so.Base.{
  ℕ, ◌+◌, ◌/◌, ◌++◌, ◌<◌, ◌≡◌, ◌≢◌, ◌⊎◌, refl, sym, subst, true, false, none, some, List, [], ◌∷◌,
  ◌==◌, ◌&&◌, if◌then◌else◌, leb, ltb, arith, get_or, modify, replicate, map_list, take, minus_one,
  find_index,
}
use tp2_so.Bio.{initsleeplock}
use tp2_so.Fs.{Block, Superblock, Inode, Fs, ok, panic, bblock, bsize, dirsiz}
use tp2_so.Fs.Words.{put_bytes, bytes_from}
use tp2_so.Fs.Blocks.{balloc, balloc_loop, free_bit, take_block, bzero, bfree}
use tp2_so.Fs.Bits.{bit}
use tp2_so.Fs.Inodes.{new_inode, ninode, iget, renamed}
use tp2_so.Fs.Content.{Devices, readi}
use tp2_so.Fs.Bitmap.{in_use, BitmapInUse, taken, balloc_lem, balloc-bfree}
use tp2_so.Fs.Bytes.{byte_of, block_of, Whole, readable, readi_lem}
use tp2_so.Fs.Overwrite.{Apart}
use tp2_so.Fs.Refine.{Access, reads, writes, run, replay, run_refines}
use tp2_so.Fs.Paths.{elements, split, non_empty, skipelem-split}
use tp2_so.Fs.Cache.{Calls, here, next, gets, one_inode}

abbrev pub small_sb : Superblock
small_sb = record {
  size = 20;
  nblocks = 13;
  ninodes = 16;
  nlog = 0;
  logstart = 2;
  inodestart = 2;
  bmapstart = 4;
}

-- Blocks 0 to 6 are in use; inode 1 is the root directory of one entry, for itself.
abbrev pub small_disk : ℕ → Block
small_disk b i =
    if b == 4
    then (if i == 0 then 127 else 0)
    else if b == 2
    then get_or (replicate 64 0 ++ 1 ∷ 0 ∷ 0 ∷ 0 ∷ 0 ∷ 0 ∷ 1 ∷ 0 ∷ 16 ∷ 0 ∷ 0 ∷ 0 ∷ 5 ∷ []) i 0
    else if b == 5
    then get_or (1 ∷ 0 ∷ 46 ∷ []) i 0
    else if b == 6
    then get_or (104 ∷ 101 ∷ 108 ∷ 108 ∷ 111 ∷ []) i 0
    else 0

abbrev pub hello : Inode
hello = record {
  dev = 1;
  inum = 9;
  ref = 1;
  lock = initsleeplock;
  valid = true;
  type = 2;
  major = 0;
  minor = 0;
  nlink = 1;
  size = 5;
  addrs = 6 ∷ replicate 12 0;
}

abbrev pub small_fs : Fs
small_fs = record {
  sb = small_sb;
  blocks = small_disk;
  logged = [];
  inodes = hello ∷ replicate 4 new_inode;
  files = [];
  ops = 0;
  pid = 7;
  cwd = 0;
  ofile = replicate 16 none;
}

abbrev pub no_devices : Devices
no_devices = record { read = λ m. none; write = λ m. none }

small_fs-BitmapInUse : BitmapInUse small_fs
unfolding bit
small_fs-BitmapInUse b lt = let q : b / 4096 ≡ 0 = omega arith in rw q refl

balloc_lem_example :
    ((balloc small_fs ≡ panic) × ((b : ℕ) → b < 20 → in_use small_fs b ≡ true))
    ⊎ ((c : ℕ) × (t : Fs) × (balloc small_fs ≡ ok c t)
        × (c < 20)
        × (in_use small_fs c ≡ false)
        × ((b : ℕ) → b < c → in_use small_fs b ≡ true)
        × ((b : ℕ) → b < 20 → in_use t b ≡ (if c == b then true else in_use small_fs b))
        × ((i : ℕ) → i < bsize → t.blocks c i ≡ 0)
        × ((b : ℕ) → b ≢ c → b ≢ bblock c small_sb → t.blocks b ≡ small_fs.blocks b))
balloc_lem_example = balloc_lem small_fs (omega arith) small_fs-BitmapInUse

first_free : balloc small_fs ≡ ok 7 (taken 7 small_fs)
unfolding balloc balloc_loop free_bit take_block bzero bit
first_free = refl

balloc-bfree_example :
    (u : Fs) × (bfree 7 (taken 7 small_fs) ≡ ok tt u)
    × ((b : ℕ) → b < 20 → in_use u b ≡ in_use small_fs b)
    × (bfree 7 u ≡ panic)
balloc-bfree_example =
    balloc-bfree small_fs (taken 7 small_fs) 7 (omega arith) small_fs-BitmapInUse first_free

hello-Whole : Whole small_fs 0 hello
hello-Whole = record {
  slot = refl;
  small = omega arith;
  present = λ bn lt.
      let q : bn ≡ 0 = omega arith in
      subst (λ x. block_of small_fs hello x ≢ 0) (sym q) (λ e. ground arith);
  indirect = λ lt. absurd (ground arith);
}

hello-Apart : Apart small_fs hello
hello-Apart = record {
  distinct = λ a b la lb e. omega arith;
  off_index = λ a la ln. absurd (ground arith);
}

-- Four bytes are asked for at 3, and two are there.
readi_lem_example : readi no_devices 0 3 4 small_fs ≡ (
    if leb 3 5 && ltb 7 4294967296
    then ok
        (readable hello 3 4, bytes_from (byte_of small_fs hello) 3 (readable hello 3 4))
        small_fs
    else ok (minus_one, []) small_fs)
readi_lem_example =
    readi_lem no_devices small_fs 0 hello 3 4 hello-Whole (λ e. ground arith) (omega arith)
      (omega arith)

abbrev session : List Access
session = writes 1 (λ i. 65 + i) 3 ∷ reads 0 9 ∷ writes 4 (λ i. 33) 1 ∷ reads 3 2 ∷ []

answers_right :
    replay hello session (byte_of small_fs hello)
    ≡ (104 ∷ 65 ∷ 66 ∷ 67 ∷ 111 ∷ []) ∷ (67 ∷ 33 ∷ []) ∷ []
unfolding replay bytes_from put_bytes
answers_right = refl

run_refines_example :
    (t : Fs) × (run no_devices 0 session small_fs
      ≡ ok (replay hello session (byte_of small_fs hello)) t)
run_refines_example =
    run_refines no_devices 0 hello session small_fs hello-Whole hello-Apart (λ e. ground arith)
      (omega arith, (omega arith, omega arith, (omega arith, (omega arith, omega arith, tt))))

-- `///a//bb`
skipelem-split_example :
    elements 9 (47 ∷ 47 ∷ 47 ∷ 97 ∷ 47 ∷ 47 ∷ 98 ∷ 98 ∷ [])
    ≡ some (map_list (take dirsiz) (non_empty (split (47 ∷ 47 ∷ 47 ∷ 97 ∷ 47 ∷ 47 ∷ 98 ∷ 98 ∷ []))))
skipelem-split_example = skipelem-split 9 (47 ∷ 47 ∷ 47 ∷ 97 ∷ 47 ∷ 47 ∷ 98 ∷ 98 ∷ []) (omega arith)

path_names :
    non_empty (split (47 ∷ 47 ∷ 47 ∷ 97 ∷ 47 ∷ 47 ∷ 98 ∷ 98 ∷ [])) ≡ (97 ∷ []) ∷ (98 ∷ 98 ∷ []) ∷ []
unfolding split non_empty
path_names = refl

-- Inode 3 is got in a fresh cache.
abbrev fresh : Fs
fresh = record small_fs { inodes = replicate ninode new_inode }

abbrev got : Fs
got = record fresh { inodes = modify fresh.inodes 0 (renamed 1 3) }

got_3 : Calls fresh got
unfolding iget find_index
got_3 = next here (gets 1 3 0 refl)

one_inode_example : ◌≡◌ {A = ℕ} 0 0
one_inode_example =
    one_inode 0 0 (renamed 1 3 new_inode) (renamed 1 3 new_inode) refl got_3 refl refl refl refl
      refl refl
