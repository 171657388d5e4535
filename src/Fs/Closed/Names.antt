-- ===== src/Fs/Closed/Names.antt =====
-- xv6-public/fs.c: what contents, directories and paths keep of such a state.
use tp2_so.Base.{ℕ, zero, suc, Bool, true, Option, List, []}
use tp2_so.Fs.{Fs, M}
use tp2_so.Fs.Keeps.{Keeps, Keeps-bind, Keeps-pure, Keeps-no_fuel, Keeps-if_none}
use tp2_so.Fs.Content.{
  Devices, stati, chunk, read_chunk, write_chunk, read_loop, write_loop, read_file, grow,
  write_file, readi, writei,
}
use tp2_so.Fs.Names.{
  read_entry, match_entry, lookup_loop, dirlookup, empty_at, empty_entry, write_entry, dirlink,
  walk_elem, walk_end, walk, namex, namei, nameiparent, skipelem,
}
use tp2_so.Fs.Closed.{IsClosed}
use tp2_so.Fs.Closed.Inodes.{
  layer, Keeps-idup, Keeps-ilock, Keeps-iunlock, Keeps-bmap, Keeps-iput, Keeps-iunlockput,
}

module _ {P : Fs → Type 0} (c : IsClosed P) where
  Keeps-read_chunk : (ip off m : ℕ) → Keeps P (read_chunk ip off m)
  unfolding read_chunk
  Keeps-read_chunk ip off m = search (layer, Keeps-bmap) depth 12

  Keeps-write_chunk : (ip : ℕ) (src : ℕ → ℕ) (off m : ℕ) → Keeps P (write_chunk ip src off m)
  unfolding write_chunk
  Keeps-write_chunk ip src off m = search (layer, Keeps-bmap) depth 12

  Keeps-read_loop : (ip fuel left off : ℕ) → Keeps P (read_loop ip fuel left off)
  unfolding read_loop
  Keeps-read_loop ip fuel zero off = Keeps-pure []
  Keeps-read_loop ip zero (suc left) off = Keeps-no_fuel
  Keeps-read_loop ip (suc fuel) (suc left) off =
      Keeps-bind _ _ (Keeps-read_chunk ip off (chunk (suc left) off))
        λ bytes. Keeps-bind _ _ (Keeps-read_loop ip fuel _ _) λ rest. Keeps-pure _

  Keeps-write_loop :
      (ip fuel : ℕ) (src : ℕ → ℕ) (left off : ℕ) → Keeps P (write_loop ip src fuel left off)
  unfolding write_loop
  Keeps-write_loop ip fuel src zero off = Keeps-pure off
  Keeps-write_loop ip zero src (suc left) off = Keeps-no_fuel
  Keeps-write_loop ip (suc fuel) src (suc left) off =
      Keeps-bind _ _ (Keeps-write_chunk ip src off (chunk (suc left) off))
        λ x. Keeps-write_loop ip fuel _ _ _

  pub Keeps-stati : (ip : ℕ) → Keeps P (stati ip)
  unfolding stati
  Keeps-stati ip = search layer depth 12

  Keeps-read_file : (ip off n : ℕ) → Keeps P (read_file ip off n)
  unfolding read_file
  Keeps-read_file ip off n = search (layer, Keeps-read_loop) depth 12

  Keeps-grow : (ip end : ℕ) → Keeps P (grow ip end)
  unfolding grow
  Keeps-grow ip end = search layer depth 12

  Keeps-write_file : (ip : ℕ) (src : ℕ → ℕ) (off n : ℕ) → Keeps P (write_file ip src off n)
  unfolding write_file
  Keeps-write_file ip src off n = search (layer, Keeps-write_loop, Keeps-grow) depth 14

module _ {P : Fs → Type 0} (c : IsClosed P) (devsw : Devices) where
  pub Keeps-readi : (ip off n : ℕ) → Keeps P (readi devsw ip off n)
  unfolding readi
  Keeps-readi ip off n = search (layer, Keeps-read_file) depth 12

  pub Keeps-writei : (ip : ℕ) (src : ℕ → ℕ) (off n : ℕ) → Keeps P (writei devsw ip src off n)
  unfolding writei
  Keeps-writei ip src off n = search (layer, Keeps-write_file) depth 12

  pub Keeps-read_entry : (dp off : ℕ) → Keeps P (read_entry devsw dp off)
  unfolding read_entry
  Keeps-read_entry dp off = search (layer, Keeps-readi) depth 12

  Keeps-match_entry :
      (dp : ℕ) (name : List ℕ) (off : ℕ) (next : M (Option (ℕ × ℕ)))
      → Keeps P next
      → Keeps P (match_entry devsw dp name off next)
  unfolding match_entry
  Keeps-match_entry dp name off next k = search (layer, Keeps-read_entry) depth 14

  Keeps-lookup_loop :
      (dp : ℕ) (name : List ℕ) (fuel off : ℕ) → Keeps P (lookup_loop devsw dp name fuel off)
  unfolding lookup_loop
  Keeps-lookup_loop dp name zero off = Keeps-no_fuel
  Keeps-lookup_loop dp name (suc fuel) off =
      Keeps-match_entry dp name off _ (Keeps-lookup_loop dp name fuel _)

  pub Keeps-dirlookup : (dp : ℕ) (name : List ℕ) → Keeps P (dirlookup devsw dp name)
  unfolding dirlookup
  Keeps-dirlookup dp name = search (layer, Keeps-lookup_loop) depth 12

  Keeps-empty_at : (dp off : ℕ) (next : M ℕ) → Keeps P next → Keeps P (empty_at devsw dp off next)
  unfolding empty_at
  Keeps-empty_at dp off next k = search (layer, Keeps-read_entry) depth 14

  Keeps-empty_entry : (dp fuel off : ℕ) → Keeps P (empty_entry devsw dp fuel off)
  unfolding empty_entry
  Keeps-empty_entry dp zero off = Keeps-no_fuel
  Keeps-empty_entry dp (suc fuel) off = Keeps-empty_at dp off _ (Keeps-empty_entry dp fuel _)

  pub Keeps-write_entry : (dp off : ℕ) (de : List ℕ) → Keeps P (write_entry devsw dp off de)
  unfolding write_entry
  Keeps-write_entry dp off de = search (layer, Keeps-writei) depth 12

  pub Keeps-dirlink : (dp : ℕ) (name : List ℕ) (inum : ℕ) → Keeps P (dirlink devsw dp name inum)
  unfolding dirlink
  Keeps-dirlink dp name inum =
      search (layer, Keeps-dirlookup, Keeps-iput, Keeps-empty_entry, Keeps-write_entry) depth 14

  Keeps-walk_elem :
      (parent : Bool) (ip : ℕ) (elem rest : List ℕ) (next : ℕ → M (Option (ℕ × List ℕ)))
      → ((n : ℕ) → Keeps P (next n))
      → Keeps P (walk_elem devsw parent ip elem rest next)
  unfolding walk_elem
  Keeps-walk_elem parent ip elem rest next k =
      search (layer, Keeps-ilock, Keeps-iunlock, Keeps-iunlockput, Keeps-dirlookup) depth 16

  Keeps-walk_end :
      (parent : Bool) (ip : ℕ) (name : List ℕ) → Keeps P (walk_end devsw parent ip name)
  unfolding walk_end
  Keeps-walk_end parent ip name = search (layer, Keeps-iput) depth 12

  Keeps-walk :
      (parent : Bool) (fuel ip : ℕ) (path name : List ℕ)
      → Keeps P (walk devsw parent fuel ip path name)
  unfolding walk
  Keeps-walk parent zero ip path name = Keeps-no_fuel
  Keeps-walk parent (suc fuel) ip path name =
      Keeps-if_none (skipelem path) _ _ (Keeps-walk_end parent ip name)
        λ p. Keeps-walk_elem parent ip p.0 p.1 _ λ n. Keeps-walk parent fuel n p.1 p.0

  Keeps-namex : (parent : Bool) (path : List ℕ) → Keeps P (namex devsw parent path)
  unfolding namex
  Keeps-namex parent path = search (layer, Keeps-walk, Keeps-idup) depth 14

  pub Keeps-namei : (path : List ℕ) → Keeps P (namei devsw path)
  unfolding namei
  Keeps-namei path = search (layer, Keeps-namex) depth 12

  pub Keeps-nameiparent : (path : List ℕ) → Keeps P (nameiparent devsw path)
  unfolding nameiparent
  Keeps-nameiparent path = Keeps-namex true path
