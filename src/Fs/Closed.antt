-- ===== src/Fs/Closed.antt =====
-- xv6-public/fs.c: what the layer of blocks keeps of a state whose block writes all come with a
-- `log_write`.
pub mod Inodes
pub mod Names
use tp2_so.Base.{
  ℕ, zero, suc, ◌+◌, ◌≡◌, refl, Bool, true, false, Option, none, some, List, ◌∷◌, ◌==◌, occurs,
  arith, if◌then◌else◌, Bool-cases, inl, inr, Option-cases, ltb, add32, find_index, get_elem?,
  modify,
}
use tp2_so.Fs.{
  Block, Fs, Inode, M, Run, ok, panic, sleeps, out_of_fuel, pure, panics, no_fuel, gets, alter,
  bread, store, stored, log_write, ◌>>=◌, ◌>>◌, bblock, bpb,
}
use tp2_so.Fs.Keeps.{
  Keeps, Holds-ok, Holds-panic, Holds-sleeps, Holds-out_of_fuel, Holds-option, Holds-bool,
  Keeps-bind, Keeps-pure, Keeps-panics, keeps_rules,
}
use tp2_so.Fs.Inodes.{
  iinit, inode_at, change, iupdate, iget, idup, try_inode, ialloc_loop, ialloc, lock_inode,
  unlock_inode, load_inode, ilock, iunlock, addr_at, indirect_at, bmap, free_addr, free_direct,
  free_word, free_indirect, itrunc, destroy, iput, iunlockput, is_cached, is_empty, one_more,
  renamed,
}
use tp2_so.Fs.Content.{Devices, stati, read_loop, write_loop, read_file, write_file, readi, writei}
use tp2_so.Fs.Names.{
  read_entry, lookup_loop, dirlookup, empty_entry, write_entry, dirlink, walk, namex, namei,
  nameiparent, skipelem,
}
use tp2_so.Bio.{acquiresleep}
use tp2_so.Fs.Blocks.{readsb, bzero, take_block, free_bit, balloc_loop, balloc, bfree}

-- A predicate that block writes with their `log_write`, and writes of the inode cache, keep.
pub record IsClosed (P : Fs → Type 0) : Type 0 where
  pub write :
      (b : ℕ) (e : Block) (s : Fs) → P s → P (record (stored b e s) { logged = b ∷ s.logged })
  pub move : (is : List Inode) (s : Fs) → P s → P (record s { inodes = is })

module _ {P : Fs → Type 0} (c : IsClosed P) where
  pub Keeps-write :
      {A : Type 0} (b : ℕ) (e : Block) (k : M A)
      → Keeps P k
      → Keeps P (store b e >> (log_write b >> k))
  unfolding ◌>>=◌ store log_write
  Keeps-write b e k kk = record { at = λ s l. kk.at _ (c.write b e s l) }

  pub Keeps-write_last : (b : ℕ) (e : Block) → Keeps P (store b e >> log_write b)
  unfolding ◌>>=◌ store log_write
  Keeps-write_last b e = record { at = λ s l. Holds-ok _ _ (c.write b e s l) }

pub ruleset block_rules = (Keeps-write, Keeps-write_last, keeps_rules)

module _ {P : Fs → Type 0} (c : IsClosed P) where
  pub Keeps-readsb : Keeps P readsb
  unfolding readsb
  Keeps-readsb = search block_rules

  pub Keeps-bzero : (b : ℕ) → Keeps P (bzero b)
  unfolding bzero
  Keeps-bzero b = search block_rules

  pub Keeps-take_block : (b bi : ℕ) → Keeps P (take_block b bi)
  unfolding take_block
  Keeps-take_block b bi = search (block_rules, Keeps-bzero)

  pub Keeps-balloc_loop : (fuel b : ℕ) → Keeps P (balloc_loop fuel b)
  unfolding balloc_loop
  Keeps-balloc_loop zero b = record { at = λ s l. Holds-out_of_fuel }
  Keeps-balloc_loop (suc fuel) b = record {
    at = λ s l. Holds-bool _ _ _ Holds-panic (
        Holds-option _ _ _ ((Keeps-balloc_loop fuel (add32 b bpb)).at s l)
          λ bi. (Keeps-take_block b bi).at s l);
  }

  pub Keeps-balloc : Keeps P balloc
  unfolding balloc
  Keeps-balloc = record { at = λ s l. (Keeps-balloc_loop _ 0).at s l }

  pub Keeps-bfree : (b : ℕ) → Keeps P (bfree b)
  unfolding bfree
  Keeps-bfree b = search block_rules

  pub Keeps-inode_at : (ip : ℕ) → Keeps P (inode_at ip)
  unfolding inode_at
  Keeps-inode_at ip = record {
    at = λ s l. Holds-option (get_elem? s.inodes ip) _ _ Holds-panic (λ i. Holds-ok i s l);
  }

  pub Keeps-change : (ip : ℕ) (f : Inode → Inode) → Keeps P (change ip f)
  unfolding change
  Keeps-change ip f = record { at = λ s l. Holds-ok _ _ (c.move _ s l) }

  pub Keeps-iupdate : (ip : ℕ) → Keeps P (iupdate ip)
  unfolding iupdate
  Keeps-iupdate ip = search (block_rules, Keeps-inode_at)

  pub Keeps-iget : (dev inum : ℕ) → Keeps P (iget dev inum)
  unfolding iget
  Keeps-iget dev inum = record {
    at = λ s l.
        Holds-option (find_index (is_cached dev inum) s.inodes) _ _
          (Holds-option (find_index is_empty s.inodes) _ _ Holds-panic
            λ i. Holds-ok _ _ (c.move _ s l))
          (λ i. Holds-ok _ _ (c.move _ s l));
  }

  pub Keeps-lock_inode : (ip : ℕ) → Keeps P (lock_inode ip)
  unfolding lock_inode change
  Keeps-lock_inode ip = record {
    at = λ s l. Holds-option (get_elem? s.inodes ip) _ _ Holds-panic λ i.
        Holds-option (acquiresleep s.pid i.lock) _ _ Holds-sleeps λ k. Holds-ok _ _ (c.move _ s l);
  }
