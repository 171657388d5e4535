-- ===== src/Fs/Closed/Inodes.antt =====
-- xv6-public/fs.c: what the layer of inodes keeps of such a state.
use tp2_so.Base.{ℕ, zero, suc}
use tp2_so.Fs.{Fs, M}
use tp2_so.Fs.Keeps.{Keeps, Keeps-bind, Keeps-pure, Keeps-panics}
use tp2_so.Fs.Inodes.{
  idup, try_inode, ialloc_loop, ialloc, unlock_inode, load_inode, ilock, iunlock, addr_at,
  indirect_at, bmap, free_addr, free_direct, free_word, free_indirect, itrunc, destroy, iput,
  iunlockput,
}
use tp2_so.Fs.Closed.{
  IsClosed, block_rules, Keeps-write, Keeps-write_last, Keeps-readsb, Keeps-bzero, Keeps-take_block,
  Keeps-balloc_loop, Keeps-balloc, Keeps-bfree, Keeps-inode_at, Keeps-change, Keeps-iupdate,
  Keeps-iget, Keeps-lock_inode,
}

pub ruleset layer = (
  block_rules, Keeps-inode_at, Keeps-change, Keeps-iget, Keeps-balloc, Keeps-bfree, Keeps-iupdate,
  Keeps-lock_inode,
)

module _ {P : Fs → Type 0} (c : IsClosed P) where
  pub Keeps-idup : (ip : ℕ) → Keeps P (idup ip)
  unfolding idup
  Keeps-idup ip = search layer depth 12

  pub Keeps-try_inode :
      (dev type inum : ℕ) (next : M ℕ) → Keeps P next → Keeps P (try_inode dev type inum next)
  unfolding try_inode
  Keeps-try_inode dev type inum next k = search layer depth 12

  pub Keeps-ialloc_loop : (dev type n inum : ℕ) → Keeps P (ialloc_loop dev type n inum)
  unfolding ialloc_loop
  Keeps-ialloc_loop dev type zero inum = Keeps-panics
  Keeps-ialloc_loop dev type (suc n) inum =
      Keeps-try_inode dev type inum _ (Keeps-ialloc_loop dev type n (suc inum))

  pub Keeps-ialloc : (dev type : ℕ) → Keeps P (ialloc dev type)
  unfolding ialloc
  Keeps-ialloc dev type = record { at = λ s l. (Keeps-ialloc_loop dev type _ 1).at s l }

  pub Keeps-unlock_inode : (ip : ℕ) → Keeps P (unlock_inode ip)
  unfolding unlock_inode
  Keeps-unlock_inode ip = search layer depth 12

  pub Keeps-load_inode : (ip : ℕ) → Keeps P (load_inode ip)
  unfolding load_inode
  Keeps-load_inode ip = search layer depth 12

  pub Keeps-ilock : (ip : ℕ) → Keeps P (ilock ip)
  unfolding ilock
  Keeps-ilock ip = search (layer, Keeps-load_inode) depth 12

  pub Keeps-iunlock : (ip : ℕ) → Keeps P (iunlock ip)
  unfolding iunlock
  Keeps-iunlock ip = search layer depth 12

  pub Keeps-addr_at : (ip k : ℕ) → Keeps P (addr_at ip k)
  unfolding addr_at
  Keeps-addr_at ip k = search layer depth 12

  pub Keeps-indirect_at : (b k : ℕ) → Keeps P (indirect_at b k)
  unfolding indirect_at
  Keeps-indirect_at b k = search layer depth 12

  pub Keeps-bmap : (ip bn : ℕ) → Keeps P (bmap ip bn)
  unfolding bmap
  Keeps-bmap ip bn = search (layer, Keeps-addr_at, Keeps-indirect_at) depth 12

  pub Keeps-free_addr : (ip k : ℕ) → Keeps P (free_addr ip k)
  unfolding free_addr
  Keeps-free_addr ip k = search layer depth 12

  pub Keeps-free_direct : (ip n k : ℕ) → Keeps P (free_direct ip n k)
  unfolding free_direct
  Keeps-free_direct ip zero k = Keeps-pure tt
  Keeps-free_direct ip (suc n) k =
      Keeps-bind (free_addr ip k) (λ x. free_direct ip n (suc k)) (Keeps-free_addr ip k)
        λ x. Keeps-free_direct ip n (suc k)

  pub Keeps-free_word : (b k : ℕ) → Keeps P (free_word b k)
  unfolding free_word
  Keeps-free_word b k = search layer depth 12

  pub Keeps-free_indirect : (b n k : ℕ) → Keeps P (free_indirect b n k)
  unfolding free_indirect
  Keeps-free_indirect b zero k = Keeps-pure tt
  Keeps-free_indirect b (suc n) k =
      Keeps-bind (free_word b k) (λ x. free_indirect b n (suc k)) (Keeps-free_word b k)
        λ x. Keeps-free_indirect b n (suc k)

  pub Keeps-itrunc : (ip : ℕ) → Keeps P (itrunc ip)
  unfolding itrunc
  Keeps-itrunc ip = search (layer, Keeps-free_direct, Keeps-free_indirect) depth 12

  pub Keeps-destroy : (ip : ℕ) → Keeps P (destroy ip)
  unfolding destroy
  Keeps-destroy ip = search (layer, Keeps-itrunc) depth 12

  pub Keeps-iput : (ip : ℕ) → Keeps P (iput ip)
  unfolding iput
  Keeps-iput ip = search (layer, Keeps-destroy) depth 12

  pub Keeps-iunlockput : (ip : ℕ) → Keeps P (iunlockput ip)
  unfolding iunlockput
  Keeps-iunlockput ip = search (layer, Keeps-iunlock, Keeps-iput) depth 12
