-- ===== src/Fs/Inodes.antt =====
-- xv6-public/fs.c, the layer of inodes: the inode cache, the inodes on the disk and the blocks of an
-- inode. A lock that is held by another ends the run in `sleeps`.
use tp2_so.Base.{
  ℕ, zero, suc, ◌+◌, ◌-◌, ◌*◌, ◌%◌, Bool, true, false, not, none, some, List, [], ◌∷◌, ◌==◌, ◌&&◌,
  ◌||◌, if◌then◌else◌, ltb, add32, sub32, slt, get_elem?, get_or, set, modify, replicate,
  find_index,
}
use tp2_so.Bio.{acquiresleep, releasesleep, holdingsleep, initsleeplock}
use tp2_so.Fs.{
  Block, ipb, iblock, ndirect, nindirect, Inode, M, ok, panic, sleeps, pure, panics, gets, alter,
  ◌>>=◌, ◌>>◌, bread, store, log_write,
}
use tp2_so.Fs.Words.{get16, get32, put16, put32, put_bytes}
use tp2_so.Fs.Blocks.{balloc, bfree, readsb}

abbrev pub ninode : ℕ
ninode = 50

abbrev pub new_inode : Inode
new_inode = record {
  dev = 0;
  inum = 0;
  ref = 0;
  lock = initsleeplock;
  valid = false;
  type = 0;
  major = 0;
  minor = 0;
  nlink = 0;
  size = 0;
  addrs = replicate 13 0;
}

unfoldable pub iinit : M (Unit {0})
unfolding readsb ◌>>=◌
iinit = do
  alter (λ s. record s { inodes = replicate ninode new_inode })
  b ← readsb
  alter (λ s. record s { sb = b })

-- `*ip`; a null pointer is no slot.
unfoldable pub inode_at : ℕ → M Inode
inode_at ip s = elim (get_elem? s.inodes ip) [ none ↦ panic | some i ↦ ok i s ]

unfoldable pub change : ℕ → (Inode → Inode) → M (Unit {0})
change ip f s = ok tt (record s { inodes = modify s.inodes ip f })

-- Where in its block an inode is.
abbrev pub place : ℕ → ℕ
place inum = inum % ipb * 64

unfoldable pub get_addrs : Block → ℕ → ℕ → List ℕ
unfolding get32
get_addrs d o zero = []
get_addrs d o (suc n) = get32 d o ∷ get_addrs d (o + 4) n

unfoldable pub put_addrs : Block → ℕ → List ℕ → Block
unfolding put32
put_addrs d o [] = d
put_addrs d o (a ∷ xs) = put_addrs (put32 d o a) (o + 4) xs

-- The copy of the inode on the disk into the slot, and back.
unfoldable pub read_inode : Block → ℕ → Inode → Inode
unfolding get16 get32 get_addrs
read_inode d o i = record i {
  type = get16 d o;
  major = get16 d (o + 2);
  minor = get16 d (o + 4);
  nlink = get16 d (o + 6);
  size = get32 d (o + 8);
  addrs = get_addrs d (o + 12) 13;
}

unfoldable pub write_inode : Block → ℕ → Inode → Block
unfolding put16 put32 put_addrs
write_inode d o i =
    put_addrs
      (put32
        (put16 (put16 (put16 (put16 d o i.type) (o + 2) i.major) (o + 4) i.minor) (o + 6) i.nlink)
        (o + 8) i.size)
      (o + 12) i.addrs

unfoldable pub iupdate : ℕ → M (Unit {0})
unfolding write_inode ◌>>=◌ inode_at
iupdate ip = do
  i ← inode_at ip
  sb ← gets (λ s. s.sb)
  d ← bread (iblock i.inum sb)
  store (iblock i.inum sb) (write_inode d (place i.inum) i)
  log_write (iblock i.inum sb)

abbrev pub is_cached : ℕ → ℕ → Inode → Bool
is_cached dev inum i = slt 0 i.ref && (i.dev == dev && i.inum == inum)

abbrev pub is_empty : Inode → Bool
is_empty i = i.ref == 0

abbrev pub renamed : ℕ → ℕ → Inode → Inode
renamed dev inum i = record i { dev = dev; inum = inum; ref = 1; valid = false }

abbrev pub one_more : Inode → Inode
one_more i = record i { ref = add32 i.ref 1 }

abbrev pub one_less : Inode → Inode
one_less i = record i { ref = sub32 i.ref 1 }

unfoldable pub iget : ℕ → ℕ → M ℕ
iget dev inum s = elim (find_index (is_cached dev inum) s.inodes) [
  | some ip ↦ ok ip (record s { inodes = modify s.inodes ip one_more })
  | none ↦ elim (find_index is_empty s.inodes) [
    | none ↦ panic
    | some ip ↦ ok ip (record s { inodes = modify s.inodes ip (renamed dev inum) })
  ]
]

unfoldable pub idup : ℕ → M ℕ
unfolding ◌>>=◌ change
idup ip = do change ip one_more; pure ip

-- The body of the loop of `ialloc`, and the loop from `inum` on, with `n` inodes left.
unfoldable pub try_inode : ℕ → ℕ → ℕ → M ℕ → M ℕ
unfolding get16 put16 put_bytes iget ◌>>=◌
try_inode dev type inum next = do
  sb ← gets (λ s. s.sb)
  d ← bread (iblock inum sb)
  if get16 d (place inum) == 0
      then (do
        store (iblock inum sb) (put16 (put_bytes d (place inum) 64 (λ i. 0)) (place inum) type)
        log_write (iblock inum sb)
        iget dev inum)
      else next

unfoldable pub ialloc_loop : ℕ → ℕ → ℕ → ℕ → M ℕ
unfolding try_inode
ialloc_loop dev type zero inum = panics
ialloc_loop dev type (suc n) inum = try_inode dev type inum (ialloc_loop dev type n (suc inum))

unfoldable pub ialloc : ℕ → ℕ → M ℕ
unfolding ialloc_loop
ialloc dev type s = ialloc_loop dev type (s.sb.ninodes - 1) 1 s

-- `acquiresleep(&ip->lock)`
unfoldable pub lock_inode : ℕ → M (Unit {0})
unfolding acquiresleep change
lock_inode ip s = elim (get_elem? s.inodes ip) [
  | none ↦ panic
  | some i ↦ elim (acquiresleep s.pid i.lock) [
    | none ↦ sleeps
    | some l ↦ change ip (λ j. record j { lock = l }) s
  ]
]

unfoldable pub unlock_inode : ℕ → M (Unit {0})
unfolding releasesleep change
unlock_inode ip = change ip (λ i. record i { lock = releasesleep i.lock })

-- What `ilock` does with a slot that is not valid.
unfoldable pub load_inode : ℕ → M (Unit {0})
unfolding read_inode ◌>>=◌ inode_at change
load_inode ip = do
  i ← inode_at ip
  sb ← gets (λ s. s.sb)
  d ← bread (iblock i.inum sb)
  change ip (λ j. record (read_inode d (place i.inum) j) { valid = true })
  if get16 d (place i.inum) == 0 then panics else pure tt

unfoldable pub ilock : ℕ → M (Unit {0})
unfolding lock_inode load_inode ◌>>=◌ inode_at
ilock ip = do
  i ← inode_at ip
  if slt i.ref 1 then panics else lock_inode ip
  j ← inode_at ip
  if not j.valid then load_inode ip else pure tt

unfoldable pub iunlock : ℕ → M (Unit {0})
unfolding unlock_inode holdingsleep ◌>>=◌ inode_at
iunlock ip = do
  i ← inode_at ip
  pid ← gets (λ s. s.pid)
  if not (holdingsleep pid i.lock) || slt i.ref 1 then panics else unlock_inode ip

-- `if((addr = ip->addrs[k]) == 0) ip->addrs[k] = addr = balloc(ip->dev);`
unfoldable pub addr_at : ℕ → ℕ → M ℕ
unfolding balloc ◌>>=◌ inode_at change
addr_at ip k = do
  i ← inode_at ip
  if get_or i.addrs k 0 == 0
      then (do a ← balloc; change ip (λ j. record j { addrs = set j.addrs k a }); pure a)
      else pure (get_or i.addrs k 0)

-- The part of `bmap` on the indirect block `b`. The buffer is read again after `balloc`: its content
-- is the block's.
unfoldable pub indirect_at : ℕ → ℕ → M ℕ
unfolding balloc get32 put32 ◌>>=◌
indirect_at b k = do
  d ← bread b
  if get32 d (4 * k) == 0
      then (do a ← balloc; e ← bread b; store b (put32 e (4 * k) a); log_write b; pure a)
      else pure (get32 d (4 * k))

unfoldable pub bmap : ℕ → ℕ → M ℕ
unfolding addr_at indirect_at ◌>>=◌
bmap ip bn =
    if ltb bn ndirect
    then addr_at ip bn
    else if ltb (bn - ndirect) nindirect
    then (do b ← addr_at ip ndirect; indirect_at b (bn - ndirect))
    else panics

-- The bodies of the loops of `itrunc`, and the loops from entry `k` on, with `n` left.
unfoldable pub free_addr : ℕ → ℕ → M (Unit {0})
unfolding bfree ◌>>=◌ inode_at change
free_addr ip k = do
  i ← inode_at ip
  if get_or i.addrs k 0 == 0
      then pure tt
      else (do bfree (get_or i.addrs k 0); change ip (λ j. record j { addrs = set j.addrs k 0 }))

unfoldable pub free_direct : ℕ → ℕ → ℕ → M (Unit {0})
unfolding free_addr
free_direct ip zero k = pure tt
free_direct ip (suc n) k = free_addr ip k >> free_direct ip n (suc k)

unfoldable pub free_word : ℕ → ℕ → M (Unit {0})
unfolding bfree get32 ◌>>=◌
free_word b k = do d ← bread b; if get32 d (4 * k) == 0 then pure tt else bfree (get32 d (4 * k))

unfoldable pub free_indirect : ℕ → ℕ → ℕ → M (Unit {0})
unfolding free_word
free_indirect b zero k = pure tt
free_indirect b (suc n) k = free_word b k >> free_indirect b n (suc k)

unfoldable pub itrunc : ℕ → M (Unit {0})
unfolding free_direct free_indirect iupdate bfree ◌>>=◌ inode_at change
itrunc ip = do
  free_direct ip ndirect 0
  i ← inode_at ip
  if get_or i.addrs ndirect 0 == 0 then pure tt else (do
    free_indirect (get_or i.addrs ndirect 0) nindirect 0
    bfree (get_or i.addrs ndirect 0)
    change ip (λ j. record j { addrs = set j.addrs ndirect 0 }))
  change ip (λ j. record j { size = 0 })
  iupdate ip

-- What `iput` does for the last reference to an inode without links.
unfoldable pub destroy : ℕ → M (Unit {0})
unfolding itrunc iupdate ◌>>=◌ change
destroy ip = do
  itrunc ip
  change ip (λ j. record j { type = 0 })
  iupdate ip
  change ip (λ j. record j { valid = false })

unfoldable pub iput : ℕ → M (Unit {0})
unfolding lock_inode unlock_inode destroy ◌>>=◌ inode_at change
iput ip = do
  lock_inode ip
  i ← inode_at ip
  if i.valid && i.nlink == 0 && i.ref == 1 then destroy ip else pure tt
  unlock_inode ip
  change ip one_less

unfoldable pub iunlockput : ℕ → M (Unit {0})
unfolding iunlock iput ◌>>=◌
iunlockput ip = do iunlock ip; iput ip
