-- ===== src/Fs/Blocks.antt =====
-- xv6-public/fs.c, the layer of blocks: the allocator on the bitmap.
use tp2_so.Base.{
  ℕ, zero, suc, ◌+◌, ◌/◌, ◌%◌, true, false, not, Option, none, some, if◌then◌else◌, ltb, add32,
}
use tp2_so.Fs.{
  Superblock, Block, bsize, bpb, bblock, M, panic, out_of_fuel, pure, panics, gets, ◌>>=◌, ◌>>◌,
  bread, store, log_write,
}
use tp2_so.Fs.Bits.{bit, set_bit, clear_bit}
use tp2_so.Fs.Words.{get32, put_bytes}

unfoldable pub readsb : M Superblock
unfolding get32 ◌>>=◌
readsb = do
  d ← bread 1
  pure (record {
    size = get32 d 0;
    nblocks = get32 d 4;
    ninodes = get32 d 8;
    nlog = get32 d 12;
    logstart = get32 d 16;
    inodestart = get32 d 20;
    bmapstart = get32 d 24;
  })

unfoldable pub bzero : ℕ → M (Unit {0})
unfolding put_bytes ◌>>=◌
bzero bno = do d ← bread bno; store bno (put_bytes d 0 bsize (λ i. 0)); log_write bno

-- The inner loop of `balloc` on the bitmap block `d`, from `bi` on, with `n` bits of it left.
unfoldable pub free_bit : Block → ℕ → ℕ → ℕ → ℕ → Option ℕ
unfolding bit
free_bit d b size zero bi = none
free_bit d b size (suc n) bi = elim (ltb (b + bi) size) [
  | false ↦ none
  | true ↦ elim (bit d bi) [ false ↦ some bi | true ↦ free_bit d b size n (suc bi) ]
]

-- The body of `balloc` once a bit is found.
unfoldable pub take_block : ℕ → ℕ → M ℕ
unfolding set_bit bzero ◌>>=◌
take_block b bi = do
  sb ← gets (λ s. s.sb)
  d ← bread (bblock b sb)
  store (bblock b sb) (set_bit d bi)
  log_write (bblock b sb)
  bzero (b + bi)
  pure (b + bi)

-- The outer loop, from `b` on.
unfoldable pub balloc_loop : ℕ → ℕ → M ℕ
unfolding free_bit take_block
balloc_loop zero b s = out_of_fuel
balloc_loop (suc fuel) b s = elim (ltb b s.sb.size) [
  | false ↦ panic
  | true ↦ elim (free_bit (s.blocks (bblock b s.sb)) b s.sb.size bpb 0) [
    | some bi ↦ take_block b bi s
    | none ↦ balloc_loop fuel (add32 b bpb) s
  ]
]

-- One round for each block of the bitmap, and the last test.
unfoldable pub balloc : M ℕ
unfolding balloc_loop
balloc s = balloc_loop (s.sb.size / bpb + 2) 0 s

unfoldable pub bfree : ℕ → M (Unit {0})
unfolding bit clear_bit ◌>>=◌
bfree b = do
  sb ← gets (λ s. s.sb)
  d ← bread (bblock b sb)
  if not (bit d (b % bpb))
      then panics
      else (do store (bblock b sb) (clear_bit d (b % bpb)); log_write (bblock b sb))
