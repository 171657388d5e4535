-- ===== src/Fs/Bitmap.antt =====
-- xv6-public/fs.c: which block `balloc` finds in the bitmap, and what it and `bfree` do to the bitmap.
use tp2_so.Base.{
  ℕ, zero, suc, ◌+◌, ◌-◌, ◌*◌, ◌/◌, ◌%◌, ◌^◌, ◌≤◌, ◌<◌, ◌≡◌, ◌≢◌, ◌⊎◌, inl, inr, refl, ◌∙◌, sym, ap,
  subst, Bool, true, false, none, some, ◌∷◌, ◌==◌, if◌then◌else◌, ltb, add32, arith, Bool-cases,
}
use tp2_so.Fs.{Block, bsize, bpb, bblock, Fs, Run, ok, panic, stored, Gives, ◌>>=◌}
use tp2_so.Fs.Bits.{bit, set_bit, clear_bit, bit-set_bit, bit-clear_bit}
use tp2_so.Fs.Words.{put_bytes}
use tp2_so.Fs.Blocks.{bzero, free_bit, take_block, balloc_loop, balloc, bfree}

-- What the bitmap says of a block.
abbrev pub in_use : Fs → ℕ → Bool
in_use s b = bit (s.blocks (bblock b s.sb)) (b % bpb)

-- What the inner loop finds: the first clear bit in its range, or none.
free_bit_lem :
    (d : Block) (b size n bi : ℕ)
    → ((free_bit d b size n bi ≡ none)
        × ((k : ℕ) → bi ≤ k → k < bi + n → b + k < size → bit d k ≡ true))
      ⊎ ((k : ℕ) × (free_bit d b size n bi ≡ some k)
          × (bi ≤ k)
          × (k < bi + n)
          × (b + k < size)
          × (bit d k ≡ false)
          × ((j : ℕ) → bi ≤ j → j < k → bit d j ≡ true))
unfolding free_bit
free_bit_lem d b size zero bi = inl (refl, λ k lo hi lt. absurd (omega arith))
free_bit_lem d b size (suc n) bi = elim (Bool-cases (ltb (b + bi) size)) [
  | inr out ↦ inl (rw (out, free_bit) refl, λ k lo hi lt. absurd (ground arith))
  | inl in_range ↦ elim (Bool-cases (bit d bi)) [
    | inr free ↦ inr (
      bi,
      rw (in_range, free_bit, free, free_bit) refl,
      ground arith,
      ground arith,
      ground arith,
      free,
      λ j lo hi. absurd (ground arith),
    )
    | inl used ↦ elim (free_bit_lem d b size n (suc bi)) [
      | inl (e, all) ↦ inl (
        rw (in_range, free_bit, used, free_bit) e,
        λ k lo hi lt. elim (Bool-cases (k == bi)) [
          | inl here ↦ subst (λ x. bit d x ≡ true) (sym (ground arith)) used
          | inr later ↦ all k (ground arith) (ground arith) lt
        ],
      )
      | inr (k, e, lo, hi, lt, f, below) ↦ inr (
        k,
        rw (in_range, free_bit, used, free_bit) e,
        ground arith,
        ground arith,
        lt,
        f,
        λ j jlo jhi. elim (Bool-cases (j == bi)) [
          | inl here ↦ subst (λ x. bit d x ≡ true) (sym (ground arith)) used
          | inr later ↦ below j (ground arith) jhi
        ],
      )
    ]
  ]
]

-- The state after block `c` is taken.
abbrev pub taken : ℕ → Fs → Fs
taken c s =
    let t = stored (bblock c s.sb) (set_bit (s.blocks (bblock c s.sb)) (c % bpb)) s in
    record (stored c (put_bytes (t.blocks c) 0 bsize (λ i. 0)) t) {
      logged = c ∷ (bblock c s.sb ∷ s.logged);
    }

take_block_lem :
    (q k : ℕ) (s : Fs)
    → k < bpb
    → take_block (q * bpb) k s ≡ ok (q * bpb + k) (taken (q * bpb + k) s)
unfolding take_block bzero ◌>>=◌
take_block_lem q k s lt =
    let blk : (q * bpb + k) / bpb ≡ q = omega arith in
    let blk0 : (q * bpb) / bpb ≡ q = omega arith in
    let off : (q * bpb + k) % bpb ≡ k = omega arith in rw (blk, blk0, off) refl

abbrev All : Fs → ℕ → Type 0
All s n = (e : ℕ) → e < n → e < s.sb.size → in_use s e ≡ true

-- The blocks of one block of the bitmap.
in_use-bit :
    (s : Fs) (q k : ℕ) → k < bpb → in_use s (q * bpb + k) ≡ bit (s.blocks (bblock (q * bpb) s.sb)) k
in_use-bit s q k lt =
    let blk : (q * bpb + k) / bpb ≡ q = omega arith in
    let blk0 : (q * bpb) / bpb ≡ q = omega arith in
    let off : (q * bpb + k) % bpb ≡ k = omega arith in rw (blk, blk0, off) refl

All-extend :
    (s : Fs) (q n : ℕ)
    → n ≤ bpb
    → All s (q * bpb)
    → ((k : ℕ) → k < n → q * bpb + k < s.sb.size → bit (s.blocks (bblock (q * bpb) s.sb)) k ≡ true)
    → All s (q * bpb + n)
All-extend s q n le all more e lt ls = elim (Bool-cases (ltb e (q * bpb))) [
  | inl before ↦ all e (ground arith) ls
  | inr here ↦
      let split : e ≡ q * bpb + (e - q * bpb) = ground arith in
      let low : e - q * bpb < n = ground arith in
      subst (λ x. in_use s x ≡ true) (sym split)
        (in_use-bit s q (e - q * bpb) (omega arith) ∙ more (e - q * bpb) low (omega arith))
]

-- How a search ends.
abbrev Found : Fs → Run ℕ → Type 0
Found s r =
    ((r ≡ panic) × All s s.sb.size)
    ⊎ ((c : ℕ) × (c < s.sb.size) × (in_use s c ≡ false) × All s c × (r ≡ ok c (taken c s)))

balloc_loop_lem :
    (fuel q : ℕ) (s : Fs)
    → s.sb.size ≤ 2 ^ 31
    → q * bpb < s.sb.size + bpb
    → s.sb.size + bpb ≤ (q + fuel) * bpb
    → All s (q * bpb)
    → Found s (balloc_loop fuel (q * bpb) s)
unfolding balloc_loop
balloc_loop_lem zero q s sz lt enough all = absurd (omega arith)
balloc_loop_lem (suc fuel) q s sz lt enough all = elim (Bool-cases (ltb (q * bpb) s.sb.size)) [
  | inr out ↦ inl (rw (out, balloc_loop) refl, λ e le ls. all e (ground arith) ls)
  | inl in_range ↦
      elim (free_bit_lem (s.blocks (bblock (q * bpb) s.sb)) (q * bpb) s.sb.size bpb 0) [
        | inl (e, full) ↦
            let next : add32 (q * bpb) bpb ≡ suc q * bpb = ground arith in
            let more : All s (q * bpb + bpb) =
              All-extend s q bpb (omega arith) all (λ k lt. full k (omega arith) lt) in
            let step : balloc_loop (suc fuel) (q * bpb) s ≡ balloc_loop fuel (suc q * bpb) s =
              rw (in_range, balloc_loop, e, balloc_loop, next) refl in
            subst (Found s) (sym step) (
              balloc_loop_lem fuel (suc q) s sz (ground arith) (omega arith)
                (subst (All s) (omega arith) more))
        | inr (k, e, lo, hi, below, free, others) ↦ inr (
          q * bpb + k,
          below,
          in_use-bit s q k hi ∙ free,
          All-extend s q k (omega arith) all (λ j lt js. others j (omega arith) lt),
          rw (in_range, balloc_loop, e, balloc_loop) (take_block_lem q k s hi),
        )
      ]
]

balloc-Found : (s : Fs) → s.sb.size ≤ 2 ^ 31 → Found s (balloc s)
unfolding balloc
balloc-Found s sz =
    balloc_loop_lem (s.sb.size / bpb + 2) 0 s sz (omega arith) (omega arith)
      (λ e lt. absurd (omega arith))

-- After the block is taken.
taken_bitmap :
    (s : Fs) (c b : ℕ)
    → c ≢ bblock b s.sb
    → in_use (taken c s) b ≡ (if c == b then true else in_use s b)
taken_bitmap s c b ne = elim (Bool-cases (bblock c s.sb == bblock b s.sb)) [
  | inl same ↦
      let q : bblock c s.sb ≡ bblock b s.sb = ground arith in
      let there : (taken c s).blocks (bblock b s.sb)
          ≡ set_bit (s.blocks (bblock c s.sb)) (c % bpb) =
        ground arith in
      let bits : (c % bpb == b % bpb) ≡ (c == b) = ground arith in
      ap (λ d. bit d (b % bpb)) there
      ∙ bit-set_bit (s.blocks (bblock c s.sb)) (c % bpb) (b % bpb)
      ∙ rw (q, bits) refl
  | inr far ↦ ground arith
]

taken_zero : (s : Fs) (c i : ℕ) → i < bsize → (taken c s).blocks c i ≡ 0
unfolding put_bytes
taken_zero s c i lt = ground arith

taken_other : (s : Fs) (c b : ℕ) → b ≢ c → b ≢ bblock c s.sb → (taken c s).blocks b ≡ s.blocks b
taken_other s c b ne nb = ground arith

-- The blocks of the bitmap are marked in it.
abbrev pub BitmapInUse : Fs → Type 0
BitmapInUse s = (b : ℕ) → b < s.sb.size → in_use s (bblock b s.sb) ≡ true

-- On a disk of at most 2^31 blocks whose bitmap marks its own blocks as in use, `balloc` panics when
-- every block is in use. Otherwise it returns the first block that is not, now full of zeros: the
-- bitmap differs at that block alone, and no block but this and its block of the bitmap is written.
pub balloc_lem :
    (s : Fs)
    → s.sb.size ≤ 2 ^ 31
    → BitmapInUse s
    → ((balloc s ≡ panic) × ((b : ℕ) → b < s.sb.size → in_use s b ≡ true))
      ⊎ ((c : ℕ) × (t : Fs) × (balloc s ≡ ok c t)
          × (c < s.sb.size)
          × (in_use s c ≡ false)
          × ((b : ℕ) → b < c → in_use s b ≡ true)
          × ((b : ℕ) → b < s.sb.size → in_use t b ≡ (if c == b then true else in_use s b))
          × ((i : ℕ) → i < bsize → t.blocks c i ≡ 0)
          × ((b : ℕ) → b ≢ c → b ≢ bblock c s.sb → t.blocks b ≡ s.blocks b))
balloc_lem s sz own = elim (balloc-Found s sz) [
  | inl (e, all) ↦ inl (e, λ b lt. all b lt lt)
  | inr (c, lt, free, before, e) ↦ inr (
    c,
    taken c s,
    e,
    lt,
    free,
    λ b lb. before b lb (omega arith),
    λ b lb. taken_bitmap s c b (λ q. ground (arith, own b lb)),
    taken_zero s c,
    taken_other s c,
  )
]

abbrev pub freed : ℕ → Fs → Fs
freed b s =
    let t = stored (bblock b s.sb) (clear_bit (s.blocks (bblock b s.sb)) (b % bpb)) s in
    record t { logged = bblock b s.sb ∷ s.logged }

freed_bitmap : (s : Fs) (c b : ℕ) → in_use (freed c s) b ≡ (if c == b then false else in_use s b)
freed_bitmap s c b = elim (Bool-cases (bblock c s.sb == bblock b s.sb)) [
  | inl same ↦
      let q : bblock c s.sb ≡ bblock b s.sb = ground arith in
      let there : (freed c s).blocks (bblock b s.sb)
          ≡ clear_bit (s.blocks (bblock c s.sb)) (c % bpb) =
        ground arith in
      let bits : (c % bpb == b % bpb) ≡ (c == b) = ground arith in
      ap (λ d. bit d (b % bpb)) there
      ∙ bit-clear_bit (s.blocks (bblock c s.sb)) (c % bpb) (b % bpb)
      ∙ rw (q, bits) refl
  | inr far ↦ ground arith
]

-- `bfree` of a block that is in use, and of another.
pub bfree_lem : (b : ℕ) (s : Fs) → bfree b s ≡ (if in_use s b then ok tt (freed b s) else panic)
unfolding bfree ◌>>=◌
bfree_lem b s = elim (Bool-cases (in_use s b)) [
  | inl used ↦ rw (used, bfree) refl
  | inr free ↦ rw (free, bfree) refl
]

-- A block can be given back, once.
abbrev Undone : Fs → ℕ → Fs → Type 0
Undone s c t =
    (u : Fs) × (bfree c t ≡ ok tt u)
    × ((b : ℕ) → b < s.sb.size → in_use u b ≡ in_use s b)
    × (bfree c u ≡ panic)

taken-Undone :
    (s : Fs) (c : ℕ) → BitmapInUse s → c < s.sb.size → in_use s c ≡ false → Undone s c (taken c s)
taken-Undone s c own lt free =
    let apart : (b : ℕ) → b < s.sb.size → c ≢ bblock b s.sb = λ b lb q. ground (arith, own b lb) in
    let now : in_use (taken c s) c ≡ true = taken_bitmap s c c (apart c lt) ∙ ground arith in
    let then_free : in_use (freed c (taken c s)) c ≡ false =
      freed_bitmap (taken c s) c c ∙ ground arith in
    (
      freed c (taken c s),
      bfree_lem c (taken c s) ∙ rw now refl,
      λ b lb. freed_bitmap (taken c s) c b ∙ ground (arith, taken_bitmap s c b (apart b lb), free),
      bfree_lem c (freed c (taken c s)) ∙ rw then_free refl,
    )

-- On a disk of at most 2^31 blocks whose bitmap marks its own blocks as in use, a block that `balloc`
-- has just returned can be given back to `bfree`, which restores the whole bitmap; a second `bfree`
-- of the block panics.
pub balloc-bfree :
    (s t : Fs) (c : ℕ)
    → s.sb.size ≤ 2 ^ 31
    → BitmapInUse s
    → balloc s ≡ ok c t
    → (u : Fs) × (bfree c t ≡ ok tt u)
      × ((b : ℕ) → b < s.sb.size → in_use u b ≡ in_use s b)
      × (bfree c u ≡ panic)
balloc-bfree s t c sz own e = elim (balloc-Found s sz) [
  | inl (p, all) ↦ absurd (ground (arith, p))
  | inr (k, lt, free, before, p) ↦
      subst (Gives (Undone s)) (sym p ∙ e) (taken-Undone s k own lt free)
]
