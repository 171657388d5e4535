-- ===== src/Bio/Recency.antt =====
-- Which buffer `bget` of bio.c takes.
use tp2_so.Base.{
  zero_or_suc, suc, ℕ, ◌≡◌, ◌⊎◌, ◌<◌, inl, inr, refl, true, false, none, some, List, [], ◌∷◌,
  get_elem?, modify, find_index, find_index-passes, find_index-none, arith, Option-cases, add32,
}
use tp2_so.Bio.{Buf, same_block, is_spare, recycle, last_spare, bget}

last_spare-none :
    (bs : List Buf)
    → last_spare bs ≡ none
    → (j : ℕ) (c : Buf) → get_elem? bs j ≡ some c
    → is_spare c ≡ false
unfolding last_spare
last_spare-none [] e j c g = absurd (ground arith)
last_spare-none (b ∷ bs) e j c g = elim (Option-cases (last_spare bs)) [
  | inr (k, r) ↦ absurd (ground arith)
  | inl n ↦ elim (zero_or_suc j) [
    | inl z ↦ ground arith
    | inr (k, z) ↦ ground (arith, last_spare-none bs n k c)
  ]
]

-- The buffer at place `i` is spare, and none after it is.
abbrev LastSpare : List Buf → ℕ → Type 0
LastSpare bs i =
    (b : Buf) × (get_elem? bs i ≡ some b)
    × (is_spare b ≡ true)
    × ((j : ℕ) (c : Buf) → i < j → get_elem? bs j ≡ some c → is_spare c ≡ false)

LastSpare-suc : (b : Buf) (bs : List Buf) (i : ℕ) → LastSpare bs i → LastSpare (b ∷ bs) (suc i)
LastSpare-suc b bs i (c, g, h, after) = (
  c,
  g,
  h,
  λ j d lt gd. elim (zero_or_suc j) [
    | inl z ↦ absurd (omega arith)
    | inr (k, z) ↦ ground (arith, after k d)
  ],
)

LastSpare-zero :
    (b : Buf) (bs : List Buf) → is_spare b ≡ true → last_spare bs ≡ none → LastSpare (b ∷ bs) 0
LastSpare-zero b bs h n = (
  b,
  refl,
  h,
  λ j d lt gd. elim (zero_or_suc j) [
    | inl z ↦ absurd (omega arith)
    | inr (k, z) ↦ ground (arith, last_spare-none bs n k d)
  ],
)

last_spare-some : (bs : List Buf) (i : ℕ) → last_spare bs ≡ some i → LastSpare bs i
unfolding last_spare
last_spare-some [] i e = absurd (ground arith)
last_spare-some (b ∷ bs) i e = elim (Option-cases (last_spare bs)) [
  | inr (k, r) ↦
      let at : i ≡ suc k = ground arith in rw at (LastSpare-suc b bs k (last_spare-some bs k r))
  | inl n ↦
      let at : i ≡ 0 = ground arith in
      let spare : is_spare b ≡ true = ground arith in rw at (LastSpare-zero b bs spare n)
]

-- No buffer of the list holds the block.
abbrev pub Uncached : ℕ → ℕ → List Buf → Type 0
Uncached dev blockno bs =
    (j : ℕ) (c : Buf) → get_elem? bs j ≡ some c → same_block dev blockno c ≡ false

-- `bget` on every branch. A block that is cached gets its first buffer, with one more reference.
-- Otherwise the least recently used buffer that is neither referenced nor dirty is given to the block,
-- with one reference and no valid data. It panics where the block is not cached and every buffer is
-- referenced or dirty. No other buffer changes.
pub bget_lem :
    (dev blockno : ℕ) (bs : List Buf)
    → ((i : ℕ) × (b : Buf) × (get_elem? bs i ≡ some b)
        × (same_block dev blockno b ≡ true)
        × (bget dev blockno bs
            ≡ some (i, modify bs i (λ c. record c { refcnt = add32 c.refcnt 1 }))))
      ⊎ ((Uncached dev blockno bs
            × ((i : ℕ) × (b : Buf) × (get_elem? bs i ≡ some b)
                × (is_spare b ≡ true)
                × ((j : ℕ) (c : Buf) → i < j → get_elem? bs j ≡ some c → is_spare c ≡ false)
                × (bget dev blockno bs ≡ some (i, modify bs i (recycle dev blockno)))))
          ⊎ (Uncached dev blockno bs
              × ((j : ℕ) (c : Buf) → get_elem? bs j ≡ some c → is_spare c ≡ false)
              × (bget dev blockno bs ≡ none)))
unfolding bget
bget_lem dev blockno bs = elim (Option-cases (find_index (same_block dev blockno) bs)) [
  | inr (i, e) ↦
      let (b, g, h) = find_index-passes (same_block dev blockno) bs i e in
      inl (i, b, g, h, rw (e, bget) refl)
  | inl miss ↦
      let uncached = find_index-none (same_block dev blockno) bs miss in
      elim (Option-cases (last_spare bs)) [
        | inl n ↦ inr (inr (uncached, last_spare-none bs n, rw (miss, bget, n) refl))
        | inr (i, e) ↦
            let (b, g, h, after) = last_spare-some bs i e in
            inr (inl (uncached, (i, b, g, h, after, rw (miss, bget, e) refl)))
      ]
]
