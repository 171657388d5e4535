-- ===== src/Fs/Words.antt =====
-- xv6-public/fs.c: the 16-bit and 32-bit numbers in a block, least byte first, and runs of bytes.
use tp2_so.Base.{
  ℕ, zero, suc, ◌+◌, ◌-◌, ◌*◌, ◌/◌, ◌%◌, ◌^◌, ◌≤◌, ◌<◌, ◌≡◌, ◌⊎◌, inl, inr, ◌==◌, ◌&&◌,
  if◌then◌else◌, ltb, leb, arith, List, [], ◌∷◌,
}
use tp2_so.Fs.{Block}
use tp2_so.Fs.Bits.{put}

unfoldable pub get16 : Block → ℕ → ℕ
get16 d o = d o + d (o + 1) * 256

unfoldable pub get32 : Block → ℕ → ℕ
get32 d o = d o + (d (o + 1) + (d (o + 2) + d (o + 3) * 256) * 256) * 256

unfoldable pub put16 : Block → ℕ → ℕ → Block
put16 d o v = put (put d o (v % 256)) (o + 1) (v / 256 % 256)

unfoldable pub put32 : Block → ℕ → ℕ → Block
unfolding put16
put32 d o v = put16 (put16 d o (v % 65536)) (o + 2) (v / 65536)

-- `memmove` of `m` bytes out of a block, and into one from the bytes of `src` from place `k` on.
unfoldable pub bytes_from : Block → ℕ → ℕ → List ℕ
bytes_from d o zero = []
bytes_from d o (suc m) = d o ∷ bytes_from d (o + 1) m

unfoldable pub put_bytes : Block → ℕ → ℕ → (ℕ → ℕ) → Block
put_bytes d o m src j = if leb o j && ltb j (o + m) then src (j - o) else d j

pub get32-put32 :
    (d : Block) (o v p : ℕ)
    → v < 2 ^ 32
    → (p ≡ o) ⊎ ((p + 4 ≤ o) ⊎ (o + 4 ≤ p))
    → get32 (put32 d o v) p ≡ (if o == p then v else get32 d p)
unfolding get32 put32 put16
get32-put32 d o v p lt (inl same) = ground arith
get32-put32 d o v p lt (inr far) = ground arith
