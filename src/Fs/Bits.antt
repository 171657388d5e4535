-- ===== src/Fs/Bits.antt =====
-- xv6-public/fs.c: the bits and the words of a block, its bytes being below 256.
use tp2_so.Base.{
  ℕ, zero, suc, ◌+◌, ◌-◌, ◌*◌, ◌/◌, ◌%◌, ◌^◌, ◌≤◌, ◌≡◌, ◌≢◌, inl, inr, refl, Bool, true, false, not,
  ◌==◌, if◌then◌else◌, arith, sym, ap, ◌∙◌, Bool-cases,
}
use native.Mathlib.Nat.{div-div-eq-div-mul}
use tp2_so.Fs.{Block}

abbrev pub put : Block → ℕ → ℕ → Block
put d i v j = if i == j then v else d j

-- `data[bi/8] & m`, `data[bi/8] |= m` and `data[bi/8] &= ~m`, with `m = 1 << (bi % 8)`.
unfoldable pub bit : Block → ℕ → Bool
bit d bi = not ((d (bi / 8) / 2 ^ (bi % 8)) % 2 == 0)

unfoldable pub set_bit : Block → ℕ → Block
unfolding bit
set_bit d bi = put d (bi / 8) (if bit d bi then d (bi / 8) else d (bi / 8) + 2 ^ (bi % 8))

unfoldable pub clear_bit : Block → ℕ → Block
unfolding bit
clear_bit d bi = put d (bi / 8) (if bit d bi then d (bi / 8) - 2 ^ (bi % 8) else d (bi / 8))

-- Bit 0 is the parity, and bit `k + 1` is bit `k` of the half.
div-half : (x k : ℕ) → x / 2 ^ suc k ≡ (x / 2) / 2 ^ k
div-half x k =
    let twice : 2 ^ suc k ≡ 2 * 2 ^ k = omega arith in
    ap (λ p. x / p) twice ∙ sym (div-div-eq-div-mul x 2 (2 ^ k))

-- A power of two is added to a number without that bit.
add-bit_same : (x k : ℕ) → (x / 2 ^ k) % 2 ≡ 0 → ((x + 2 ^ k) / 2 ^ k) % 2 ≡ 1
add-bit_same x zero e = omega arith
add-bit_same x (suc k) e =
    let halves : (x + 2 ^ suc k) / 2 ≡ x / 2 + 2 ^ k = omega arith in
    let low : (x / 2 / 2 ^ k) % 2 ≡ 0 = ground (arith, div-half x k) in
    ground (arith, div-half (x + 2 ^ suc k) k, halves, add-bit_same (x / 2) k low)

add-bit_other :
    (x k j : ℕ) → k ≢ j → (x / 2 ^ k) % 2 ≡ 0 → ((x + 2 ^ k) / 2 ^ j) % 2 ≡ (x / 2 ^ j) % 2
add-bit_other x zero zero ne e = absurd (ne refl)
add-bit_other x zero (suc j) ne e =
    let halves : (x + 1) / 2 ≡ x / 2 = ground arith in
    ground (arith, div-half (x + 1) j, halves, div-half x j)
add-bit_other x (suc k) zero ne e = ground arith
add-bit_other x (suc k) (suc j) ne e =
    let halves : (x + 2 ^ suc k) / 2 ≡ x / 2 + 2 ^ k = omega arith in
    let low : (x / 2 / 2 ^ k) % 2 ≡ 0 = ground (arith, div-half x k) in
    let rest = add-bit_other (x / 2) k j (λ q. ne (ap suc q)) low in
    ground (arith, div-half (x + 2 ^ suc k) j, halves, div-half x j, rest)

-- It is taken away from a number with that bit.
bit-le : (x k : ℕ) → (x / 2 ^ k) % 2 ≡ 1 → 2 ^ k ≤ x
bit-le x zero e = ground arith
bit-le x (suc k) e =
    let low : (x / 2 / 2 ^ k) % 2 ≡ 1 = ground (arith, div-half x k) in
    omega (arith, bit-le (x / 2) k low)

sub-bit_same : (x k : ℕ) → (x / 2 ^ k) % 2 ≡ 1 → ((x - 2 ^ k) / 2 ^ k) % 2 ≡ 0
sub-bit_same x zero e = ground arith
sub-bit_same x (suc k) e =
    let halves : (x - 2 ^ suc k) / 2 ≡ x / 2 - 2 ^ k = omega arith in
    let low : (x / 2 / 2 ^ k) % 2 ≡ 1 = ground (arith, div-half x k) in
    ground (arith, div-half (x - 2 ^ suc k) k, halves, sub-bit_same (x / 2) k low)

sub-bit_other :
    (x k j : ℕ) → k ≢ j → (x / 2 ^ k) % 2 ≡ 1 → ((x - 2 ^ k) / 2 ^ j) % 2 ≡ (x / 2 ^ j) % 2
sub-bit_other x zero zero ne e = absurd (ne refl)
sub-bit_other x zero (suc j) ne e =
    let halves : (x - 1) / 2 ≡ x / 2 = ground arith in
    ground (arith, div-half (x - 1) j, halves, div-half x j)
sub-bit_other x (suc k) zero ne e = ground (arith, bit-le x (suc k) e)
sub-bit_other x (suc k) (suc j) ne e =
    let halves : (x - 2 ^ suc k) / 2 ≡ x / 2 - 2 ^ k = omega arith in
    let low : (x / 2 / 2 ^ k) % 2 ≡ 1 = ground (arith, div-half x k) in
    let rest = sub-bit_other (x / 2) k j (λ q. ne (ap suc q)) low in
    ground (arith, div-half (x - 2 ^ suc k) j, halves, div-half x j, rest)

-- What the bits are after a write of one.
pub bit-set_bit :
    (d : Block) (bi bj : ℕ) → bit (set_bit d bi) bj ≡ (if bi == bj then true else bit d bj)
unfolding bit set_bit
bit-set_bit d bi bj = elim (Bool-cases (bit d bi)) [
  | inl on ↦ ground arith
  | inr off ↦ elim (Bool-cases (bi == bj)) [
    | inl same ↦ ground (arith, add-bit_same (d (bi / 8)) (bi % 8))
    | inr other ↦ elim (Bool-cases (bi / 8 == bj / 8)) [
      | inl byte ↦ ground (arith, add-bit_other (d (bi / 8)) (bi % 8) (bj % 8) (λ q. ground arith))
      | inr far ↦ ground arith
    ]
  ]
]

pub bit-clear_bit :
    (d : Block) (bi bj : ℕ) → bit (clear_bit d bi) bj ≡ (if bi == bj then false else bit d bj)
unfolding bit clear_bit
bit-clear_bit d bi bj = elim (Bool-cases (bit d bi)) [
  | inl on ↦ elim (Bool-cases (bi == bj)) [
    | inl same ↦ ground (arith, sub-bit_same (d (bi / 8)) (bi % 8))
    | inr other ↦ elim (Bool-cases (bi / 8 == bj / 8)) [
      | inl byte ↦ ground (arith, sub-bit_other (d (bi / 8)) (bi % 8) (bj % 8) (λ q. ground arith))
      | inr far ↦ ground arith
    ]
  ]
  | inr off ↦ ground arith
]
