-- ===== src/Memory/Move.antt =====
-- `memmove` of string.c, with ranges that may overlap.
use tp2_so.Base.{
  ◌∙◌, dec_lt, ℕ, zero, suc, ◌+◌, ◌-◌, ◌≤◌, ◌<◌, ◌^◌, ◌≡◌, ◌⊎◌, inl, inr, refl, false, ◌==◌, ◌&&◌,
  if◌then◌else◌, ltb, leb, arith, Bool-cases, add32, sub32,
}
use tp2_so.Memory.{Mem, write, copy_down, copy_up, memmove}

-- The bytes at `d` are those that `m` has at `s`, and the others are as in `m`.
abbrev pub moved : ℕ → ℕ → ℕ → Mem → ℕ → ℕ
moved s d n m a = if leb d a && ltb a (d + n) then m (s + (a - d)) else m a

copy_down-moved :
    (s d n : ℕ) (m : Mem) (a : ℕ)
    → s < d
    → d + n < 2 ^ 32
    → copy_down (s + n) (d + n) n m a ≡ moved s d n m a
unfolding copy_down
copy_down-moved s d zero m a h b = ground arith
copy_down-moved s d (suc n) m a h b =
    let s1 : sub32 (s + suc n) 1 ≡ s + n = omega arith in
    let d1 : sub32 (d + suc n) 1 ≡ d + n = omega arith in
    rw (s1, d1) (ground (arith, copy_down-moved s d n (write (d + n) (m (s + n)) m) a h))

trichotomy : (a d : ℕ) → (a < d) ⊎ ((a ≡ d) ⊎ (d < a))
trichotomy a d = ground arith

-- One byte more at the front, where the target does not reach into what is still to be read.
later : (s d n : ℕ) → (d ≤ s) ⊎ (s + suc n ≤ d) → (suc d ≤ suc s) ⊎ (suc s + n ≤ suc d)
later s d n h = ground arith

-- A byte past the front is read where it was before the write.
read_later :
    (s d n : ℕ) (m : Mem) (a : ℕ)
    → (d ≤ s) ⊎ (s + suc n ≤ d)
    → d < a
    → a < d + suc n
    → write d (m s) m (suc s + (a - suc d)) ≡ m (s + (a - d))
read_later s d n m a h lo hi =
    let same : suc s + (a - suc d) ≡ s + (a - d) = omega arith in
    let away : (d == s + (a - d)) ≡ false = ground arith in rw (same, away) refl

moved_front :
    (s d n : ℕ) (m : Mem) (a : ℕ)
    → (d ≤ s) ⊎ (s + suc n ≤ d)
    → moved (suc s) (suc d) n (write d (m s) m) a ≡ moved s d (suc n) m a
moved_front s d n m a h = elim (trichotomy a d) [
  | inl lt ↦ ground arith
  | inr (inl eq) ↦ ground arith
  | inr (inr gt) ↦ elim (dec_lt a (d + suc n)) [
    | yes hi ↦ ground (arith, read_later s d n m a h gt hi)
    | no out ↦ ground arith
  ]
]

copy_up-moved :
    (s d n : ℕ) (m : Mem) (a : ℕ)
    → (d ≤ s) ⊎ (s + n ≤ d)
    → s + n < 2 ^ 32
    → d + n < 2 ^ 32
    → copy_up s d n m a ≡ moved s d n m a
unfolding copy_up
copy_up-moved s d zero m a h bs bd = ground arith
copy_up-moved s d (suc n) m a h bs bd =
    let s1 : add32 s 1 ≡ suc s = omega arith in
    let d1 : add32 d 1 ≡ suc d = omega arith in
    rw (s1, d1)
      (copy_up-moved (suc s) (suc d) n (write d (m s) m) a (later s d n h) (omega arith)
          (omega arith)
        ∙ moved_front s d n m a h)

-- `memmove` of a range that ends inside the address space, to one that does, overlapping or not: the
-- target has the bytes that the source had before, and every other byte is as it was.
pub memmove_lem :
    (dst src n : ℕ) (m : Mem)
    → src + n < 2 ^ 32
    → dst + n < 2 ^ 32
    → (a : ℕ)
    → memmove dst src n m a ≡ (if leb dst a && ltb a (dst + n) then m (src + (a - dst)) else m a)
unfolding memmove
memmove_lem dst src n m hs hd a =
    let s1 : add32 src n ≡ src + n = omega arith in
    let d1 : add32 dst n ≡ dst + n = omega arith in
    elim (Bool-cases (ltb src dst && ltb dst (src + n))) [
      | inl b ↦ rw (s1, d1, b, memmove) (copy_down-moved src dst n m a (ground arith) hd)
      | inr b ↦ rw (s1, b, memmove) (copy_up-moved src dst n m a (ground arith) hs hd)
    ]
