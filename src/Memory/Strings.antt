-- ===== src/Memory/Strings.antt =====
-- The bounded string functions of string.c.
use tp2_so.Base.{
  zero_or_suc, ==_refl, not, ℕ, zero, suc, ◌+◌, ◌≤◌, ◌<◌, ◌^◌, ◌≡◌, ◌⊎◌, ◌↔◌, inl, inr, refl, ◌==◌,
  if◌then◌else◌, arith, add32, sub32,
}
use tp2_so.Memory.{Mem, write, copy_text, safestrcpy, memcmp}

-- What the loop of `safestrcpy` leaves: it stops inside the buffer, and has written only there.
record Copied (s n : ℕ) (m : Mem) (r : ℕ × Mem) : Type 0 where
  low : s ≤ r.0
  high : r.0 ≤ s + n
  kept : (a : ℕ) → (a < s) ⊎ (s + n ≤ a) → r.1 a ≡ m a

copy_text-Copied : (s t n : ℕ) (m : Mem) → s + n < 2 ^ 32 → Copied s n m (copy_text s t n m)
unfolding copy_text
copy_text-Copied s t zero m h = record { low = omega arith; high = omega arith; kept = λ a o. refl }
copy_text-Copied s t (suc n) m h =
    let s1 : add32 s 1 ≡ s + 1 = omega arith in
    elim (zero_or_suc (m t)) [
      | inl e ↦
          rw (e, copy_text)
            (record { low = omega arith; high = omega arith; kept = λ a o. ground arith })
      | inr (c, e) ↦
          let r = copy_text-Copied (s + 1) (add32 t 1) n (write s (suc c) m) (omega arith) in
          rw (e, copy_text, s1)
            (record {
              low = omega (arith, r.low);
              high = omega (arith, r.high);
              kept = λ a o. ground (arith, r.kept a);
            })
    ]

-- `safestrcpy` with a buffer of `n` bytes writes only inside it, and leaves a 0 in it.
pub safestrcpy_lem :
    (s t n : ℕ) (m : Mem)
    → s + n < 2 ^ 32
    → 0 < n
    → ((a : ℕ) → (a < s) ⊎ (s + n ≤ a) → safestrcpy s t n m a ≡ m a)
      × ((e : ℕ) × (s ≤ e) × (e < s + n) × (safestrcpy s t n m e ≡ 0))
unfolding safestrcpy
safestrcpy_lem s t zero m h pos = absurd (omega arith)
safestrcpy_lem s t (suc n) m h pos =
    let r = copy_text-Copied s t n m (omega arith) in
    (
      λ a o. ground (arith, r.kept a, r.low, r.high),
      ((copy_text s t n m).0, r.low, omega (arith, r.high), ground arith),
    )

same_heads :
    (a b r : ℕ)
    → a < 256
    → b < 256
    → (if not (a == b) then sub32 a b else r) ≡ 0
    → (a ≡ b) × (r ≡ 0)
same_heads a b r ha hb e = (ground arith, ground arith)

cons_same :
    (n v1 v2 : ℕ) (m : Mem)
    → m v1 ≡ m v2
    → ((j : ℕ) → suc j < n → m (suc v1 + j) ≡ m (suc v2 + j))
    → (j : ℕ) → j < n
    → m (v1 + j) ≡ m (v2 + j)
cons_same n v1 v2 m first rest zero lt = ground arith
cons_same n v1 v2 m first rest (suc j) lt = ground (arith, rest j lt)

-- `memcmp` answers 0 exactly when the two ranges hold the same bytes.
pub memcmp-zero_iff :
    (v1 v2 n : ℕ) (m : Mem)
    → v1 + n < 2 ^ 32
    → v2 + n < 2 ^ 32
    → ((a : ℕ) → m a < 256)
    → (memcmp v1 v2 n m ≡ 0) ↔ ((j : ℕ) → j < n → m (v1 + j) ≡ m (v2 + j))
unfolding memcmp
memcmp-zero_iff v1 v2 zero m h1 h2 bytes = (λ e j lt. absurd (omega arith), λ f. refl)
memcmp-zero_iff v1 v2 (suc n) m h1 h2 bytes =
    let one : add32 v1 1 ≡ suc v1 = omega arith in
    let two : add32 v2 1 ≡ suc v2 = omega arith in
    let r = memcmp-zero_iff (suc v1) (suc v2) n m (omega arith) (omega arith) bytes in
    rw (one, two)
      (
        λ e.
            let (first, rest) =
              same_heads (m v1) (m v2) (memcmp (suc v1) (suc v2) n m) (bytes v1) (bytes v2) e in
            cons_same (suc n) v1 v2 m first (λ j lt. r.0 rest j (omega arith)),
        λ f.
            let first : m v1 ≡ m v2 = ground (arith, f 0) in
            rw (first, ==_refl (m v2)) (r.1 (λ j lt. ground (arith, f (suc j)))),
      )
