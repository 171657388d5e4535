-- ===== src/Console/Screen/Digits.antt =====
-- console.c: the number that the digits of `printint` denote.
use tp2_so.Base.{
  ℕ, zero, suc, ◌+◌, ◌-◌, ◌*◌, ◌/◌, ◌%◌, ◌≤◌, ◌<◌, ◌≡◌, ◌⊎◌, inl, inr, refl, sym, ◌∙◌, ap, subst,
  true, List, [], ◌∷◌, ◌++◌, ◌==◌, if◌then◌else◌, ltb, length, arith, Bool-cases,
}
use tp2_so.Console.Screen.{digit, digits_of}

abbrev pub digit_value : ℕ → ℕ
digit_value c = if ltb c 58 then c - 48 else c - 87

-- The number that digits denote, after those for `n`.
abbrev pub value : ℕ → ℕ → List ℕ → ℕ
value base n [] = n
value base n (c ∷ cs) = value base (n * base + digit_value c) cs

abbrev pub FitsIn : ℕ → ℕ → Type 0
FitsIn zero x = x ≡ 0
FitsIn (suc n) x = FitsIn n (x / 8)

pub less_fits : (n x y : ℕ) → x ≤ y → FitsIn n y → FitsIn n x
less_fits zero x y le f = omega arith
less_fits (suc n) x y le f = less_fits n (x / 8) (y / 8) (omega arith) f

value-append :
    (base n : ℕ) (cs : List ℕ) (c : ℕ)
    → value base n (cs ++ (c ∷ [])) ≡ value base n cs * base + digit_value c
value-append base n [] c = refl
value-append base n (d ∷ cs) c = value-append base (n * base + digit_value d) cs c

length_snoc : (cs : List ℕ) (c : ℕ) → length (cs ++ (c ∷ [])) ≡ suc (length cs)
length_snoc [] c = refl
length_snoc (d ∷ cs) c = ap suc (length_snoc cs c)

-- What the loop needs of a base.
pub record IsBase (base : ℕ) : Type 0 where
  pub whole : (x : ℕ) → x / base * base + x % base ≡ x
  pub small : (x : ℕ) → x % base < 16
  pub less : (x : ℕ) → x % base < base
  pub eighth : (x : ℕ) → x / base ≤ x / 8

pub bases : (base : ℕ) → (base ≡ 10) ⊎ (base ≡ 16) → IsBase base
bases base (inl e) = subst IsBase (sym e) (record {
  whole = λ x. omega arith;
  small = λ x. omega arith;
  less = λ x. omega arith;
  eighth = λ x. omega arith;
})
bases base (inr e) = subst IsBase (sym e) (record {
  whole = λ x. omega arith;
  small = λ x. omega arith;
  less = λ x. omega arith;
  eighth = λ x. omega arith;
})

digit-value : (d : ℕ) → d < 16 → digit_value (digit d) ≡ d
digit-value d h = ground arith

last_digit :
    (n base x : ℕ)
    → IsBase base
    → (x / base == 0) ≡ true
    → (value base 0 (digits_of (suc n) base x) ≡ x) × (length (digits_of (suc n) base x) ≤ suc n)
unfolding digits_of
last_digit n base x b last =
    let none_left : x / base ≡ 0 = ground arith in
    rw last (
      ap (λ k. k * base + digit_value (digit (x % base))) (sym none_left)
          ∙ ap (λ k. x / base * base + k) (digit-value (x % base) (b.small x))
          ∙ b.whole x,
      omega arith,
    )

pub digits_of_lem :
    (n base x : ℕ)
    → IsBase base
    → FitsIn n (x / 8)
    → (value base 0 (digits_of (suc n) base x) ≡ x) × (length (digits_of (suc n) base x) ≤ suc n)
unfolding digits_of
digits_of_lem zero base x b f = last_digit zero base x b (let le = b.eighth x in ground arith)
digits_of_lem (suc n) base x b f = elim (Bool-cases (x / base == 0)) [
  | inl last ↦ last_digit (suc n) base x b last
  | inr goes_on ↦
      let less : x / base / 8 ≤ x / 8 / 8 = let le = b.eighth x in omega arith in
      let (v, l) =
        digits_of_lem n base (x / base) b (less_fits n (x / base / 8) (x / 8 / 8) less f) in
      let ds = digits_of (suc n) base (x / base) in
      rw goes_on (
        value-append base 0 ds (digit (x % base))
            ∙ ap (λ y. y * base + digit_value (digit (x % base))) v
            ∙ ap (λ y. x / base * base + y) (digit-value (x % base) (b.small x))
            ∙ b.whole x,
        omega (arith, length_snoc ds (digit (x % base)), l),
      )
]
