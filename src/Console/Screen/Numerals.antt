-- ===== src/Console/Screen/Numerals.antt =====
-- console.c: what `printint` prints.
use tp2_so.Base.{
  ℕ, zero, suc, ◌+◌, ◌-◌, ◌*◌, ◌/◌, ◌%◌, ◌^◌, ◌≤◌, ◌<◌, ◌≡◌, ◌≢◌, ◌⊎◌, inl, inr, refl, sym, ◌∙◌, ap,
  subst, Bool, true, List, [], ◌∷◌, ◌++◌, ◌==◌, ◌&&◌, if◌then◌else◌, ltb, length, arith, Bool-cases,
}
use tp2_so.Console.Screen.{digit, digits_of, is_negative, printint}
use tp2_so.Console.Screen.Digits.{value, FitsIn, less_fits, IsBase, bases, digits_of_lem}

-- A character from the `base` first of "0123456789abcdef".
abbrev pub IsDigit : ℕ → ℕ → Type 0
IsDigit base c = ((48 ≤ c) × (c ≤ 57) × (c < 48 + base)) ⊎ ((97 ≤ c) × (c ≤ 102) × (c < 87 + base))

pub data Digits (base : ℕ) : List ℕ → Type 0 where
  no_more : Digits base []
  one_more : (c : ℕ) (cs : List ℕ) → IsDigit base c → Digits base cs → Digits base (c ∷ cs)

-- Digits of the base without a leading zero; but the number 0 is one zero.
pub data Numeral (base : ℕ) : List ℕ → Type 0 where
  just_zero : Numeral base (48 ∷ [])
  positive :
      (c : ℕ) (cs : List ℕ) → c ≢ 48 → IsDigit base c → Digits base cs → Numeral base (c ∷ cs)

digit-IsDigit : (base d : ℕ) → d < base → d < 16 → IsDigit base (digit d)
digit-IsDigit base d less small = elim (Bool-cases (ltb d 10)) [
  | inl decimal ↦ rw decimal (inl (omega arith, ground arith, omega arith))
  | inr letter ↦ rw letter (inr (ground arith, omega arith, omega arith))
]

Digits-snoc :
    (base : ℕ) (cs : List ℕ) (c : ℕ)
    → Digits base cs
    → IsDigit base c
    → Digits base (cs ++ (c ∷ []))
Digits-snoc base [] c no_more h = one_more c [] h no_more
Digits-snoc base (x ∷ cs) c (one_more _ _ g ds) h =
    one_more x (cs ++ (c ∷ [])) g (Digits-snoc base cs c ds h)

-- A numeral that does not start with a zero goes on.
abbrev Positive : ℕ → List ℕ → Type 0
Positive base s =
    (c : ℕ) × (cs : List ℕ) × (s ≡ c ∷ cs) × (c ≢ 48) × IsDigit base c × Digits base cs

Positive-Numeral : (base : ℕ) (s : List ℕ) → Positive base s → Numeral base s
Positive-Numeral base s (c, cs, e, ne, h, ds) = subst (Numeral base) (sym e) (positive c cs ne h ds)

only_digit : (base x : ℕ) → IsBase base → (x / base == 0) ≡ true → x % base ≡ x
only_digit base x b last =
    let none_left : x / base ≡ 0 = ground arith in
    let alone : 0 * base + x % base ≡ x =
      ap (λ k. k * base + x % base) (sym none_left) ∙ b.whole x in
    omega (arith, alone)

last-Positive :
    (n base x : ℕ)
    → IsBase base
    → (x / base == 0) ≡ true
    → x ≢ 0
    → Positive base (digits_of (suc n) base x)
unfolding digits_of
last-Positive n base x b last ne =
    let all = only_digit base x b last in
    let some_digit : digit (x % base) ≢ 48 = λ e. ne (ground (arith, all)) in
    rw last (
      digit (x % base),
      [],
      refl,
      some_digit,
      digit-IsDigit base (x % base) (b.less x) (b.small x),
      no_more,
    )

digits_of-Positive :
    (n base x : ℕ)
    → IsBase base
    → FitsIn n (x / 8)
    → x ≢ 0
    → Positive base (digits_of (suc n) base x)
unfolding digits_of
digits_of-Positive zero base x b f ne =
    last-Positive zero base x b (let le = b.eighth x in ground arith) ne
digits_of-Positive (suc n) base x b f ne = elim (Bool-cases (x / base == 0)) [
  | inl last ↦ last-Positive (suc n) base x b last ne
  | inr goes_on ↦
      let le = b.eighth x in
      let less : x / base / 8 ≤ x / 8 / 8 = omega arith in
      let (c, cs, e, c_ne, h, ds) =
        digits_of-Positive n base (x / base) b (less_fits n (x / base / 8) (x / 8 / 8) less f)
          (ground arith) in
      let here = digit-IsDigit base (x % base) (b.less x) (b.small x) in
      rw goes_on (
        c,
        cs ++ (digit (x % base) ∷ []),
        ap (λ s. s ++ (digit (x % base) ∷ [])) e,
        c_ne,
        h,
        Digits-snoc base cs (digit (x % base)) ds here,
      )
]

digits_of-Numeral :
    (n base x : ℕ) → IsBase base → FitsIn n (x / 8) → Numeral base (digits_of (suc n) base x)
unfolding digits_of
digits_of-Numeral n base x b f = elim (Bool-cases (x == 0)) [
  | inr nonzero ↦
      Positive-Numeral base (digits_of (suc n) base x)
        (digits_of-Positive n base x b f (ground arith))
  | inl null ↦
      let z : x ≡ 0 = ground arith in
      let le = b.eighth x in
      let last : (x / base == 0) ≡ true = ground arith in
      let all = only_digit base x b last in
      let it : digit (x % base) ≡ 48 = ground (arith, all, z) in
      rw last (subst (λ c. Numeral base (c ∷ [])) (sym it) just_zero)
]

-- What was printed for the word `xx`: a minus sign if it is negative and `sign` is set, and the numeral
-- of its magnitude; they and the sign fit in the 16 bytes of `buf`.
pub record Printed (base xx : ℕ) (sign : Bool) : Type 0 where
  pub digits : List ℕ
  pub shown : printint xx base sign ≡ (if sign && is_negative xx then 45 ∷ digits else digits)
  pub numeral : Numeral base digits
  pub number : value base 0 digits ≡ (if sign && is_negative xx then 2 ^ 32 - xx else xx)
  pub room : length (printint xx base sign) ≤ 16

-- In base 10 or 16, `printint` prints any 32-bit word: a minus sign if `sign` is set and the word is a
-- negative `int`, and then the numeral of its magnitude, or of the word itself if there is no minus sign: characters
-- from the first 10 or 16 of "0123456789abcdef" that denote it, without a leading zero except for the
-- number 0. `buf`, of 16 bytes, is long enough.
pub printint_lem :
    (base xx : ℕ) (sign : Bool) → (base ≡ 10) ⊎ (base ≡ 16) → xx < 2 ^ 32 → Printed base xx sign
unfolding printint
printint_lem base xx sign e h = elim (Bool-cases (sign && is_negative xx)) [
  | inl negative ↦
      let x = (2 ^ 32 - xx) % 2 ^ 32 in
      let (v, l) = digits_of_lem 10 base x (bases base e) (omega arith) in
      let size : x ≡ 2 ^ 32 - xx = ground arith in
      record {
        digits = digits_of 11 base x;
        shown = rw negative refl;
        numeral = digits_of-Numeral 10 base x (bases base e) (omega arith);
        number = rw negative (v ∙ size);
        room = rw negative (omega (arith, l));
      }
  | inr other ↦
      let (v, l) = digits_of_lem 10 base xx (bases base e) (omega arith) in
      record {
        digits = digits_of 11 base xx;
        shown = rw other refl;
        numeral = digits_of-Numeral 10 base xx (bases base e) (omega arith);
        number = rw other v;
        room = rw other (omega (arith, l));
      }
]
