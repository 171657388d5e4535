-- ===== src/Ulib/Numbers.antt =====
-- ulib.c and printf.c: numbers that are printed and read back.
use tp2_so.Base.{
  ℕ, zero, suc, ◌+◌, ◌-◌, ◌*◌, ◌/◌, ◌%◌, ◌^◌, ◌≤◌, ◌<◌, ◌≡◌, inl, inr, refl, ◌∙◌, ap, ap₂, true,
  false, List, [], ◌∷◌, ◌++◌, ◌==◌, ◌&&◌, if◌then◌else◌, leb, arith, Bool-cases,
}
use tp2_so.Console.Screen.Digits.{digit_value, value, bases, digits_of_lem}
use tp2_so.Console.Screen
use tp2_so.Ulib.{digit, digits_of, printint, directive, printf, atoi_from, atoi}

pub data Digits : List ℕ → Type 0 where
  empty : Digits []
  more : (c : ℕ) (s : List ℕ) → 48 ≤ c → c ≤ 57 → Digits s → Digits (c ∷ s)

-- A text that goes on after a number.
abbrev pub Ends : List ℕ → Type 0
Ends [] = Unit {0}
Ends (c ∷ s) = (leb 48 c && leb c 57) ≡ false

Digits-snoc : (s : List ℕ) (c : ℕ) → Digits s → 48 ≤ c → c ≤ 57 → Digits (s ++ (c ∷ []))
Digits-snoc [] c empty a b = more c [] a b empty
Digits-snoc (x ∷ s) c (more _ _ d e h) a b = more x (s ++ (c ∷ [])) d e (Digits-snoc s c h a b)

digits_of-Digits : (n x : ℕ) → Digits (digits_of n 10 x)
unfolding digits_of
digits_of-Digits zero x = empty
digits_of-Digits (suc n) x =
    let low : 48 ≤ digit (x % 10) = ground arith in
    let high : digit (x % 10) ≤ 57 = ground arith in
    elim (Bool-cases (x / 10 == 0)) [
      | inl last ↦ rw last (more (digit (x % 10)) [] low high empty)
      | inr goes_on ↦ rw goes_on (
          Digits-snoc (digits_of n 10 (x / 10)) (digit (x % 10)) (digits_of-Digits n (x / 10)) low
            high)
    ]

-- The digits of the kernel's `printint` in base 10.
digits_of-digits_of : (n x : ℕ) → digits_of n 10 x ≡ Screen.digits_of n 10 x
unfolding digits_of Screen.digits_of
digits_of-digits_of zero x = refl
digits_of-digits_of (suc n) x =
    let d : digit (x % 10) ≡ Screen.digit (x % 10) = ground arith in
    ap₂ (λ c r. if x / 10 == 0 then c ∷ [] else r ++ (c ∷ [])) d (digits_of-digits_of n (x / 10))

atoi_from-value :
    (s after : List ℕ) (n : ℕ)
    → Digits s
    → Ends after
    → atoi_from (n % 2 ^ 32) (s ++ after) ≡ value 10 n s % 2 ^ 32
unfolding atoi_from
atoi_from-value [] [] n empty e = refl
atoi_from-value [] (c ∷ after) n empty e = rw e refl
atoi_from-value (c ∷ s) after n (more _ _ a b d) e =
    let is_digit : (leb 48 c && leb c 57) ≡ true = ground arith in
    let m = n * 10 + digit_value c in
    let step : (n % 2 ^ 32 * 10 + c - 48) % 2 ^ 32 ≡ m % 2 ^ 32 = ground arith in
    rw is_digit (ap (λ k. atoi_from k (s ++ after)) step ∙ atoi_from-value s after m d e)

-- Let `printf` print a number below 2 ^ 31 with `%d`, at the end of its format or before text that does
-- not start with a digit. Then `atoi` of what is printed is the number.
pub printf-atoi :
    (text : ℕ → List ℕ) (args : ℕ → ℕ) (fmt : List ℕ)
    → args 0 < 2 ^ 31
    → Ends (printf text args 1 false fmt)
    → atoi (printf text args 0 false (37 ∷ 100 ∷ fmt)) ≡ args 0
unfolding printf directive printint
printf-atoi text args fmt h e =
    let x = args 0 in
    let after = printf text args 1 false fmt in
    let positive : leb (2 ^ 31) x ≡ false = ground arith in
    let (v, _) = digits_of_lem 10 10 x (bases 10 (inl refl)) (omega arith) in
    rw positive (
      atoi_from-value (digits_of 11 10 x) after 0 (digits_of-Digits 11 x) e
      ∙ ap (λ s. value 10 0 s % 2 ^ 32) (digits_of-digits_of 11 x)
      ∙ ap (λ m. m % 2 ^ 32) v
      ∙ omega arith)
