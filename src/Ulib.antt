-- ===== src/Ulib.antt =====
-- xv6-public/printf.c and `atoi` of ulib.c. The arguments of `putc` are a list.
pub mod Numbers
pub mod Tests
use tp2_so.Base.{
  ℕ, zero, suc, ◌+◌, ◌-◌, ◌*◌, ◌/◌, ◌%◌, ◌^◌, Bool, true, false, List, [], ◌∷◌, ◌++◌, ◌==◌, ◌&&◌,
  ◌||◌, if◌then◌else◌, ltb, leb, u32,
}

-- `digits[d]`
abbrev pub digit : ℕ → ℕ
digit d = if ltb d 10 then 48 + d else 55 + d

-- The loop of `printint`, as in Console/Screen: `buf` from its end to its start.
unfoldable pub digits_of : ℕ → ℕ → ℕ → List ℕ
digits_of zero base x = []
digits_of (suc n) base x =
    let rest = digits_of n base (x / base) in
    if x / base == 0 then digit (x % base) ∷ [] else rest ++ (digit (x % base) ∷ [])

unfoldable pub printint : ℕ → ℕ → Bool → List ℕ
unfolding digits_of
printint xx base sgn =
    if sgn && leb (2 ^ 31) xx
    then 45 ∷ digits_of 11 base (u32 (2 ^ 32 - xx))
    else digits_of 11 base xx

-- "(null)"
abbrev pub null_text : List ℕ
null_text = 40 ∷ 110 ∷ 117 ∷ 108 ∷ 108 ∷ 41 ∷ []

-- The branch of `printf` after a `%`: what is printed, and how many arguments are used.
unfoldable pub directive : (ℕ → List ℕ) → ℕ → ℕ → List ℕ × ℕ
unfolding printint
directive text c arg =
    if c == 100
    then (printint arg 10 true, 1)
    else if c == 120 || c == 112
    then (printint arg 16 false, 1)
    else if c == 115
    then (if arg == 0 then null_text else text arg, 1)
    else if c == 99
    then (arg % 256 ∷ [], 1)
    else if c == 37
    then (37 ∷ [], 0)
    else (37 ∷ c ∷ [], 0)

-- The loop of `printf`, from its `i`-th argument on: whether `state` is `%`, and the rest of `fmt`.
unfoldable pub printf : (ℕ → List ℕ) → (ℕ → ℕ) → ℕ → Bool → List ℕ → List ℕ
unfolding directive
printf text args i state [] = []
printf text args i false (c ∷ fmt) =
    let after_percent = printf text args i true fmt in
    let rest = printf text args i false fmt in if c == 37 then after_percent else c ∷ rest
printf text args i true (c ∷ fmt) =
    let (printed, used) = directive text c (args i) in
    printed ++ printf text args (i + used) false fmt

-- The loop of `atoi`.
unfoldable pub atoi_from : ℕ → List ℕ → ℕ
atoi_from n [] = n
atoi_from n (c ∷ s) =
    let rest = atoi_from ((n * 10 + c - 48) % 2 ^ 32) s in if leb 48 c && leb c 57 then rest else n

abbrev pub atoi : List ℕ → ℕ
atoi s = atoi_from 0 s
