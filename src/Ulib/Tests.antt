-- ===== src/Ulib/Tests.antt =====
-- A number for printf.c and ulib.c.
use tp2_so.Base.{◌+◌, ◌*◌, [], ◌∷◌, ◌≡◌, refl, false, arith}
use tp2_so.Ulib.{printf, directive, printint, digits_of, atoi}
use tp2_so.Ulib.Numbers.{Ends, printf-atoi}

-- "%x-%d" of 4095 and 43981.
printed :
    printf (λ a. []) (λ i. 4095 + i * 39886) 0 false (37 ∷ 120 ∷ 45 ∷ 37 ∷ 100 ∷ [])
    ≡ 70 ∷ 70 ∷ 70 ∷ 45 ∷ 52 ∷ 51 ∷ 57 ∷ 56 ∷ 49 ∷ []
unfolding printf directive printint digits_of
printed = refl

then_newline : Ends (printf (λ a. []) (λ i. 705) 1 false (10 ∷ []))
unfolding printf
then_newline = refl

printf-atoi_example : atoi (printf (λ a. []) (λ i. 705) 0 false (37 ∷ 100 ∷ 10 ∷ [])) ≡ 705
printf-atoi_example = printf-atoi (λ a. []) (λ i. 705) (10 ∷ []) (omega arith) then_newline
