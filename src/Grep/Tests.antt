-- ===== src/Grep/Tests.antt =====
-- Patterns for grep.c.
use tp2_so.Base.{ℕ, List}
use tp2_so.Grep.{grep, scan, search_text}
use tp2_so.Base.{true, false, [], ◌∷◌, ◌≡◌, refl}
use tp2_so.Grep.{match, matchhere, matchstar}
use tp2_so.Grep.Matches.{Means, match_iff}

-- `^a*b$` and "aab".
match_iff_example :
    (match (94 ∷ 97 ∷ 42 ∷ 98 ∷ 36 ∷ []) (97 ∷ 97 ∷ 98 ∷ []) ≡ true
      → Means (94 ∷ 97 ∷ 42 ∷ 98 ∷ 36 ∷ []) (97 ∷ 97 ∷ 98 ∷ []))
    × (Means (94 ∷ 97 ∷ 42 ∷ 98 ∷ 36 ∷ []) (97 ∷ 97 ∷ 98 ∷ [])
        → match (94 ∷ 97 ∷ 42 ∷ 98 ∷ 36 ∷ []) (97 ∷ 97 ∷ 98 ∷ []) ≡ true)
match_iff_example = match_iff (94 ∷ 97 ∷ 42 ∷ 98 ∷ 36 ∷ []) (97 ∷ 97 ∷ 98 ∷ [])

it_matches : match (94 ∷ 97 ∷ 42 ∷ 98 ∷ 36 ∷ []) (97 ∷ 97 ∷ 98 ∷ []) ≡ true
unfolding match matchhere matchstar
it_matches = refl

it_fails : match (94 ∷ 97 ∷ 36 ∷ []) (97 ∷ 97 ∷ []) ≡ false
unfolding match matchhere
it_fails = refl

-- "a", newline, "b"; then "a", newline.
abbrev first_read : List ℕ
first_read = 97 ∷ 10 ∷ 98 ∷ []

abbrev second_read : List ℕ
second_read = 97 ∷ 10 ∷ []

both_parts : grep (98 ∷ []) [] (first_read ∷ second_read ∷ []) ≡ 98 ∷ 97 ∷ 10 ∷ []
unfolding grep scan match search_text matchhere
both_parts = refl

-- A read without a newline is forgotten.
forgotten : grep (97 ∷ []) [] ((98 ∷ []) ∷ second_read ∷ []) ≡ second_read
unfolding grep scan match search_text matchhere
forgotten = refl
