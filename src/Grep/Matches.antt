-- ===== src/Grep/Matches.antt =====
-- grep.c: the matcher against what a pattern means.
use tp2_so.Base.{
  ℕ, ◌≡◌, ◌≢◌, ◌⊎◌, inl, inr, refl, sym, ◌∙◌, ap, subst, Bool, true, false, List, [], ◌∷◌, ◌==◌,
  if◌then◌else◌, arith, Bool-cases,
}
use tp2_so.Grep.{
  many, line_start, line_end, fits, matchstar, match_one, is_empty, matchhere, search_text, match,
}

-- `u` is what is left of `t` after some characters that fit `c`.
pub data Skips (c : ℕ) : List ℕ → List ℕ → Type 0 where
  stop : (t : List ℕ) → Skips c t t
  skip : (x : ℕ) (t u : List ℕ) → fits c x ≡ true → Skips c t u → Skips c (x ∷ t) u

-- A character of a pattern is by itself if no `*` follows it, and it is not a `$` at the end.
abbrev pub Alone : ℕ → List ℕ → Type 0
Alone c [] = c ≢ line_end
Alone c (d ∷ re) = d ≢ many

-- The pattern matches a start of the text.
pub data Matches : List ℕ → List ℕ → Type 0 where
  nothing : (t : List ℕ) → Matches [] t
  at_end : (c : ℕ) → c ≡ line_end → Matches (c ∷ []) []
  one :
      (c x : ℕ) (re t : List ℕ)
      → Alone c re
      → fits c x ≡ true
      → Matches re t
      → Matches (c ∷ re) (x ∷ t)
  star :
      (c d : ℕ) (re t u : List ℕ) → d ≡ many → Skips c t u → Matches re u → Matches (c ∷ d ∷ re) t

matchstar-Skips :
    (here : List ℕ → Bool) (c : ℕ) (t : List ℕ)
    → matchstar here c t ≡ true
    → (u : List ℕ) × Skips c t u × (here u ≡ true)
unfolding matchstar
matchstar-Skips here c [] e = ([], stop [], e)
matchstar-Skips here c (x ∷ t) e = elim (Bool-cases (here (x ∷ t))) [
  | inl now ↦ (x ∷ t, stop (x ∷ t), now)
  | inr later ↦
      let f : fits c x ≡ true = ground arith in
      let go : matchstar here c t ≡ true = ground arith in
      let (u, s, h) = matchstar-Skips here c t go in (u, skip x t u f s, h)
]

Skips-matchstar :
    (here : List ℕ → Bool) (c : ℕ) (t u : List ℕ)
    → Skips c t u
    → here u ≡ true
    → matchstar here c t ≡ true
unfolding matchstar
Skips-matchstar here c [] u (stop _) h = h
Skips-matchstar here c (x ∷ t) u (stop _) h = ground arith
Skips-matchstar here c (x ∷ t) u (skip _ _ _ f s) h =
    let go = Skips-matchstar here c t u s h in ground arith

one_of :
    (here : List ℕ → Bool) (c : ℕ) (t : List ℕ)
    → match_one here c t ≡ true
    → (x : ℕ) × (u : List ℕ) × (t ≡ x ∷ u) × (fits c x ≡ true) × (here u ≡ true)
one_of here c [] e = absurd (cc e)
one_of here c (x ∷ u) e = (x, u, refl, ground arith, ground arith)

empty_text : (t : List ℕ) → is_empty t ≡ true → t ≡ []
empty_text [] e = refl
empty_text (x ∷ t) e = absurd (cc e)

one-Matches :
    (c : ℕ) (re t : List ℕ)
    → Alone c re
    → ((u : List ℕ) → matchhere re u ≡ true → Matches re u)
    → match_one (matchhere re) c t ≡ true
    → Matches (c ∷ re) t
one-Matches c re t alone rest e =
    let (x, u, q, f, h) = one_of (matchhere re) c t e in
    subst (Matches (c ∷ re)) (sym q) (one c x re u alone f (rest u h))

matchhere-Matches : (re t : List ℕ) → matchhere re t ≡ true → Matches re t
unfolding matchhere
matchhere-Matches [] t e = nothing t
matchhere-Matches (c ∷ []) t e = elim (Bool-cases (c == line_end)) [
  | inl last ↦
      let none_left : is_empty t ≡ true =
        ap (λ b. if b then is_empty t else match_one (matchhere []) c t) (sym last) ∙ e in
      subst (Matches (c ∷ [])) (sym (empty_text t none_left)) (at_end c (ground arith))
  | inr other ↦
      one-Matches c [] t (ground arith) (matchhere-Matches [])
        (ap (λ b. if b then is_empty t else match_one (matchhere []) c t) (sym other) ∙ e)
]
matchhere-Matches (c ∷ d ∷ re) t e =
    let here = matchhere (d ∷ re) in
    elim (Bool-cases (d == many)) [
      | inl starred ↦
          let (u, s, h) = matchstar-Skips (matchhere re) c t (
            ap (λ b. if b then matchstar (matchhere re) c t else match_one here c t) (sym starred)
            ∙ e) in
          star c d re t u (ground arith) s (matchhere-Matches re u h)
      | inr other ↦
          one-Matches c (d ∷ re) t (ground arith) (matchhere-Matches (d ∷ re)) (
            ap (λ b. if b then matchstar (matchhere re) c t else match_one here c t) (sym other)
            ∙ e)
    ]

Matches-matchhere : (re t : List ℕ) → Matches re t → matchhere re t ≡ true
unfolding matchhere
Matches-matchhere [] t m = refl
Matches-matchhere (c ∷ []) [] (at_end _ e) = ground arith
Matches-matchhere (c ∷ []) (x ∷ t) (one _ _ _ _ alone f m) = ground arith
Matches-matchhere (c ∷ d ∷ re) (x ∷ t) (one _ _ _ _ alone f m) =
    let go = Matches-matchhere (d ∷ re) t m in
    let other : (d == many) ≡ false = ground arith in rw (other, f) go
Matches-matchhere (c ∷ d ∷ re) t (star _ _ _ _ u e s m) =
    let go = Matches-matchhere re u m in
    let starred : (d == many) ≡ true = ground arith in
    rw starred (Skips-matchstar (matchhere re) c t u s go)

-- The pattern matches somewhere in the text.
pub data Occurs (re : List ℕ) : List ℕ → Type 0 where
  first : (t : List ℕ) → Matches re t → Occurs re t
  later : (x : ℕ) (t : List ℕ) → Occurs re t → Occurs re (x ∷ t)

search_text-Occurs : (re t : List ℕ) → search_text re t ≡ true → Occurs re t
unfolding search_text
search_text-Occurs re [] e = first [] (matchhere-Matches re [] e)
search_text-Occurs re (x ∷ t) e = elim (Bool-cases (matchhere re (x ∷ t))) [
  | inl now ↦ first (x ∷ t) (matchhere-Matches re (x ∷ t) now)
  | inr not_now ↦ later x t (search_text-Occurs re t (ground arith))
]

Occurs-search_text : (re t : List ℕ) → Occurs re t → search_text re t ≡ true
unfolding search_text
Occurs-search_text re [] (first _ m) = Matches-matchhere re [] m
Occurs-search_text re (x ∷ t) (first _ m) = let now = Matches-matchhere re (x ∷ t) m in ground arith
Occurs-search_text re (x ∷ t) (later _ _ o) = let found = Occurs-search_text re t o in ground arith

-- What a whole pattern means: a `^` at its start ties the rest to the start of the text.
abbrev pub Means : List ℕ → List ℕ → Type 0
Means [] t = Occurs [] t
Means (c ∷ re) t = ((c ≡ line_start) × Matches re t) ⊎ ((c ≢ line_start) × Occurs (c ∷ re) t)

-- `match` answers 1 for a pattern and a text if and only if the pattern means the text: `^` at the start
-- and `$` at the end are the ends of the text, `c*` is any number of characters that fit `c`, `.` fits
-- every character, and any other character itself.
pub match_iff :
    (re t : List ℕ) → (match re t ≡ true → Means re t) × (Means re t → match re t ≡ true)
unfolding match
match_iff [] t = (search_text-Occurs [] t, Occurs-search_text [] t)
match_iff (c ∷ re) t = elim (Bool-cases (c == line_start)) [
  | inl start ↦
      let is_start : c ≡ line_start = ground arith in
      let step : match (c ∷ re) t ≡ matchhere re t = rw (start, match) refl in
      (
        λ e. inl (is_start, matchhere-Matches re t (sym step ∙ e)),
        λ m. elim m [
          | inl (_, h) ↦ step ∙ Matches-matchhere re t h
          | inr (isnt, _) ↦ absurd (isnt is_start)
        ],
      )
  | inr other ↦
      let not_start : c ≢ line_start = ground arith in
      let step : match (c ∷ re) t ≡ search_text (c ∷ re) t = rw (other, match) refl in
      (
        λ e. inr (not_start, search_text-Occurs (c ∷ re) t (sym step ∙ e)),
        λ m. elim m [
          | inl (is, _) ↦ absurd (not_start is)
          | inr (_, o) ↦ step ∙ Occurs-search_text (c ∷ re) t o
        ],
      )
]
