-- ===== src/Fs/Paths.antt =====
-- xv6-public/fs.c: the elements that `skipelem` takes off a path, against a split at the slashes.
use tp2_so.Base.{
  ℕ, zero, suc, ◌≤◌, ◌<◌, ◌≡◌, inl, inr, refl, ◌∙◌, sym, ap, subst, false, Option, none, some, List,
  [], ◌∷◌, ◌==◌, if◌then◌else◌, arith, length, take, map_list, Bool-cases,
}
use tp2_so.Fs.{dirsiz}
use tp2_so.Fs.Names.{slash, skip_slashes, span_name, skipelem}

-- The pieces of a path between its slashes, empty ones too.
abbrev add_first : ℕ → List (List ℕ) → List (List ℕ)
add_first c [] = []
add_first c (p ∷ ps) = (c ∷ p) ∷ ps

unfoldable pub split : List ℕ → List (List ℕ)
split [] = [] ∷ []
split (c ∷ path) = let rest = split path in if c == slash then [] ∷ rest else add_first c rest

unfoldable pub non_empty : List (List ℕ) → List (List ℕ)
non_empty [] = []
non_empty ([] ∷ ps) = non_empty ps
non_empty ((c ∷ p) ∷ ps) = (c ∷ p) ∷ non_empty ps

-- The names that calls of `skipelem` give, one after the other, until it returns 0. Without fuel it
-- has not ended.
unfoldable pub elements : ℕ → List ℕ → Option (List (List ℕ))
unfolding skipelem
elements zero path = none
elements (suc fuel) path = elim (skipelem path) [
  | none ↦ some []
  | some p ↦ elim (elements fuel p.1) [ none ↦ none | some ps ↦ some (p.0 ∷ ps) ]
]

abbrev behind : List ℕ → List (List ℕ)
behind [] = []
behind (c ∷ q) = split q

span-split : (path : List ℕ) → split path ≡ (span_name path).0 ∷ behind (span_name path).1
unfolding split span_name
span-split [] = refl
span-split (c ∷ path) = elim (Bool-cases (c == slash)) [
  | inl e ↦ rw e refl
  | inr n ↦ rw n (ap (add_first c) (span-split path))
]

-- Slashes at the front, and where a name ends.
skip_split : (path : List ℕ) → non_empty (split path) ≡ non_empty (split (skip_slashes path))
unfolding split skip_slashes non_empty
skip_split [] = refl
skip_split (c ∷ path) = elim (Bool-cases (c == slash)) [
  | inl e ↦ rw e (skip_split path)
  | inr n ↦ rw n (rw (n, split) refl)
]

stop_split :
    (path : List ℕ) → non_empty (split (span_name path).1) ≡ non_empty (behind (span_name path).1)
unfolding split span_name non_empty
stop_split [] = refl
stop_split (c ∷ path) = elim (Bool-cases (c == slash)) [
  | inl e ↦ rw e (rw (e, split) refl)
  | inr n ↦ rw n (stop_split path)
]

skip_head : (path rest : List ℕ) (c : ℕ) → skip_slashes path ≡ c ∷ rest → (c == slash) ≡ false
unfolding skip_slashes
skip_head [] rest c e = absurd (ground arith)
skip_head (d ∷ path) rest c e = elim (Bool-cases (d == slash)) [
  | inl s ↦ skip_head path rest c (sym (rw (s, skip_slashes) refl) ∙ e)
  | inr n ↦ ground arith
]

length-skip_slashes : (path : List ℕ) → length (skip_slashes path) ≤ length path
unfolding skip_slashes
length-skip_slashes [] = omega arith
length-skip_slashes (c ∷ path) = ground (arith, length-skip_slashes path)

length-span_name : (path : List ℕ) → length (span_name path).1 ≤ length path
unfolding span_name
length-span_name [] = omega arith
length-span_name (c ∷ path) = ground (arith, length-span_name path)

-- One call, on a path that is not all slashes.
skipelem_lem :
    (path rest : List ℕ) (c : ℕ)
    → skip_slashes path ≡ c ∷ rest
    → skipelem path ≡ some (take dirsiz (c ∷ (span_name rest).0), skip_slashes (span_name rest).1)
unfolding skipelem span_name
skipelem_lem path rest c e = let n = skip_head path rest c e in rw (e, skipelem, n, span_name) refl

split_lem :
    (path rest : List ℕ) (c : ℕ)
    → skip_slashes path ≡ c ∷ rest
    → non_empty (split path)
      ≡ (c ∷ (span_name rest).0) ∷ non_empty (split (skip_slashes (span_name rest).1))
unfolding non_empty split
split_lem path rest c e =
    let n = skip_head path rest c e in
    skip_split path
    ∙ ap (λ p. non_empty (split p)) e
    ∙ rw n (ap (λ ps. non_empty (add_first c ps)) (span-split rest))
    ∙ ap (λ ps. (c ∷ (span_name rest).0) ∷ ps)
        (sym (stop_split rest) ∙ skip_split (span_name rest).1)

skipelem-none : (path : List ℕ) → skip_slashes path ≡ [] → skipelem path ≡ none
unfolding skipelem
skipelem-none path e = rw (e, skipelem) refl

elements-none :
    (fuel : ℕ) (path : List ℕ) → skipelem path ≡ none → elements (suc fuel) path ≡ some []
unfolding elements
elements-none fuel path e = rw (e, elements) refl

elements-some :
    (fuel : ℕ) (path p q : List ℕ) (ps : List (List ℕ))
    → skipelem path ≡ some (p, q)
    → elements fuel q ≡ some ps
    → elements (suc fuel) path ≡ some (p ∷ ps)
unfolding elements
elements-some fuel path p q ps e rest = rw (e, elements, rest) refl

-- One call of `skipelem`, and what the calls on the rest of the path give.
elements_step :
    (fuel : ℕ) (path r : List ℕ)
    → skip_slashes path ≡ r
    → ((q : List ℕ)
        → length q < length path
        → elements fuel q ≡ some (map_list (take dirsiz) (non_empty (split q))))
    → elements (suc fuel) path ≡ some (map_list (take dirsiz) (non_empty (split path)))
unfolding non_empty split
elements_step fuel path [] e rec =
    elements-none fuel path (skipelem-none path e)
    ∙ ap (λ ps. some (map_list (take dirsiz) ps))
        (sym (skip_split path ∙ ap (λ p. non_empty (split p)) e))
elements_step fuel path (c ∷ rest) e rec =
    let left = skip_slashes (span_name rest).1 in
    let whole : suc (length rest) ≤ length path =
      subst (λ p. length p ≤ length path) e (length-skip_slashes path) in
    let shorter : length left < length path =
      omega (arith, length-skip_slashes (span_name rest).1, length-span_name rest, whole) in
    elements-some fuel path _ left _ (skipelem_lem path rest c e) (rec left shorter)
    ∙ ap (λ ps. some (map_list (take dirsiz) ps)) (sym (split_lem path rest c e))

-- Calls of `skipelem`, each on the path that the last one returned, come to an end after as many
-- rounds as the path has bytes at most. The names that they give are the pieces of the path between
-- its slashes, without the empty ones, each cut to DIRSIZ bytes.
pub skipelem-split :
    (fuel : ℕ) (path : List ℕ)
    → length path < fuel
    → elements fuel path ≡ some (map_list (take dirsiz) (non_empty (split path)))
skipelem-split zero path lt = absurd (omega arith)
skipelem-split (suc fuel) path lt =
    elements_step fuel path (skip_slashes path) refl
      λ q shorter. skipelem-split fuel q (omega arith)
