-- ===== src/Base/Find.antt =====
-- The search loop `for (p = a; p < &a[N]; p++) if (test p) …`: the first index that passes.
use Prim.Native.Nat.{ℕ, zero, suc, ◌<◌}
use mathlib.Core.Path.{◌≡◌, refl}
use mathlib.Core.List.{List, [], ◌∷◌}
use mathlib.Core.Bool.{Bool, true, false}
use mathlib.Core.Option.{Option, none, some}
use native.Mathlib.Omega.{arith}
use tp2_so.Base.Tests.{if◌then◌else◌}
use tp2_so.Base.Lists.{get_elem?, opt_map}

module _ {ℓ} {A : Type ℓ} where
  unfoldable pub find_index : (A → Bool) → List A → Option ℕ
  find_index t [] = none
  find_index t (x ∷ xs) = if t x then some 0 else opt_map suc (find_index t xs)

  -- The index found holds an element that passes.
  pub find_index-passes :
      (t : A → Bool) (xs : List A) (i : ℕ)
      → find_index t xs ≡ some i
      → (a : A) × (get_elem? xs i ≡ some a) × (t a ≡ true)
  unfolding find_index
  find_index-passes t [] i e = absurd (ground arith)
  find_index-passes t (x ∷ xs) zero e = (x, refl, ground arith)
  find_index-passes t (x ∷ xs) (suc i) e = find_index-passes t xs i (ground arith)

  -- Nothing before it does.
  pub find_index-first :
      (t : A → Bool) (xs : List A) (i : ℕ)
      → find_index t xs ≡ some i
      → (j : ℕ) (a : A) → j < i
      → get_elem? xs j ≡ some a
      → t a ≡ false
  unfolding find_index
  find_index-first t [] i e j a h g = absurd (ground arith)
  find_index-first t (x ∷ xs) zero e j a h g = absurd (omega arith)
  find_index-first t (x ∷ xs) (suc i) e zero a h g = ground arith
  find_index-first t (x ∷ xs) (suc i) e (suc j) a h g =
      find_index-first t xs i (ground arith) j a (omega arith) g

  -- A search that fails has seen every element fail.
  pub find_index-none :
      (t : A → Bool) (xs : List A)
      → find_index t xs ≡ none
      → (j : ℕ) (a : A) → get_elem? xs j ≡ some a
      → t a ≡ false
  unfolding find_index
  find_index-none t [] e j a g = absurd (ground arith)
  find_index-none t (x ∷ xs) e zero a g = ground arith
  find_index-none t (x ∷ xs) e (suc j) a g = find_index-none t xs (ground arith) j a g
