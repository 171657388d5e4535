-- ===== src/Fs/Keeps.antt =====
-- Invariants of the actions of fs.c, one rule for each way to build an action.
use tp2_so.Base.{ℕ, Bool, true, false, if◌then◌else◌, Option, none, some}
use tp2_so.Fs.{
  Fs, M, Run, ok, panic, sleeps, out_of_fuel, pure, panics, no_fuel, if_none, gets, bread, and_then,
  ◌>>=◌,
}

-- `P` of the state in which a run ends, if it ends with a result.
abbrev pub After : {A : Type 0} → (Fs → Type 0) → Run A → Type 0
After P (ok a s) = P s
After P panic = Unit
After P sleeps = Unit
After P out_of_fuel = Unit

pub record Holds {A : Type 0} (P : Fs → Type 0) (r : Run A) : Type 0 where
  pub after : After P r

pub record Keeps {A : Type 0} (P : Fs → Type 0) (m : M A) : Type 0 where
  pub at : (s : Fs) → P s → Holds P (m s)

module _ {A : Type 0} {P : Fs → Type 0} where
  pub Holds-ok : (a : A) (s : Fs) → P s → Holds P (ok a s)
  Holds-ok a s h = record { after = h }

  pub Holds-panic : Holds {A = A} P panic
  Holds-panic = record { after = tt }

  pub Holds-sleeps : Holds {A = A} P sleeps
  Holds-sleeps = record { after = tt }

  pub Holds-out_of_fuel : Holds {A = A} P out_of_fuel
  Holds-out_of_fuel = record { after = tt }

  pub Keeps-pure : (a : A) → Keeps P (pure a)
  unfolding pure
  Keeps-pure a = record { at = λ s h. Holds-ok a s h }

  pub Keeps-panics : Keeps P (panics {A = A})
  unfolding panics
  Keeps-panics = record { at = λ s h. Holds-panic }

  pub Keeps-no_fuel : Keeps P (no_fuel {A = A})
  unfolding no_fuel
  Keeps-no_fuel = record { at = λ s h. Holds-out_of_fuel }

  pub Keeps-gets : (f : Fs → A) → Keeps P (gets f)
  unfolding gets
  Keeps-gets f = record { at = λ s h. Holds-ok (f s) s h }

  pub Keeps-if : (b : Bool) (m n : M A) → Keeps P m → Keeps P n → Keeps P (if b then m else n)
  Keeps-if true m n km kn = km
  Keeps-if false m n km kn = kn

  pub Holds-bool :
      (b : Bool) (r q : Run A) → Holds P r → Holds P q → Holds P (elim b [ false ↦ r | true ↦ q ])
  Holds-bool false r q h k = h
  Holds-bool true r q h k = k

module _ {P : Fs → Type 0} where
  pub Keeps-bread : (b : ℕ) → Keeps P (bread b)
  unfolding bread
  Keeps-bread b = record { at = λ s h. Holds-ok _ s h }

module _ {A B : Type 0} {P : Fs → Type 0} where
  pub Holds-option :
      (o : Option A) (r : Run B) (k : A → Run B)
      → Holds P r
      → ((a : A) → Holds P (k a))
      → Holds P (elim o [ none ↦ r | some a ↦ k a ])
  Holds-option none r k h hk = h
  Holds-option (some a) r k h hk = hk a

  -- What holds after the first part may differ from what holds after the second.
  pub Holds-and_then :
      {Q : Fs → Type 0} (r : Run A) (k : A → M B)
      → Holds P r
      → ((a : A) (s : Fs) → P s → Holds Q (k a s))
      → Holds Q (and_then r k)
  Holds-and_then (ok a s) k h kk = kk a s h.after
  Holds-and_then panic k h kk = Holds-panic
  Holds-and_then sleeps k h kk = Holds-sleeps
  Holds-and_then out_of_fuel k h kk = Holds-out_of_fuel

  pub Keeps-bind :
      (m : M A) (k : A → M B) → Keeps P m → ((a : A) → Keeps P (k a)) → Keeps P (m >>= k)
  unfolding ◌>>=◌
  Keeps-bind m k km kk = record { at = λ s h. Holds-and_then (m s) k (km.at s h) (λ a. (kk a).at) }

  pub Keeps-if_none :
      (o : Option A) (m : M B) (k : A → M B)
      → Keeps P m
      → ((a : A) → Keeps P (k a))
      → Keeps P (if_none o m k)
  unfolding if_none
  Keeps-if_none none m k km kk = km
  Keeps-if_none (some a) m k km kk = kk a

pub ruleset keeps_rules = (
  Keeps-pure, Keeps-panics, Keeps-no_fuel, Keeps-gets, Keeps-if, Keeps-bread, Keeps-bind,
  Keeps-if_none,
)
