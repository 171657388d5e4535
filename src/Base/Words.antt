-- ===== src/Base/Words.antt =====
-- 32-bit words. An `int` is kept as its two's complement pattern, below 2 ^ 32.
use Prim.Native.Nat.{ℕ, zero, suc, ◌+◌, ◌-◌, ◌%◌, ◌^◌}
use mathlib.Core.Bool.{Bool}
use mathlib.Core.Path.{◌≡◌, refl}
use mathlib.Core.Logic.{◌⊎◌, inl, inr}
use tp2_so.Base.Tests.{ltb, if◌then◌else◌}

-- The pattern of -1.
abbrev pub minus_one : ℕ
minus_one = 2 ^ 32 - 1

abbrev pub u32 : ℕ → ℕ
u32 n = n % 2 ^ 32

abbrev pub add32 : ℕ → ℕ → ℕ
add32 a b = (a + b) % 2 ^ 32

abbrev pub sub32 : ℕ → ℕ → ℕ
sub32 a b = (a + 2 ^ 32 - b) % 2 ^ 32

-- `a < b` of two `int`s.
abbrev pub slt : ℕ → ℕ → Bool
slt a b = ltb ((a + 2 ^ 31) % 2 ^ 32) ((b + 2 ^ 31) % 2 ^ 32)

-- `a % 3` of an `int`: C rounds towards zero, so a negative `a` has a remainder of 0, -1 or -2.
abbrev pub srem3 : ℕ → ℕ
srem3 a = if ltb a (2 ^ 31) then a % 3 else (2 ^ 32 - (2 ^ 32 - a) % 3) % 2 ^ 32

pub zero_or_suc : (n : ℕ) → (n ≡ 0) ⊎ ((c : ℕ) × (n ≡ suc c))
zero_or_suc zero = inl refl
zero_or_suc (suc c) = inr (c, refl)
