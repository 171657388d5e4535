-- ===== src/Log/Ops.antt =====
-- The operations on the log of log.c that are under way, and the blocks they may still write.
use tp2_so.Base.{
  subst, ℕ, suc, ◌+◌, ◌*◌, ◌≤◌, ◌≡◌, ◌∙◌, ap, List, [], ◌∷◌, ◌++◌, arith, length, length-append,
}

-- An operation with the blocks that it may still write, outside `log_write`, or inside, between the tests
-- and the section for a block.
pub data Op : Type 0 where
  outside : ℕ → Op
  tested : ℕ → ℕ → Op

abbrev pub blocks_left : Op → ℕ
blocks_left (outside n) = n
blocks_left (tested n b) = suc n

abbrev pub total : List Op → ℕ
total [] = 0
total (x ∷ xs) = blocks_left x + total xs

pub total-append : (xs ys : List Op) → total (xs ++ ys) ≡ total xs + total ys
total-append [] ys = omega arith
total-append (x ∷ xs) ys = omega (arith, total-append xs ys)

-- An operation writes at most 10 blocks.
abbrev pub Small : List Op → Type 0
Small [] = Unit {0}
Small (x ∷ xs) = (blocks_left x ≤ 10) × Small xs

pub total-Small : (xs : List Op) → Small xs → total xs ≤ 10 * length xs
total-Small [] s = omega arith
total-Small (x ∷ xs) s = omega (arith, total-Small xs s.1, s.0)

pub Small-append : (xs ys : List Op) → Small xs → Small ys → Small (xs ++ ys)
Small-append [] ys s t = t
Small-append (x ∷ xs) ys s t = (s.0, Small-append xs ys s.1 t)

Small-left : (xs ys : List Op) → Small (xs ++ ys) → Small xs
Small-left [] ys s = tt
Small-left (x ∷ xs) ys s = (s.0, Small-left xs ys s.1)

Small-right : (xs ys : List Op) → Small (xs ++ ys) → Small ys
Small-right [] ys s = s
Small-right (x ∷ xs) ys s = Small-right xs ys s.1

pub record Split (left before after : List Op) (x : Op) : Type 0 where
  pub totals : total left ≡ total before + (blocks_left x + total after)
  pub lengths : length left ≡ length before + suc (length after)
  pub small_before : Small before
  pub small_after : Small (x ∷ after)

pub split :
    (left before after : List Op) (x : Op)
    → Small left
    → left ≡ before ++ (x ∷ after)
    → Split left before after x
split left before after x sm e =
    let sm' : Small (before ++ (x ∷ after)) = subst Small e sm in
    record {
      totals = ap total e ∙ total-append before (x ∷ after);
      lengths = ap length e ∙ length-append before (x ∷ after);
      small_before = Small-left before (x ∷ after) sm';
      small_after = Small-right before (x ∷ after) sm';
    }
