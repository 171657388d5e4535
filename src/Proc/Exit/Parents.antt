-- ===== src/Proc/Exit/Parents.antt =====
-- What the loop of `exit` does to the `parent` fields.
use tp2_so.Base.{
  ℕ, zero, suc, ◌+◌, ◌≡◌, Option, List, ◌==◌, ◌&&◌, leb, get_elem?, get_elem?-modify, modify, ltb,
  arith, opt_map, if◌then◌else◌,
}
use tp2_so.Proc.{Proc, Chan, ptr_eq, chan_of}
use tp2_so.Proc.Sleep.{wakeup1}
use tp2_so.Proc.Sleep.Wake.{wakeup1_at}
use tp2_so.Proc.Exit.{abandon_at, abandon}

-- The parent of the process in a slot.
abbrev pub parent_at : List Proc → ℕ → Option (Option ℕ)
parent_at ps j = opt_map (λ p. p.parent) (get_elem? ps j)

abbrev pub moved : Option ℕ → Option ℕ → Option ℕ → Option ℕ
moved cur init p = if ptr_eq p cur then init else p

pub parent_at-wakeup1 :
    (c : Chan) (ps : List Proc) (j : ℕ) → parent_at (wakeup1 c ps) j ≡ parent_at ps j
parent_at-wakeup1 c ps j = ground (arith, wakeup1_at c ps j)

parent_at-abandon_at :
    (cur init : Option ℕ) (i : ℕ) (ps : List Proc) (j : ℕ)
    → parent_at (abandon_at cur init i ps) j
      ≡ (if i == j then opt_map (moved cur init) (parent_at ps j) else parent_at ps j)
unfolding abandon_at
parent_at-abandon_at cur init i ps j = ground (
  arith,
  get_elem?-modify ps i j (λ q. record q { parent = init }),
  parent_at-wakeup1 (chan_of init) (modify ps i (λ q. record q { parent = init })) j,
)

-- The loop over the slots `i` up to `i + n` moves the children of `cur` in them to init.
pub parent_at-abandon :
    (cur init : Option ℕ) (n i : ℕ) (ps : List Proc) (j : ℕ)
    → parent_at (abandon cur init n i ps) j ≡ (
        if leb i j && ltb j (i + n)
        then opt_map (moved cur init) (parent_at ps j)
        else parent_at ps j)
unfolding abandon
parent_at-abandon cur init zero i ps j = ground arith
parent_at-abandon cur init (suc n) i ps j = ground (
  arith,
  parent_at-abandon cur init n (suc i) (abandon_at cur init i ps) j,
  parent_at-abandon_at cur init i ps j,
)
