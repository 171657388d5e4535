-- ===== src/Proc/Sleep/Wake.antt =====
-- `wakeup1` of proc.c, slot by slot.
use tp2_so.Base.{ℕ, ◌≡◌, List, get_elem?, get_elem?-map, opt_map}
use tp2_so.Proc.{Proc, Chan}
use tp2_so.Proc.Sleep.{wake_if, wakeup1}

-- `wakeup1`, slot by slot.
pub wakeup1_at :
    (c : Chan) (ps : List Proc) (j : ℕ)
    → get_elem? (wakeup1 c ps) j ≡ opt_map (wake_if c) (get_elem? ps j)
unfolding wakeup1
wakeup1_at c ps j = get_elem?-map (wake_if c) ps j
