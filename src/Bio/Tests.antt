-- ===== src/Bio/Tests.antt =====
-- The cache of bio.c at boot, and its first block.
use tp2_so.Base.{ℕ, ◌≤◌, ◌<◌, ◌≡◌, ◌≢◌, refl, List, modify, find_index}
use tp2_so.Bio.{Buf, binit, push_all, nbuf, bget, last_spare, recycle}
use tp2_so.Bio.Cache.{gets, Uses, here, next, copies, count_if, has_id, one_buffer}

-- Block 33 of device 1 gets the buffer at the tail.
abbrev one_block : List Buf
one_block = modify binit 29 (recycle 1 33)

session : Uses binit one_block
unfolding bget binit push_all last_spare find_index
session = next here (gets 1 33 29 refl)

one_buffer_example :
    ((d k : ℕ) → d ≢ 0 → copies d k one_block ≤ 1)
    × ((n : ℕ) → n < nbuf → count_if (has_id n) one_block ≡ 1)
one_buffer_example = one_buffer session
