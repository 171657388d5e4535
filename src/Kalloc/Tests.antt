-- ===== src/Kalloc/Tests.antt =====
-- The allocator of kalloc.c with a few pages after a kernel that ends at 0x80500000.
use tp2_so.Base.{occurs, ℕ, ◌+◌, ◌≤◌, ◌<◌, refl, List, [], ◌∷◌, arith}
use tp2_so.Kalloc.{Kmem, kfree, kalloc, fill_and_link}
use tp2_so.Kalloc.FreeList.{IsPage, FreeList}
use tp2_so.Vm.Maps.{with_table}
use tp2_so.Vm.Owners.{new_table-Uses}
use tp2_so.Base.{◌==◌, if◌then◌else◌}
use tp2_so.Kalloc.Owners.{Shared, gets, gives, Uses, here, next, one_owner}

abbrev kernel_end : ℕ
kernel_end = 0x8050_0000

abbrev empty : Kmem
empty = record { freelist = 0; use_lock = 0; word = λ a. 0 }

-- Two pages are free.
abbrev two_free : Kmem
two_free = record {
  freelist = 0x8050_0000;
  use_lock = 0;
  word = λ a. if a == 0x8050_0000 then 0x8050_1000 else 0;
}

first_page : IsPage kernel_end 0x8050_0000
first_page = record { aligned = refl; above = omega arith; base = omega arith; below = omega arith }

second_page : IsPage kernel_end 0x8050_1000
second_page = record {
  aligned = refl;
  above = omega arith;
  base = omega arith;
  below = omega arith;
}

two_pages : FreeList kernel_end two_free (0x8050_0000 ∷ 0x8050_1000 ∷ [])
two_pages =
    (refl, first_page, ((λ e. absurd (omega (arith, e))), tt), (refl, second_page, tt, refl))

-- The first page is taken for a page directory.
abbrev taken : Shared
taken = record { kmem = record two_free { freelist = 0x8050_1000 }; owned = 0x8050_0000 ∷ [] }

-- The second is taken by `walkpgdir` for the page table of address 0, whose entry is written into
-- the directory.
abbrev table_made : Shared
table_made = record {
  kmem = with_table 0x8050_0000 0x8050_1000 taken.kmem;
  owned = 0x8050_1000 ∷ 0x8050_0000 ∷ [];
}

-- The table is given back.
abbrev given_back : Shared
given_back = record {
  kmem = record (table_made.kmem) {
    freelist = 0x8050_1000;
    word = fill_and_link 0x8050_1000 table_made.kmem;
  };
  owned = 0x8050_0000 ∷ [];
}

session : Uses kernel_end (record { kmem = two_free; owned = [] }) given_back
unfolding kalloc kfree
session =
    let taking = next here (gets 0x8050_0000 taken.kmem refl (λ e. absurd (omega (arith, e)))) in
    next (new_table-Uses kernel_end 0x8050_0000 0 _ taken taking (omega arith) (omega arith)).1
      (gives [] (0x8050_0000 ∷ []) 0x8050_1000 given_back.kmem refl refl)

one_owner_example :
    (free : List ℕ) × FreeList kernel_end given_back.kmem free
    × ((a : ℕ) → occurs a free + occurs a (0x8050_0000 ∷ []) ≤ 1)
    × ((a : ℕ) → 0 < occurs a (0x8050_0000 ∷ []) → IsPage kernel_end a)
one_owner_example =
    one_owner kernel_end two_free (0x8050_0000 ∷ 0x8050_1000 ∷ []) (omega arith) two_pages
      (λ a. ground arith) session
