-- ===== src/Kalloc.antt =====
-- xv6-public/kalloc.c: the free list of 4096-byte pages, threaded through the first word of each
-- page. `kmem.lock` is held across each operation once `use_lock` is set.
pub mod FreeList
pub mod Range
pub mod Owners
pub mod Tests
use tp2_so.Base.{
  ℕ, zero, suc, ◌+◌, ◌-◌, ◌*◌, ◌/◌, ◌%◌, ◌^◌, Bool, true, false, not, Option, none, some, List, [],
  ◌∷◌, ◌==◌, ◌&&◌, ◌||◌, if◌then◌else◌, ltb, leb, add32, sub32,
}

abbrev pub pgsize : ℕ
pgsize = 4096

abbrev pub kernbase : ℕ
kernbase = 0x8000_0000

abbrev pub phystop : ℕ
phystop = 0xe00_0000

-- `kmem`, and the words of physical memory by their kernel address. Null is 0.
pub record Kmem : Type 0 where
  pub freelist : ℕ
  pub use_lock : ℕ
  pub word : ℕ → ℕ

-- `memset(v, 1, PGSIZE)`, and the write of `r->next`.
abbrev pub fill_and_link : ℕ → Kmem → ℕ → ℕ
fill_and_link v k a =
    if a == v then k.freelist else if leb v a && ltb a (v + pgsize) then 0x0101_0101 else k.word a

-- The check of `kfree`. The first address after the kernel, `end`, comes from the linker.
abbrev pub bad_page : ℕ → ℕ → Bool
bad_page kernel_end v =
    not (v % pgsize == 0) || (ltb v kernel_end || leb phystop (sub32 v kernbase))

-- `none` is the panic.
unfoldable pub kfree : ℕ → ℕ → Kmem → Option Kmem
kfree kernel_end v k =
    if bad_page kernel_end v
    then none
    else some (record k { freelist = v; word = fill_and_link v k })

unfoldable pub kalloc : Kmem → ℕ × Kmem
kalloc k = let r = k.freelist in (r, (if r == 0 then k else record k { freelist = k.word r }))

abbrev pub page_round_up : ℕ → ℕ
page_round_up a = add32 a (pgsize - 1) / pgsize * pgsize

-- The loop of `freerange`. The outer `none` says that the fuel ran out, the inner that `kfree`
-- panicked.
unfoldable pub free_from : ℕ → ℕ → ℕ → ℕ → Kmem → Option (Option Kmem)
free_from kernel_end vend zero p k = none
free_from kernel_end vend (suc fuel) p k = elim (leb (add32 p pgsize) vend) [
  | false ↦ some (some k)
  | true ↦ elim (kfree kernel_end p k) [
    | none ↦ some none
    | some k1 ↦ free_from kernel_end vend fuel (add32 p pgsize) k1
  ]
]

unfoldable pub freerange : ℕ → ℕ → ℕ → ℕ → Kmem → Option (Option Kmem)
unfolding free_from
freerange kernel_end fuel vstart vend k = free_from kernel_end vend fuel (page_round_up vstart) k

unfoldable pub kinit1 : ℕ → ℕ → ℕ → ℕ → Kmem → Option (Option Kmem)
unfolding freerange
kinit1 kernel_end fuel vstart vend k =
    freerange kernel_end fuel vstart vend (record k { use_lock = 0 })

unfoldable pub kinit2 : ℕ → ℕ → ℕ → ℕ → Kmem → Option (Option Kmem)
unfolding freerange
kinit2 kernel_end fuel vstart vend k = elim (freerange kernel_end fuel vstart vend k) [
  | none ↦ none
  | some none ↦ some none
  | some (some k1) ↦ some (some (record k1 { use_lock = 1 }))
]
