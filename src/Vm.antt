-- ===== src/Vm.antt =====
-- xv6-public/vm.c: page tables in the memory that kalloc.c hands out. An entry of a table is a word of
-- `Kmem`, and a null pointer is 0. The first address after the kernel is a parameter, as in Kalloc.
pub mod Spaces
pub mod Tests
pub mod User
pub mod Ends
pub mod Maps
pub mod Owners
use tp2_so.Base.{
  ℕ, zero, suc, ◌+◌, ◌-◌, ◌*◌, ◌/◌, ◌%◌, ◌^◌, Bool, true, false, not, Option, none, some, ◌==◌,
  ◌&&◌, ◌||◌, if◌then◌else◌, ltb, leb, add32, sub32,
}
use Prim.Native.Nat.{bit_or}
use tp2_so.Kalloc.{Kmem, pgsize, kernbase, kalloc, kfree}

-- How a piece of code ends: with a result, in a panic, or out of fuel.
pub data Run (A : Type 0) : Type 0 where
  ok : A → Kmem → Run A
  panic : Run A
  out_of_fuel : Run A

abbrev pub V : Type 0 → Type 0
V A = Kmem → Run A

unfoldable pub pure : {A : Type 0} → A → V A
pure a k = ok a k

unfoldable pub panics : {A : Type 0} → V A
panics k = panic

unfoldable pub no_fuel : {A : Type 0} → V A
no_fuel k = out_of_fuel

-- A word of memory, read and written.
unfoldable pub load : ℕ → V ℕ
load a k = ok (k.word a) k

abbrev pub written : ℕ → ℕ → Kmem → Kmem
written a w k = record k { word = λ x. if a == x then w else k.word x }

unfoldable pub store : ℕ → ℕ → V (Unit {0})
store a w k = ok tt (written a w k)

module _ {A B : Type 0} where
  abbrev pub and_then : Run A → (A → V B) → Run B
  and_then (ok a k) f = f a k
  and_then panic f = panic
  and_then out_of_fuel f = out_of_fuel

  infixl 5 ◌>>=◌ ◌>>◌
  unfoldable pub ◌>>=◌ : V A → (A → V B) → V B
  unfolding pure panics no_fuel load store
  ◌>>=◌ m f k = and_then (m k) f

  abbrev pub ◌>>◌ : V A → V B → V B
  m >> n = m >>= λ _. n

-- `PDX`, `PTX`, `PTE_ADDR`, `PTE_FLAGS`, `PGROUNDUP`, `PGROUNDDOWN`, `V2P` and `P2V`
abbrev pub pdx : ℕ → ℕ
pdx va = va / 2 ^ 22 % 1024

abbrev pub ptx : ℕ → ℕ
ptx va = va / 2 ^ 12 % 1024

abbrev pub pte_addr : ℕ → ℕ
pte_addr e = e / pgsize * pgsize

abbrev pub pte_flags : ℕ → ℕ
pte_flags e = e % pgsize

abbrev pub round_up : ℕ → ℕ
round_up a = add32 a (pgsize - 1) / pgsize * pgsize

abbrev pub round_down : ℕ → ℕ
round_down a = a / pgsize * pgsize

abbrev pub v2p : ℕ → ℕ
v2p a = sub32 a kernbase

abbrev pub p2v : ℕ → ℕ
p2v a = add32 a kernbase

-- `e & PTE_P` and `e & PTE_U`
abbrev pub is_present : ℕ → Bool
is_present e = not (e % 2 == 0)

abbrev pub is_user : ℕ → Bool
is_user e = not (e / 4 % 2 == 0)

abbrev pub pte_w : ℕ
pte_w = 2

abbrev pub pte_wu : ℕ
pte_wu = 6

-- `kalloc` and `kfree` here.
unfoldable pub get_page : V ℕ
unfolding kalloc
get_page k = let (r, k1) = kalloc k in ok r k1

unfoldable pub free_page : ℕ → ℕ → V (Unit {0})
unfolding kfree
free_page kernel_end v k = elim (kfree kernel_end v k) [ none ↦ panic | some k1 ↦ ok tt k1 ]

-- `memset(p, 0, PGSIZE)`, and a `memmove` of a page.
unfoldable pub clear_page : ℕ → V (Unit {0})
clear_page p k =
    ok tt (record k { word = λ a. if leb p a && ltb a (p + pgsize) then 0 else k.word a })

unfoldable pub copy_page : ℕ → ℕ → V (Unit {0})
copy_page p src k = ok tt (record k {
  word = λ a. if leb p a && ltb a (p + pgsize) then k.word (src + (a - p)) else k.word a;
})

-- The branch of `walkpgdir` without a page table. 0 is the null result.
unfoldable pub new_table : ℕ → ℕ → V ℕ
unfolding get_page clear_page ◌>>=◌
new_table pde va = do
  pgtab ← get_page
  if pgtab == 0
      then pure 0
      else (do clear_page pgtab; store pde (v2p pgtab / 8 * 8 + 7); pure (pgtab + 4 * ptx va))

unfoldable pub walkpgdir : ℕ → ℕ → Bool → V ℕ
unfolding new_table ◌>>=◌
walkpgdir pgdir va alloc = do
  e ← load (pgdir + 4 * pdx va)
  if is_present e
      then pure (p2v (pte_addr e) + 4 * ptx va)
      else if not alloc
      then pure 0
      else new_table (pgdir + 4 * pdx va) va

-- `pa | perm | PTE_P`, for flags `perm` below PGSIZE; in `new_table` above,
-- `| PTE_P | PTE_W | PTE_U` sets the three lowest bits.
abbrev pub new_entry : ℕ → ℕ → ℕ
new_entry pa perm = (pa / pgsize * pgsize + bit_or (pa % pgsize) perm) / 2 * 2 + 1

-- The new entry at `pte`: whether there was a page table.
unfoldable pub set_entry : ℕ → ℕ → ℕ → V Bool
unfolding ◌>>=◌
set_entry pte pa perm = if pte == 0 then pure false else (do
  e ← load pte
  if is_present e then panics else (do store pte (new_entry pa perm); pure true))

-- One round of `mappages`.
unfoldable pub map_page : ℕ → ℕ → ℕ → ℕ → V Bool
unfolding walkpgdir set_entry ◌>>=◌
map_page pgdir a pa perm = walkpgdir pgdir a true >>= λ pte. set_entry pte pa perm

-- The loop of `mappages`: `true` is its 0, `false` its -1.
unfoldable pub map_pages : ℕ → ℕ → ℕ → ℕ → ℕ → ℕ → V Bool
unfolding map_page ◌>>=◌
map_pages pgdir zero a last pa perm = no_fuel
map_pages pgdir (suc fuel) a last pa perm = map_page pgdir a pa perm >>= λ mapped.
    if not mapped
    then pure false
    else if a == last
    then pure true
    else map_pages pgdir fuel (add32 a pgsize) last (add32 pa pgsize) perm

-- One round for each page from the first to the last.
unfoldable pub mappages : ℕ → ℕ → ℕ → ℕ → ℕ → V Bool
unfolding map_pages
mappages pgdir va size pa perm =
    let a = round_down va in
    let last = round_down (sub32 (add32 va size) 1) in
    map_pages pgdir (sub32 last a / pgsize + 1) a last pa perm
