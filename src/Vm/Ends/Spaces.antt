-- ===== src/Vm/Ends/Spaces.antt =====
-- xv6-public/vm.c: the loops of whole address spaces come to an end.
use tp2_so.Base.{
  ℕ, zero, suc, ◌+◌, ◌*◌, ◌/◌, ◌%◌, ◌^◌, ◌≤◌, ◌<◌, ◌≡◌, ◌≢◌, subst, true, false, not, List, [], ◌∷◌,
  ◌==◌, ltb, leb, arith, add32,
}
use tp2_so.Kalloc.{Kmem, pgsize, kernbase, phystop}
use tp2_so.Vm.{out_of_fuel, round_up, v2p, p2v, pte_wu}
use tp2_so.Vm.Spaces.{
  Kmap, kmap, next_table, unmap_entry, dealloc_loop, deallocuvm, free_table, free_tables, freevm,
  map_kernel, setupkvm, grow_page, alloc_loop, allocuvm, copy_one, copy_loop, copyuvm, npdentries,
  devspace,
}
use tp2_so.Vm.Ends.{
  Ends, ends_rules, Ends-pure, Ends-panics, Ends-if, Ends-when, Ends-bind, Ends-get_page,
  Ends-clear_page, Ends-free_page, Ends-walkpgdir, Ends-mappages,
}

module _ (kernel_end : ℕ) where
  Ends-unmap_entry : (pte : ℕ) → Ends (unmap_entry kernel_end pte)
  unfolding unmap_entry
  Ends-unmap_entry pte = search ends_rules depth 14

  -- What is left of the loop of `deallocuvm` fits the fuel.
  Ends-dealloc_loop :
      (pgdir fuel a oldsz : ℕ)
      → oldsz ≤ kernbase
      → a % pgsize ≡ 0
      → oldsz ≤ a + fuel * pgsize
      → Ends (dealloc_loop kernel_end pgdir (suc fuel) a oldsz)
  unfolding dealloc_loop
  Ends-dealloc_loop pgdir zero a oldsz top al le =
      Ends-when (not (ltb a oldsz)) _ _ (λ e. Ends-pure tt) λ e. absurd (ground arith)
  Ends-dealloc_loop pgdir (suc fuel) a oldsz top al le =
      Ends-when (not (ltb a oldsz)) _ _ (λ e. Ends-pure tt)
        λ e. Ends-bind _ _ (Ends-walkpgdir pgdir a false) λ pte.
          Ends-if (pte == 0) _ _
            (Ends-dealloc_loop pgdir fuel (next_table a) oldsz top (omega arith) (ground arith))
            (Ends-bind _ _ (Ends-unmap_entry pte) λ x.
              Ends-dealloc_loop pgdir fuel (add32 a pgsize) oldsz top (ground arith) (ground arith))

  Ends-deallocuvm :
      (pgdir oldsz newsz : ℕ) → oldsz ≤ kernbase → Ends (deallocuvm kernel_end pgdir oldsz newsz)
  unfolding deallocuvm
  Ends-deallocuvm pgdir oldsz newsz top =
      let one : suc (oldsz / pgsize + 1) ≡ oldsz / pgsize + 2 = omega arith in
      Ends-when (leb oldsz newsz) _ _ (λ e. Ends-pure oldsz)
        λ e.
          Ends-bind _ _
            (subst (λ n. Ends (dealloc_loop kernel_end pgdir n (round_up newsz) oldsz)) one
              (Ends-dealloc_loop pgdir (oldsz / pgsize + 1) (round_up newsz) oldsz top (omega arith)
                (omega arith)))
            λ x. Ends-pure newsz

  Ends-free_table : (pgdir i : ℕ) → Ends (free_table kernel_end pgdir i)
  unfolding free_table
  Ends-free_table pgdir i = search ends_rules depth 12

  Ends-free_tables : (pgdir n i : ℕ) → Ends (free_tables kernel_end pgdir n i)
  unfolding free_tables
  Ends-free_tables pgdir zero i = Ends-pure tt
  Ends-free_tables pgdir (suc n) i =
      Ends-bind _ _ (Ends-free_table pgdir i) λ x. Ends-free_tables pgdir n (suc i)

  Ends-freevm : (pgdir : ℕ) → Ends (freevm kernel_end pgdir)
  unfolding freevm
  Ends-freevm pgdir = Ends-if (pgdir == 0) _ _ Ends-panics (
      Ends-bind _ _ (Ends-deallocuvm pgdir kernbase 0 (omega arith)) λ x.
        Ends-bind _ _ (Ends-free_tables pgdir npdentries 0) λ y. Ends-free_page kernel_end pgdir)

  abbrev AllBelow : List Kmap → Type 0
  AllBelow [] = Unit
  AllBelow (m ∷ ms) = (m.virt < 2 ^ 32) × AllBelow ms

  Ends-map_kernel :
      (pgdir : ℕ) (ms : List Kmap) → AllBelow ms → Ends (map_kernel kernel_end pgdir ms)
  unfolding map_kernel
  Ends-map_kernel pgdir [] h = Ends-pure pgdir
  Ends-map_kernel pgdir (m ∷ ms) (lt, h) =
      Ends-bind _ _ (Ends-mappages pgdir m.virt _ m.phys_start m.perm lt) λ mapped.
        Ends-if mapped _ _ (Ends-map_kernel pgdir ms h)
          (Ends-bind _ _ (Ends-freevm pgdir) λ x. Ends-pure 0)

  Ends-setupkvm : (data_at : ℕ) → data_at < 2 ^ 32 → Ends (setupkvm kernel_end data_at)
  unfolding setupkvm
  Ends-setupkvm data_at lt = Ends-bind _ _ Ends-get_page λ pgdir.
      Ends-if (pgdir == 0) _ _ (Ends-pure 0) (
        Ends-bind _ _ (Ends-clear_page pgdir) λ x.
          Ends-if (ltb devspace (p2v phystop)) _ _ Ends-panics (
            Ends-map_kernel pgdir (kmap data_at)
              (omega arith, (omega arith, (lt, (omega arith, tt))))))

  Ends-grow_page :
      (pgdir a oldsz newsz : ℕ)
      → a < 2 ^ 32
      → newsz ≤ kernbase
      → Ends (grow_page kernel_end pgdir a oldsz newsz)
  unfolding grow_page
  Ends-grow_page pgdir a oldsz newsz la top =
      let undo = Ends-deallocuvm pgdir newsz oldsz top in
      Ends-bind _ _ Ends-get_page λ mem.
        Ends-if (mem == 0) _ _ (Ends-bind _ _ undo λ x. Ends-pure false) (
          Ends-bind _ _ (Ends-clear_page mem) λ x.
            Ends-bind _ _ (Ends-mappages pgdir a pgsize (v2p mem) pte_wu la) λ mapped.
              Ends-if mapped _ _ (Ends-pure true) (
                Ends-bind _ _ undo
                  λ y. Ends-bind _ _ (Ends-free_page kernel_end mem) λ z. Ends-pure false))

  Ends-alloc_loop :
      (pgdir fuel a oldsz newsz : ℕ)
      → newsz ≤ kernbase
      → newsz ≤ a + fuel * pgsize
      → Ends (alloc_loop kernel_end pgdir (suc fuel) a oldsz newsz)
  unfolding alloc_loop
  Ends-alloc_loop pgdir zero a oldsz newsz top le =
      Ends-when (not (ltb a newsz)) _ _ (λ e. Ends-pure newsz) λ e. absurd (ground arith)
  Ends-alloc_loop pgdir (suc fuel) a oldsz newsz top le =
      Ends-when (not (ltb a newsz)) _ _ (λ e. Ends-pure newsz)
        λ e. Ends-bind _ _ (Ends-grow_page pgdir a oldsz newsz (ground arith) top) λ grown.
          Ends-if grown _ _
            (Ends-alloc_loop pgdir fuel (add32 a pgsize) oldsz newsz top (ground arith))
            (Ends-pure 0)

  Ends-allocuvm : (pgdir oldsz newsz : ℕ) → Ends (allocuvm kernel_end pgdir oldsz newsz)
  unfolding allocuvm
  Ends-allocuvm pgdir oldsz newsz =
      let one : suc (newsz / pgsize + 1) ≡ newsz / pgsize + 2 = omega arith in
      Ends-when (leb kernbase newsz) _ _ (λ e. Ends-pure 0)
        λ e. Ends-if (ltb newsz oldsz) _ _ (Ends-pure oldsz) (
          subst (λ n. Ends (alloc_loop kernel_end pgdir n (round_up oldsz) oldsz newsz)) one
            (Ends-alloc_loop pgdir (newsz / pgsize + 1) (round_up oldsz) oldsz newsz (ground arith)
              (omega arith)))

  Ends-copy_one : (pgdir d i : ℕ) → i < 2 ^ 32 → Ends (copy_one kernel_end pgdir d i)
  unfolding copy_one
  Ends-copy_one pgdir d i lt = search (ends_rules, Ends-walkpgdir, Ends-mappages, lt) depth 24

  Ends-copy_loop :
      (pgdir d fuel i sz : ℕ)
      → sz ≤ kernbase
      → sz ≤ i + fuel * pgsize
      → Ends (copy_loop kernel_end pgdir d (suc fuel) i sz)
  unfolding copy_loop
  Ends-copy_loop pgdir d zero i sz top le =
      Ends-when (not (ltb i sz)) _ _ (λ e. Ends-pure d) λ e. absurd (ground arith)
  Ends-copy_loop pgdir d (suc fuel) i sz top le =
      Ends-when (not (ltb i sz)) _ _ (λ e. Ends-pure d)
        λ e. Ends-bind _ _ (Ends-copy_one pgdir d i (ground arith)) λ copied.
          Ends-if copied _ _ (Ends-copy_loop pgdir d fuel (add32 i pgsize) sz top (ground arith))
            (Ends-bind _ _ (Ends-freevm d) λ x. Ends-pure 0)

  Ends-copyuvm :
      (data_at pgdir sz : ℕ)
      → data_at < 2 ^ 32
      → sz ≤ kernbase
      → Ends (copyuvm kernel_end data_at pgdir sz)
  unfolding copyuvm
  Ends-copyuvm data_at pgdir sz lt top =
      let one : suc (sz / pgsize + 1) ≡ sz / pgsize + 2 = omega arith in
      Ends-bind _ _ (Ends-setupkvm data_at lt) λ d. Ends-if (d == 0) _ _ (Ends-pure 0) (
        subst (λ n. Ends (copy_loop kernel_end pgdir d n 0 sz)) one
          (Ends-copy_loop pgdir d (sz / pgsize + 1) 0 sz top (omega arith)))

-- On any memory, with a kernel below 2^32, and for sizes `oldsz` of at most KERNBASE, the calls of
-- `allocuvm` (from `oldsz` to any size), `deallocuvm` (from `oldsz`), `freevm`, `setupkvm` and
-- `copyuvm` (of `oldsz` bytes) all return or panic: no loop over pages runs out of the rounds that it
-- is given, also where `deallocuvm` skips to the next page table.
pub vm_ends :
    (kernel_end data_at pgdir oldsz newsz : ℕ) (k : Kmem)
    → data_at < 2 ^ 32
    → oldsz ≤ kernbase
    → (allocuvm kernel_end pgdir oldsz newsz k ≢ out_of_fuel)
      × (deallocuvm kernel_end pgdir oldsz newsz k ≢ out_of_fuel)
      × (freevm kernel_end pgdir k ≢ out_of_fuel)
      × (setupkvm kernel_end data_at k ≢ out_of_fuel)
      × (copyuvm kernel_end data_at pgdir oldsz k ≢ out_of_fuel)
vm_ends kernel_end data_at pgdir oldsz newsz k lt top = (
  (Ends-allocuvm kernel_end pgdir oldsz newsz).at k,
  (Ends-deallocuvm kernel_end pgdir oldsz newsz top).at k,
  (Ends-freevm kernel_end pgdir).at k,
  (Ends-setupkvm kernel_end data_at lt).at k,
  (Ends-copyuvm kernel_end data_at pgdir oldsz lt top).at k,
)
