-- ===== src/Vm/Owners.antt =====
-- vm.c: a caller of the page allocator that writes to its pages.
use tp2_so.Base.{
  ℕ, ◌+◌, ◌*◌, ◌≤◌, ◌<◌, ◌≡◌, inl, inr, refl, occurs, ◌∷◌, ◌==◌, ◌&&◌, ltb, leb, false, arith,
  Bool-cases,
}
use tp2_so.Kalloc.{pgsize, kernbase, kalloc}
use tp2_so.Kalloc.Owners.{Shared, Uses, next, gets, writes}
use tp2_so.Vm.{pdx, ptx, new_table, ok}
use tp2_so.Vm.Maps.{with_table, new_table_lem}

-- `walkpgdir` that makes a page table in a directory that its caller owns gets one page, and writes only
-- to it and to the directory.
pub new_table-Uses :
    (e pgdir va : ℕ) (s0 s : Shared)
    → Uses e s0 s
    → kernbase ≤ s.kmem.freelist
    → 0 < occurs pgdir s.owned
    → let k = with_table (pgdir + 4 * pdx va) s.kmem.freelist s.kmem in
      (new_table (pgdir + 4 * pdx va) va s.kmem ≡ ok (s.kmem.freelist + 4 * ptx va) k)
      × Uses e s0 (record { kmem = k; owned = s.kmem.freelist ∷ s.owned })
unfolding kalloc
new_table-Uses e pgdir va s0 s us le out =
    let r = s.kmem.freelist in
    let pde = pgdir + 4 * pdx va in
    let k = with_table pde r s.kmem in
    let some_page : (r == 0) ≡ false = ground arith in
    let got : kalloc s.kmem ≡ (r, record (s.kmem) { freelist = s.kmem.word r }) =
      rw (some_page, kalloc) refl in
    (
      new_table_lem pde va s.kmem le,
      next (next us (gets r (record (s.kmem) { freelist = s.kmem.word r }) got (ground arith))) (
          writes k.word (λ a. elim (Bool-cases (a == pde)) [
            | inl entry ↦ inl (pgdir, ground arith, ground arith, ground arith)
            | inr other ↦ elim (Bool-cases (leb r a && ltb a (r + pgsize))) [
              | inl table ↦ inl (r, ground arith, ground arith, ground arith)
              | inr outside ↦ inr (ground arith)
            ]
          ])),
    )
