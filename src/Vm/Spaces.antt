-- ===== src/Vm/Spaces.antt =====
-- xv6-public/vm.c: address spaces as a whole: made, grown, shrunk, copied and freed.
use tp2_so.Base.{
  ℕ, zero, suc, ◌+◌, ◌*◌, ◌/◌, ◌%◌, ◌^◌, Bool, true, false, not, List, [], ◌∷◌, ◌==◌, if◌then◌else◌,
  ltb, leb, add32, sub32,
}
use tp2_so.Kalloc.{pgsize, kernbase, phystop}
use tp2_so.Vm.{
  V, pure, panics, no_fuel, load, store, ◌>>=◌, ◌>>◌, pdx, pte_addr, pte_flags, round_up, v2p, p2v,
  is_present, pte_w, pte_wu, get_page, free_page, clear_page, copy_page, walkpgdir, mappages,
}

-- A row of `kmap`.
pub record Kmap : Type 0 where
  pub virt : ℕ
  pub phys_start : ℕ
  pub phys_end : ℕ
  pub perm : ℕ

abbrev pub extmem : ℕ
extmem = 0x10_0000

abbrev pub kernlink : ℕ
kernlink = kernbase + extmem

abbrev pub devspace : ℕ
devspace = 0xfe00_0000

abbrev pub npdentries : ℕ
npdentries = 1024

-- The address `data` comes from the linker.
abbrev pub kmap : ℕ → List Kmap
kmap data_at =
    record { virt = kernbase; phys_start = 0; phys_end = extmem; perm = pte_w }
    ∷ (record { virt = kernlink; phys_start = v2p kernlink; phys_end = v2p data_at; perm = 0 }
        ∷ (record { virt = data_at; phys_start = v2p data_at; phys_end = phystop; perm = pte_w }
            ∷ (record { virt = devspace; phys_start = devspace; phys_end = 0; perm = pte_w } ∷ [])))

-- Where the loop of `deallocuvm` goes on after a missing page table.
abbrev pub next_table : ℕ → ℕ
next_table a = add32 (sub32 ((pdx a + 1) * 2 ^ 22 % 2 ^ 32) pgsize) pgsize

module _ (kernel_end : ℕ) where
  -- The branch of `deallocuvm` for a page table entry at `pte`.
  unfoldable pub unmap_entry : ℕ → V (Unit {0})
  unfolding free_page ◌>>=◌
  unmap_entry pte = do
    e ← load pte
    if not (is_present e) then pure tt else (do
      if pte_addr e == 0 then panics else free_page kernel_end (p2v (pte_addr e))
      store pte 0)

  unfoldable pub dealloc_loop : ℕ → ℕ → ℕ → ℕ → V (Unit {0})
  unfolding walkpgdir unmap_entry ◌>>=◌
  dealloc_loop pgdir zero a oldsz = no_fuel
  dealloc_loop pgdir (suc fuel) a oldsz =
      if not (ltb a oldsz)
      then pure tt
      else walkpgdir pgdir a false >>= λ pte.
          if pte == 0
          then dealloc_loop pgdir fuel (next_table a) oldsz
          else unmap_entry pte >> dealloc_loop pgdir fuel (add32 a pgsize) oldsz

  -- At most one round for each page below `oldsz`, and the last test.
  unfoldable pub deallocuvm : ℕ → ℕ → ℕ → V ℕ
  unfolding dealloc_loop ◌>>=◌
  deallocuvm pgdir oldsz newsz =
      if leb oldsz newsz
      then pure oldsz
      else (do dealloc_loop pgdir (oldsz / pgsize + 2) (round_up newsz) oldsz; pure newsz)

  -- The loop of `freevm` from entry `i` on, with `n` left.
  unfoldable pub free_table : ℕ → ℕ → V (Unit {0})
  unfolding free_page ◌>>=◌
  free_table pgdir i = do
    e ← load (pgdir + 4 * i)
    if is_present e then free_page kernel_end (p2v (pte_addr e)) else pure tt

  unfoldable pub free_tables : ℕ → ℕ → ℕ → V (Unit {0})
  unfolding free_table ◌>>=◌
  free_tables pgdir zero i = pure tt
  free_tables pgdir (suc n) i = free_table pgdir i >> free_tables pgdir n (suc i)

  unfoldable pub freevm : ℕ → V (Unit {0})
  unfolding deallocuvm free_tables free_page ◌>>=◌
  freevm pgdir = if pgdir == 0 then panics else (do
    deallocuvm pgdir kernbase 0
    free_tables pgdir npdentries 0
    free_page kernel_end pgdir)

  unfoldable pub map_kernel : ℕ → List Kmap → V ℕ
  unfolding mappages freevm ◌>>=◌
  map_kernel pgdir [] = pure pgdir
  map_kernel pgdir (m ∷ ms) =
      mappages pgdir m.virt (sub32 m.phys_end m.phys_start) m.phys_start m.perm >>= λ mapped.
      if mapped then map_kernel pgdir ms else (freevm pgdir >> pure 0)

  unfoldable pub setupkvm : ℕ → V ℕ
  unfolding get_page clear_page map_kernel ◌>>=◌
  setupkvm data_at = do
    pgdir ← get_page
    if pgdir == 0 then pure 0 else (do
      clear_page pgdir
      if ltb devspace (p2v phystop) then panics else map_kernel pgdir (kmap data_at))

  -- One round of `allocuvm`: `false` when memory is short, after what was done is undone.
  unfoldable pub grow_page : ℕ → ℕ → ℕ → ℕ → V Bool
  unfolding get_page clear_page mappages deallocuvm free_page ◌>>=◌
  grow_page pgdir a oldsz newsz = do
    mem ← get_page
    if mem == 0 then (do deallocuvm pgdir newsz oldsz; pure false) else (do
      clear_page mem
      mapped ← mappages pgdir a pgsize (v2p mem) pte_wu
      if mapped
          then pure true
          else (do deallocuvm pgdir newsz oldsz; free_page kernel_end mem; pure false))

  unfoldable pub alloc_loop : ℕ → ℕ → ℕ → ℕ → ℕ → V ℕ
  unfolding grow_page ◌>>=◌
  alloc_loop pgdir zero a oldsz newsz = no_fuel
  alloc_loop pgdir (suc fuel) a oldsz newsz =
      if not (ltb a newsz)
      then pure newsz
      else grow_page pgdir a oldsz newsz >>= λ grown.
          if grown then alloc_loop pgdir fuel (add32 a pgsize) oldsz newsz else pure 0

  unfoldable pub allocuvm : ℕ → ℕ → ℕ → V ℕ
  unfolding alloc_loop ◌>>=◌
  allocuvm pgdir oldsz newsz =
      if leb kernbase newsz
      then pure 0
      else if ltb newsz oldsz
      then pure oldsz
      else alloc_loop pgdir (newsz / pgsize + 2) (round_up oldsz) oldsz newsz

  -- One round of `copyuvm`: `false` is the jump to `bad`.
  unfoldable pub copy_one : ℕ → ℕ → ℕ → V Bool
  unfolding walkpgdir get_page copy_page mappages free_page ◌>>=◌
  copy_one pgdir d i = do
    pte ← walkpgdir pgdir i false
    if pte == 0 then panics else pure tt
    e ← load pte
    if not (is_present e) then panics else pure tt
    mem ← get_page
    if mem == 0 then pure false else (do
      copy_page mem (p2v (pte_addr e))
      mapped ← mappages d i pgsize (v2p mem) (pte_flags e)
      if mapped then pure true else (do free_page kernel_end mem; pure false))

  unfoldable pub copy_loop : ℕ → ℕ → ℕ → ℕ → ℕ → V ℕ
  unfolding copy_one freevm ◌>>=◌
  copy_loop pgdir d zero i sz = no_fuel
  copy_loop pgdir d (suc fuel) i sz =
      if not (ltb i sz)
      then pure d
      else copy_one pgdir d i >>= λ copied.
          if copied then copy_loop pgdir d fuel (add32 i pgsize) sz else (freevm d >> pure 0)

  unfoldable pub copyuvm : ℕ → ℕ → ℕ → V ℕ
  unfolding setupkvm copy_loop ◌>>=◌
  copyuvm data_at pgdir sz = do
    d ← setupkvm data_at
    if d == 0 then pure 0 else copy_loop pgdir d (sz / pgsize + 2) 0 sz
