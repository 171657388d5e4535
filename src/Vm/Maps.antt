-- ===== src/Vm/Maps.antt =====
-- xv6-public/vm.c: what `uva2ka` finds after `mappages`.
use Prim.Native.Nat.{bit_or, bit_or-bitwise}
use tp2_so.Base.{
  ℕ, ◌+◌, ◌*◌, ◌/◌, ◌%◌, ◌^◌, ◌≤◌, ◌<◌, ◌≡◌, ◌≢◌, inl, inr, refl, sym, ap, ◌∙◌, subst, Bool, true,
  false, not, ◌==◌, ◌&&◌, if◌then◌else◌, ltb, leb, arith, add32, sub32, Bool-cases,
}
use tp2_so.Kalloc.{Kmem, pgsize, kernbase, kalloc}
use tp2_so.Vm.{
  Run, ok, panic, out_of_fuel, pure, no_fuel, load, written, and_then, ◌>>=◌, pdx, ptx, pte_addr,
  v2p, p2v, is_present, is_user, get_page, clear_page, new_table, walkpgdir, new_entry, set_entry,
  map_page, map_pages, mappages, round_down,
}
use tp2_so.Vm.User.{uva2ka}

-- A page table for `va`, or a page for one: where the entry of `va` is, and what the memory is like
-- when `walkpgdir` has found or made it.
pub record Table (pgdir va pte : ℕ) (k : Kmem) : Type 0 where
  pub entry : is_present (k.word (pgdir + 4 * pdx va)) ≡ true
  pub place : pte ≡ p2v (pte_addr (k.word (pgdir + 4 * pdx va))) + 4 * ptx va
  pub apart : pgdir + 4 * pdx va ≢ pte

-- A present directory entry, or a free page, that is another page than the directory.
pub record Fits (pgdir va : ℕ) (k : Kmem) : Type 0 where
  pub aligned : pgdir % pgsize ≡ 0
  pub other_table :
      is_present (k.word (pgdir + 4 * pdx va)) ≡ true
      → p2v (pte_addr (k.word (pgdir + 4 * pdx va))) ≢ pgdir
  pub free_page :
      (k.freelist % pgsize ≡ 0)
      × (kernbase ≤ k.freelist)
      × (k.freelist < 2 ^ 32)
      × (k.freelist ≢ pgdir)

-- `walkpgdir` finds what is there.
walkpgdir-Table :
    (pgdir va pte : ℕ) (k : Kmem)
    → Table pgdir va pte k
    → (alloc : Bool) → walkpgdir pgdir va alloc k ≡ ok pte k
unfolding walkpgdir ◌>>=◌
walkpgdir-Table pgdir va pte k t alloc =
    ap
      (λ b.
        (if b
            then pure (p2v (pte_addr (k.word (pgdir + 4 * pdx va))) + 4 * ptx va)
            else if not alloc
            then pure 0
            else new_table (pgdir + 4 * pdx va) va)
          k)
      t.entry
    ∙ ap (λ x. ok x k) (sym t.place)

p2v-v2p : (r : ℕ) → kernbase ≤ r → r < 2 ^ 32 → p2v (v2p r) ≡ r
p2v-v2p r le lt = omega arith

-- The memory after a new page table `r`.
abbrev pub with_table : ℕ → ℕ → Kmem → Kmem
with_table pde r k = written pde (v2p r / 8 * 8 + 7) (record k {
  freelist = k.word r;
  word = λ a. if leb r a && ltb a (r + pgsize) then 0 else k.word a;
})

pub new_table_lem :
    (pde va : ℕ) (k : Kmem)
    → kernbase ≤ k.freelist
    → new_table pde va k ≡ ok (k.freelist + 4 * ptx va) (with_table pde k.freelist k)
unfolding new_table ◌>>=◌ clear_page get_page kalloc
new_table_lem pde va k le =
    let some_page : (k.freelist == 0) ≡ false = ground arith in rw some_page refl

with_table-Table :
    (pgdir va : ℕ) (k : Kmem)
    → Fits pgdir va k
    → Table pgdir va (k.freelist + 4 * ptx va) (with_table (pgdir + 4 * pdx va) k.freelist k)
with_table-Table pgdir va k f =
    let r = k.freelist in
    let pde = pgdir + 4 * pdx va in
    let (al, le, lt, ne) = f.free_page in
    let at : (with_table pde r k).word pde ≡ v2p r / 8 * 8 + 7 = ground arith in
    let odd : is_present (v2p r / 8 * 8 + 7) ≡ true = ground arith in
    let back : p2v (pte_addr (v2p r / 8 * 8 + 7)) ≡ r = omega (arith, al, le, lt) in
    record {
      entry = ap is_present at ∙ odd;
      place = ap (λ x. x + 4 * ptx va) (sym back ∙ ap (λ w. p2v (pte_addr w)) (sym at));
      apart = λ e. ne (omega (arith, e, al, f.aligned));
    }

found-Table :
    (pgdir va : ℕ) (k : Kmem)
    → Fits pgdir va k
    → is_present (k.word (pgdir + 4 * pdx va)) ≡ true
    → Table pgdir va (p2v (pte_addr (k.word (pgdir + 4 * pdx va))) + 4 * ptx va) k
found-Table pgdir va k f e = record {
  entry = e;
  place = refl;
  apart = λ q. f.other_table e (omega (arith, q, f.aligned));
}

set_entry_lem :
    (pte pa perm : ℕ) (k k1 : Kmem)
    → set_entry pte pa perm k ≡ ok true k1
    → written pte (new_entry pa perm) k ≡ k1
unfolding set_entry ◌>>=◌
set_entry_lem pte pa perm k k1 e = elim (Bool-cases (pte == 0)) [
  | inl null ↦
      let step : set_entry pte pa perm k ≡ ok false k = rw (null, set_entry) refl in
      absurd (cc (sym step ∙ e))
  | inr some_table ↦ elim (Bool-cases (is_present (k.word pte))) [
    | inl taken ↦
        let step : set_entry pte pa perm k ≡ panic = rw (some_table, set_entry, taken) refl in
        absurd (cc (sym step ∙ e))
    | inr free ↦
        let step : set_entry pte pa perm k ≡ ok true (written pte (new_entry pa perm) k) =
          rw (some_table, set_entry, free) refl in
        cc (sym step ∙ e)
  ]
]

-- The entry of `va` is there, and holds `w`.
abbrev Holds : ℕ → ℕ → ℕ → Kmem → Type 0
Holds pgdir va w k = (pte : ℕ) × Table pgdir va pte k × (k.word pte ≡ w)

written-Holds :
    (pgdir va pte w : ℕ) (k : Kmem) → Table pgdir va pte k → Holds pgdir va w (written pte w k)
written-Holds pgdir va pte w k t =
    let pde = pgdir + 4 * pdx va in
    let ne : pte ≢ pde = λ e. t.apart (sym e) in
    let keep : (written pte w k).word pde ≡ k.word pde = ground arith in
    let at : (written pte w k).word pte ≡ w = ground arith in
    (
      pte,
      record {
        entry = ap is_present keep ∙ t.entry;
        place = t.place ∙ ap (λ x. p2v (pte_addr x) + 4 * ptx va) (sym keep);
        apart = t.apart;
      },
      at,
    )

map_page-Holds :
    (pgdir va pa perm : ℕ) (k k1 : Kmem)
    → Fits pgdir va k
    → map_page pgdir va pa perm k ≡ ok true k1
    → Holds pgdir va (new_entry pa perm) k1
unfolding map_page walkpgdir ◌>>=◌
map_page-Holds pgdir va pa perm k k1 f e =
    let pde = pgdir + 4 * pdx va in
    elim (Bool-cases (is_present (k.word pde))) [
      | inl there ↦
          let pte = p2v (pte_addr (k.word pde)) + 4 * ptx va in
          let t = found-Table pgdir va k f there in
          let step =
            ap (λ r. and_then r (λ p. set_entry p pa perm))
              (walkpgdir-Table pgdir va pte k t true) in
          subst (Holds pgdir va (new_entry pa perm)) (set_entry_lem pte pa perm k k1 (sym step ∙ e))
            (written-Holds pgdir va pte (new_entry pa perm) k t)
      | inr missing ↦
          let pte = k.freelist + 4 * ptx va in
          let k0 = with_table pde k.freelist k in
          let walk : walkpgdir pgdir va true k ≡ ok pte k0 =
            rw (missing, walkpgdir) (new_table_lem pde va k f.free_page.1) in
          let step = ap (λ r. and_then r (λ p. set_entry p pa perm)) walk in
          subst (Holds pgdir va (new_entry pa perm))
            (set_entry_lem pte pa perm k0 k1 (sym step ∙ e))
            (written-Holds pgdir va pte (new_entry pa perm) k0 (with_table-Table pgdir va k f))
    ]

-- A range of one page takes one round.
one_page :
    (pgdir va pa perm : ℕ) (k : Kmem)
    → va % pgsize ≡ 0
    → va + pgsize < 2 ^ 32
    → mappages pgdir va pgsize pa perm k ≡ map_pages pgdir 1 va va pa perm k
unfolding mappages
one_page pgdir va pa perm k al lt =
    let first : round_down va ≡ va = omega arith in
    let last : round_down (sub32 (add32 va pgsize) 1) ≡ va = omega arith in
    let rounds : sub32 va va / pgsize + 1 ≡ 1 = omega arith in
    ap
      (λ x.
        map_pages pgdir (sub32 (round_down (sub32 (add32 va pgsize) 1)) x / pgsize + 1) x
          (round_down (sub32 (add32 va pgsize) 1)) pa perm k)
      first
    ∙ ap (λ x. map_pages pgdir (sub32 x va / pgsize + 1) va x pa perm k) last
    ∙ ap (λ n. map_pages pgdir n va va pa perm k) rounds

one_round :
    (r : Run Bool) (a : ℕ) (k1 : Kmem)
    → and_then r
        (λ mapped. if not mapped then pure false else if a == a then pure true else no_fuel)
      ≡ ok true k1
    → r ≡ ok true k1
unfolding pure
one_round (ok true k) a k1 e =
    let same : (a == a) ≡ true = ground arith in
    sym (ap (λ b. (if b then pure true else no_fuel) k) same) ∙ e
one_round (ok false k) a k1 e = absurd (cc e)
one_round panic a k1 e = absurd (cc e)
one_round out_of_fuel a k1 e = absurd (cc e)

zero_or : (perm : ℕ) → bit_or 0 perm ≡ perm
zero_or perm = simp bit_or-bitwise refl

new_entry-flags : (pa perm : ℕ) → pa % pgsize ≡ 0 → new_entry pa perm ≡ (pa + perm) / 2 * 2 + 1
new_entry-flags pa perm al =
    let or : bit_or (pa % pgsize) perm ≡ perm = ap (λ x. bit_or x perm) al ∙ zero_or perm in
    let whole : pa / pgsize * pgsize ≡ pa = omega (arith, al) in
    ap (λ x. (pa / pgsize * pgsize + x) / 2 * 2 + 1) or ∙ ap (λ x. (x + perm) / 2 * 2 + 1) whole

uva2ka_lem :
    (pgdir va w : ℕ) (k : Kmem)
    → Holds pgdir va w k
    → is_present w ≡ true
    → uva2ka pgdir va k ≡ ok (if is_user w then p2v (pte_addr w) else 0) k
unfolding uva2ka ◌>>=◌
uva2ka_lem pgdir va w k (pte, t, at) there =
    ap
      (λ r. and_then r (λ p. load p >>= λ e.
        if not (is_present e)
        then pure 0
        else if not (is_user e)
        then pure 0
        else pure (p2v (pte_addr e))))
      (walkpgdir-Table pgdir va pte k t false)
    ∙ ap
        (λ e.
          (if not (is_present e)
              then pure 0
              else if not (is_user e)
              then pure 0
              else pure (p2v (pte_addr e)))
            k)
        at
    ∙ elim (Bool-cases (is_user w)) [
      | inl user ↦ rw (there, user) refl
      | inr kernel ↦ rw (there, kernel) refl
    ]

-- Let `mappages` map one page at the page-aligned `va`, below the last page, to the page-aligned
-- physical address `pa`, with flags `perm` below PGSIZE, and return 0. Let the directory be
-- page-aligned, and neither the page table of `va` nor the next free page be the directory itself; that
-- page is page-aligned and at or above KERNBASE. Then `uva2ka` of `va` gives the kernel address of
-- `pa` if `perm` has the user bit, and a null pointer if not.
pub mappages-uva2ka :
    (pgdir va pa perm : ℕ) (k k1 : Kmem)
    → Fits pgdir va k
    → va % pgsize ≡ 0
    → va + pgsize < 2 ^ 32
    → pa % pgsize ≡ 0
    → perm < pgsize
    → mappages pgdir va pgsize pa perm k ≡ ok true k1
    → uva2ka pgdir va k1 ≡ ok (if is_user perm then p2v pa else 0) k1
unfolding map_pages ◌>>=◌
mappages-uva2ka pgdir va pa perm k k1 f va_al lt pa_al small e =
    let round =
      one_round (map_page pgdir va pa perm k) va k1
        (sym (one_page pgdir va pa perm k va_al lt) ∙ e) in
    let held = map_page-Holds pgdir va pa perm k k1 f round in
    let w = new_entry pa perm in
    let flags = new_entry-flags pa perm pa_al in
    let there : is_present w ≡ true = ap is_present flags ∙ ground arith in
    let user : is_user w ≡ is_user perm = ap is_user flags ∙ ground arith in
    let page : pte_addr w ≡ pa = ap pte_addr flags ∙ omega arith in
    uva2ka_lem pgdir va w k1 held there
    ∙ ap (λ b. ok (if b then p2v (pte_addr w) else 0) k1) user
    ∙ ap (λ a. ok (if is_user perm then p2v a else 0) k1) page
