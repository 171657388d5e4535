-- ===== src/Vm/Ends.antt =====
-- xv6-public/vm.c: the loops over pages come to an end.
pub mod Spaces
use tp2_so.Base.{
  ℕ, zero, suc, ◌+◌, ◌-◌, ◌*◌, ◌/◌, ◌%◌, ◌^◌, ◌≤◌, ◌<◌, ◌≡◌, ◌≢◌, inl, inr, refl, subst, sym, ap,
  ◌∙◌, Bool, true, false, not, Option, none, some, List, [], ◌∷◌, ◌==◌, if◌then◌else◌, ltb, leb,
  arith, add32, sub32, Bool-cases,
}
use tp2_so.Kalloc.{Kmem, pgsize, kernbase, phystop, kalloc, kfree}
use tp2_so.Vm.{
  V, Run, ok, panic, out_of_fuel, pure, panics, no_fuel, load, store, and_then, ◌>>=◌, ◌>>◌,
  get_page, free_page, clear_page, copy_page, new_table, walkpgdir, set_entry, map_page, map_pages,
  mappages, pdx, round_up, round_down,
}
use tp2_so.Vm.Spaces.{
  Kmap, kmap, next_table, unmap_entry, dealloc_loop, deallocuvm, free_table, free_tables, freevm,
  map_kernel, setupkvm, grow_page, alloc_loop, allocuvm, copy_one, copy_loop, copyuvm, npdentries,
}

-- On any memory, the code returns or panics.
pub record Ends {A : Type 0} (m : V A) : Type 0 where
  pub at : (k : Kmem) → m k ≢ out_of_fuel

ok_ends : {A : Type 0} (a : A) (k : Kmem) → ok a k ≢ out_of_fuel
ok_ends a k e = cc e

panic_ends : {A : Type 0} → ◌≢◌ {A = Run A} panic out_of_fuel
panic_ends e = cc e

module _ {A : Type 0} where
  pub Ends-pure : (a : A) → Ends (pure a)
  unfolding pure
  Ends-pure a = record { at = λ k. ok_ends a k }

  pub Ends-panics : Ends (panics {A = A})
  unfolding panics
  Ends-panics = record { at = λ k. panic_ends }

  pub Ends-if : (b : Bool) (m n : V A) → Ends m → Ends n → Ends (if b then m else n)
  Ends-if true m n h g = h
  Ends-if false m n h g = g

  pub Ends-when :
      (b : Bool) (m n : V A)
      → (b ≡ true → Ends m)
      → (b ≡ false → Ends n)
      → Ends (if b then m else n)
  Ends-when true m n h g = h refl
  Ends-when false m n h g = g refl

module _ {A B : Type 0} where
  and_then_finishes :
      (r : Run A) (f : A → V B)
      → r ≢ out_of_fuel
      → ((a : A) → Ends (f a))
      → and_then r f ≢ out_of_fuel
  and_then_finishes (ok a k) f h g = (g a).at k
  and_then_finishes panic f h g = panic_ends
  and_then_finishes out_of_fuel f h g = absurd (h refl)

  pub Ends-bind : (m : V A) (f : A → V B) → Ends m → ((a : A) → Ends (f a)) → Ends (m >>= f)
  unfolding ◌>>=◌
  Ends-bind m f h g = record { at = λ k. and_then_finishes (m k) f (h.at k) g }

pub Ends-load : (a : ℕ) → Ends (load a)
unfolding load
Ends-load a = record { at = λ k. ok_ends _ k }

pub Ends-store : (a w : ℕ) → Ends (store a w)
unfolding store
Ends-store a w = record { at = λ k. ok_ends _ _ }

pub Ends-get_page : Ends get_page
unfolding get_page
Ends-get_page = record { at = λ k. ok_ends _ _ }

pub Ends-clear_page : (p : ℕ) → Ends (clear_page p)
unfolding clear_page
Ends-clear_page p = record { at = λ k. ok_ends _ _ }

pub Ends-copy_page : (p src : ℕ) → Ends (copy_page p src)
unfolding copy_page
Ends-copy_page p src = record { at = λ k. ok_ends _ _ }

freed_ends :
    (o : Option Kmem)
    → (elim o as (λ _. Run (Unit {0})) [ none ↦ panic | some k ↦ ok tt k ]) ≢ out_of_fuel
freed_ends none = panic_ends
freed_ends (some k) = ok_ends tt k

pub Ends-free_page : (kernel_end v : ℕ) → Ends (free_page kernel_end v)
unfolding free_page
Ends-free_page kernel_end v = record { at = λ k. freed_ends (kfree kernel_end v k) }

pub ruleset ends_rules = (
  Ends-pure, Ends-panics, Ends-if, Ends-bind, Ends-load, Ends-store, Ends-get_page, Ends-clear_page,
  Ends-copy_page, Ends-free_page,
)

pub Ends-walkpgdir : (pgdir va : ℕ) (alloc : Bool) → Ends (walkpgdir pgdir va alloc)
unfolding walkpgdir new_table
Ends-walkpgdir pgdir va alloc = search ends_rules depth 12

Ends-set_entry : (pte pa perm : ℕ) → Ends (set_entry pte pa perm)
unfolding set_entry
Ends-set_entry pte pa perm = search ends_rules depth 14

pub Ends-map_page : (pgdir a pa perm : ℕ) → Ends (map_page pgdir a pa perm)
unfolding map_page
Ends-map_page pgdir a pa perm = search (ends_rules, Ends-walkpgdir, Ends-set_entry) depth 14

-- `fuel` pages lie between `a` and `last`.
pub Ends-map_pages :
    (pgdir fuel a last pa perm : ℕ)
    → a < 2 ^ 32
    → last < 2 ^ 32
    → sub32 last a ≡ fuel * pgsize
    → Ends (map_pages pgdir (suc fuel) a last pa perm)
unfolding map_pages
Ends-map_pages pgdir zero a last pa perm la ll e =
    Ends-bind _ _ (Ends-map_page pgdir a pa perm) λ mapped.
      Ends-if (not mapped) _ _ (Ends-pure false) (
        let there : (a == last) ≡ true = ground arith in
        subst (λ b. Ends (if b then pure true else no_fuel)) (sym there) (Ends-pure true))
Ends-map_pages pgdir (suc fuel) a last pa perm la ll e =
    Ends-bind _ _ (Ends-map_page pgdir a pa perm) λ mapped.
      Ends-if (not mapped) _ _ (Ends-pure false) (
        Ends-if (a == last) _ _ (Ends-pure true) (
          Ends-map_pages pgdir fuel (add32 a pgsize) last (add32 pa pgsize) perm (omega arith) ll
            (omega arith)))

pub Ends-mappages :
    (pgdir va size pa perm : ℕ) → va < 2 ^ 32 → Ends (mappages pgdir va size pa perm)
unfolding mappages
Ends-mappages pgdir va size pa perm lt =
    let last = round_down (sub32 (add32 va size) 1) in
    let n = sub32 last (round_down va) / pgsize in
    let pages : sub32 last (round_down va) ≡ n * pgsize = omega arith in
    let one : suc n ≡ n + 1 = omega arith in
    subst (λ f. Ends (map_pages pgdir f (round_down va) last pa perm)) one
      (Ends-map_pages pgdir n (round_down va) last pa perm (omega arith) (omega arith) pages)
