-- ===== src/Kalloc/Range.antt =====
-- `freerange` of kalloc.c: its loop and the pages that it frees.
use tp2_so.Base.{
  add32, ℕ, zero, suc, ◌+◌, ◌-◌, ◌/◌, ◌%◌, ◌≤◌, ◌<◌, ◌≡◌, refl, ◌∙◌, true, false, Option, some,
  List, [], ◌∷◌, leb, arith, length,
}
use tp2_so.Kalloc.{Kmem, kfree, pgsize, kernbase, phystop, free_from, freerange, page_round_up}
use tp2_so.Kalloc.FreeList.{IsPage, NotIn, FreeList, kfree_lem}

-- `n` pages from `p` on, the last first, in front of `xs`.
abbrev pub pages : ℕ → ℕ → List ℕ → List ℕ
pages zero p xs = xs
pages (suc n) p xs = pages n (p + pgsize) (p ∷ xs)

abbrev pub AllBelow : ℕ → List ℕ → Type 0
AllBelow p [] = Unit {0}
AllBelow p (x ∷ xs) = (x < p) × AllBelow p xs

AllBelow-mono : (p q : ℕ) (xs : List ℕ) → p ≤ q → AllBelow p xs → AllBelow q xs
AllBelow-mono p q [] h a = tt
AllBelow-mono p q (x ∷ xs) h a = (omega arith, AllBelow-mono p q xs h a.1)

AllBelow-NotIn : (p : ℕ) (xs : List ℕ) → AllBelow p xs → NotIn p xs
AllBelow-NotIn p [] a = tt
AllBelow-NotIn p (x ∷ xs) a = (omega arith, AllBelow-NotIn p xs a.1)

pub length-pages : (n p : ℕ) (xs : List ℕ) → length (pages n p xs) ≡ n + length xs
length-pages zero p xs = omega arith
length-pages (suc n) p xs = omega (arith, length-pages n (p + pgsize) (p ∷ xs))

abbrev pub Freed : ℕ → Kmem → List ℕ → Option (Option Kmem) → Type 0
Freed e k xs r = (k' : Kmem) × (r ≡ some (some k')) × FreeList e k' xs × (k'.use_lock ≡ k.use_lock)

free_one :
    (e vend fuel p q : ℕ) (k k1 : Kmem)
    → leb (add32 p pgsize) vend ≡ true
    → kfree e p k ≡ some k1
    → add32 p pgsize ≡ q
    → free_from e vend (suc fuel) p k ≡ free_from e vend fuel q k1
unfolding free_from
free_one e vend fuel p q k k1 go freed step = rw (go, free_from, freed, step) refl

free_from-Freed :
    (e vend fuel p n : ℕ) (k : Kmem) (xs : List ℕ)
    → kernbase ≤ e
    → e ≤ p
    → p % pgsize ≡ 0
    → p ≤ kernbase + phystop + pgsize
    → vend ≤ kernbase + phystop
    → (vend - p) / pgsize ≡ n
    → n < fuel
    → AllBelow p xs
    → FreeList e k xs
    → Freed e k (pages n p xs) (free_from e vend fuel p k)
unfolding free_from
free_from-Freed e vend zero p n k xs he hp al hb hv hn hf ab f = absurd (omega arith)
free_from-Freed e vend (suc fuel) p zero k xs he hp al hb hv hn hf ab f =
    let stop : leb (add32 p pgsize) vend ≡ false = ground arith in
    (k, rw (stop, free_from), f, refl)
free_from-Freed e vend (suc fuel) p (suc n) k xs he hp al hb hv hn hf ab f =
    let step : add32 p pgsize ≡ p + pgsize = omega arith in
    let go : leb (add32 p pgsize) vend ≡ true = ground arith in
    let pg : IsPage e p = record {
      aligned = al;
      above = hp;
      base = omega arith;
      below = omega arith;
    } in
    let (k1, ok1, f1, u1) = (kfree_lem e p k xs he (omega arith) f).1 pg (AllBelow-NotIn p xs ab) in
    let (k2, ok2, f2, u2) =
      free_from-Freed e vend fuel (p + pgsize) n k1 (p ∷ xs) he (omega arith) (omega arith)
        (omega arith) hv (omega arith) (omega arith)
        (omega arith, AllBelow-mono p (p + pgsize) xs (omega arith) ab) f1 in
    (k2, free_one e vend fuel p (p + pgsize) k k1 go ok1 step ∙ ok2, f2, u2 ∙ u1)

-- `freerange` over a range after the kernel and inside physical memory, above every page that is free
-- already, with more fuel than pages: it ends without a panic, and the free list has grown by exactly
-- the pages that lie whole in the range, each once.
pub freerange_lem :
    (e fuel vstart vend : ℕ) (k : Kmem) (xs : List ℕ)
    → kernbase ≤ e
    → e ≤ vstart
    → vstart ≤ kernbase + phystop
    → vend ≤ kernbase + phystop
    → (vend - page_round_up vstart) / pgsize < fuel
    → AllBelow (page_round_up vstart) xs
    → FreeList e k xs
    → let n = (vend - page_round_up vstart) / pgsize in
      (k' : Kmem) × (freerange e fuel vstart vend k ≡ some (some k'))
      × FreeList e k' (pages n (page_round_up vstart) xs)
      × (length (pages n (page_round_up vstart) xs) ≡ n + length xs)
unfolding freerange
freerange_lem e fuel vstart vend k xs he hs hb hv hf ab f =
    let start = page_round_up vstart in
    let (k', done, fl, u) =
      free_from-Freed e vend fuel start ((vend - start) / pgsize) k xs he (omega arith)
        (omega arith) (omega arith) hv refl hf ab f in
    (k', done, fl, length-pages ((vend - start) / pgsize) start xs)
