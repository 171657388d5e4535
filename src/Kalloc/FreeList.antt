-- ===== src/Kalloc/FreeList.antt =====
-- The free list of kalloc.c as a list of pages.
use tp2_so.Base.{
  ℕ, ◌+◌, ◌%◌, ◌^◌, ◌≤◌, ◌<◌, ◌≡◌, ◌≢◌, ◌⊎◌, ◌↔◌, inl, inr, refl, false, none, some, List, [], ◌∷◌,
  arith, Bool-cases,
}
use tp2_so.Kalloc.{Kmem, pgsize, kernbase, phystop, fill_and_link, bad_page, kfree, kalloc}

-- An address that `kfree` accepts.
pub record IsPage (kernel_end v : ℕ) : Type 0 where
  pub aligned : v % pgsize ≡ 0
  pub above : kernel_end ≤ v
  pub base : kernbase ≤ v
  pub below : v < kernbase + phystop

-- The page is none of the list's.
abbrev pub NotIn : ℕ → List ℕ → Type 0
NotIn v [] = Unit {0}
NotIn v (x ∷ xs) = (v ≢ x) × NotIn v xs

-- The pages from `head` on, linked through their first words, with no page twice.
abbrev pub Chain : ℕ → (ℕ → ℕ) → ℕ → List ℕ → Type 0
Chain e word head [] = head ≡ 0
Chain e word head (x ∷ xs) = (head ≡ x) × IsPage e x × NotIn x xs × Chain e word (word x) xs

abbrev pub FreeList : ℕ → Kmem → List ℕ → Type 0
FreeList e k xs = Chain e k.word k.freelist xs

-- Filling a page that is not on the chain leaves the chain.
fill-Chain :
    (e v head : ℕ) (k : Kmem) (xs : List ℕ)
    → v % pgsize ≡ 0
    → NotIn v xs
    → Chain e k.word head xs
    → Chain e (fill_and_link v k) head xs
fill-Chain e v head k [] al n c = c
fill-Chain e v head k (x ∷ xs) al n c =
    let same : fill_and_link v k x ≡ k.word x = ground (arith, c.1.aligned, n.0) in
    (c.0, c.1, c.2, rw same (fill-Chain e v (k.word x) k xs al n.1 c.3))

-- The check of `kfree`, for a kernel that is linked above KERNBASE.
pub good_page : (e v : ℕ) → kernbase ≤ e → v < 2 ^ 32 → bad_page e v ≡ false → IsPage e v
good_page e v h lt b = ground arith

pub page_is_good : (e v : ℕ) → IsPage e v → bad_page e v ≡ false
page_is_good e v p = ground arith

-- `kfree` panics exactly on an address that is not a page of the allocator. Freeing a page that is
-- not free puts it in front of the free list.
pub kfree_lem :
    (e v : ℕ) (k : Kmem) (xs : List ℕ)
    → kernbase ≤ e
    → v < 2 ^ 32
    → FreeList e k xs
    → ((kfree e v k ≡ none) ↔ (¬ IsPage e v))
      × (IsPage e v
          → NotIn v xs
          → (k' : Kmem) × (kfree e v k ≡ some k')
            × FreeList e k' (v ∷ xs)
            × (k'.use_lock ≡ k.use_lock))
unfolding kfree
kfree_lem e v k xs h lt f = (
  (
    λ bad pg. ground (arith, page_is_good e v pg),
    λ np. elim (Bool-cases (bad_page e v)) [
      | inl b ↦ rw (b, kfree)
      | inr b ↦ absurd (np (good_page e v h lt b))
    ],
  ),
  λ pg n.
      let k' : Kmem = record k { freelist = v; word = fill_and_link v k } in
      let head : fill_and_link v k v ≡ k.freelist = ground arith in
      (
        k',
        rw (page_is_good e v pg, kfree),
        (refl, pg, n, rw head (fill-Chain e v k.freelist k xs pg.aligned n f)),
        refl,
      ),
)

-- `kalloc` answers null exactly when no page is free, and changes nothing then. Otherwise it takes
-- the page that was freed last off the list, and leaves memory as it is.
pub kalloc_lem :
    (e : ℕ) (k : Kmem) (xs : List ℕ)
    → FreeList e k xs
    → ((xs ≡ []) × (kalloc k ≡ (0, k)))
      ⊎ ((x : ℕ) × (ys : List ℕ) × (k' : Kmem) × (xs ≡ x ∷ ys)
          × (kalloc k ≡ (x, k'))
          × (x ≢ 0)
          × IsPage e x
          × FreeList e k' ys
          × (k'.word ≡ k.word))
unfolding kalloc
kalloc_lem e k [] f = inl (refl, ground arith)
kalloc_lem e k (x ∷ xs) f = inr (
  x,
  xs,
  record k { freelist = k.word x },
  refl,
  ground (arith, f.0, f.1.base),
  omega (arith, f.1.base),
  f.1,
  f.3,
  refl,
)
