-- ===== src/Kalloc/Owners.antt =====
-- The pages of kalloc.c that are out, in runs of callers that get pages, write to them and give them
-- back. The links of the free list are words of the same memory.
use tp2_so.Base.{
  occurs, occurs-append, ◌⊎◌, inl, inr, sym, subst, ap, ℕ, ◌+◌, ◌≤◌, ◌<◌, ◌≡◌, ◌≢◌, ◌∙◌, some, List,
  [], ◌∷◌, ◌++◌, ◌==◌, arith, Bool-cases,
}
use tp2_so.Kalloc.{Kmem, pgsize, kernbase, kfree, kalloc}
use tp2_so.Kalloc.FreeList.{IsPage, NotIn, Chain, FreeList, kfree_lem, kalloc_lem}

-- The allocator with the pages that it has given out.
pub record Shared : Type 0 where
  pub kmem : Kmem
  pub owned : List ℕ

-- The address is in a page that is out.
abbrev pub InOwned : ℕ → List ℕ → Type 0
InOwned a owned = (p : ℕ) × (0 < occurs p owned) × (p ≤ a) × (a < p + pgsize)

-- A caller gets a page, gives back one that it owns, or writes to pages that it owns.
pub data Use (e : ℕ) (s : Shared) : Shared → Type 0 where
  gets :
      (r : ℕ) (k : Kmem)
      → kalloc s.kmem ≡ (r, k)
      → r ≢ 0
      → Use e s (record { kmem = k; owned = r ∷ s.owned })
  gives :
      (before after : List ℕ) (v : ℕ) (k : Kmem)
      → s.owned ≡ before ++ (v ∷ after)
      → kfree e v s.kmem ≡ some k
      → Use e s (record { kmem = k; owned = before ++ after })
  writes :
      (word : ℕ → ℕ)
      → ((a : ℕ) → InOwned a s.owned ⊎ (word a ≡ s.kmem.word a))
      → Use e s (record { kmem = record (s.kmem) { word = word }; owned = s.owned })

pub data Uses (e : ℕ) (s : Shared) : Shared → Type 0 where
  here : Uses e s s
  next : {t u : Shared} → Uses e s t → Use e t u → Uses e s u

-- Free and owned pages together have no page twice, and all are pages.
pub record Apart (e : ℕ) (s : Shared) : Type 0 where
  pub free : List ℕ
  pub chain : FreeList e s.kmem free
  pub once : (a : ℕ) → occurs a free + occurs a s.owned ≤ 1
  pub pages : (a : ℕ) → 0 < occurs a s.owned → IsPage e a

NotIn-of_occurs : (v : ℕ) (xs : List ℕ) → occurs v xs ≡ 0 → NotIn v xs
NotIn-of_occurs v [] e = tt
NotIn-of_occurs v (x ∷ xs) e = (ground arith, NotIn-of_occurs v xs (ground arith))

gets-Apart :
    (e r : ℕ) (s : Shared) (k : Kmem)
    → kalloc s.kmem ≡ (r, k)
    → r ≢ 0
    → Apart e s
    → Apart e (record { kmem = k; owned = r ∷ s.owned })
gets-Apart e r s k eq ne a = elim (kalloc_lem e s.kmem a.free a.chain) [
  | inl (nil, same) ↦ absurd (ground arith)
  | inr (x, ys, k', split, eq', pos, pg, fl, w) ↦
      let rx : x ≡ r = ground arith in
      let kk : k' ≡ k = ground arith in
      record {
        free = ys;
        chain = subst (λ q. FreeList e q ys) kk fl;
        once = λ b. ground (arith, a.once b, split);
        pages = λ b h. elim (Bool-cases (r == b)) [
          | inl same ↦ let e1 : x ≡ b = ground arith in subst (IsPage e) e1 pg
          | inr other ↦ a.pages b (ground arith)
        ];
      }
]

gives-Apart :
    (e v : ℕ) (before after : List ℕ) (s : Shared) (k : Kmem)
    → kernbase ≤ e
    → s.owned ≡ before ++ (v ∷ after)
    → kfree e v s.kmem ≡ some k
    → Apart e s
    → Apart e (record { kmem = k; owned = before ++ after })
gives-Apart e v before after s k he split eq a =
    let in_use = λ (b : ℕ). ap (occurs b) split ∙ occurs-append b before (v ∷ after) in
    let owns : 0 < occurs v s.owned = ground (arith, in_use v) in
    let pg = a.pages v owns in
    let free_elsewhere : NotIn v a.free = NotIn-of_occurs v a.free (omega (arith, a.once v)) in
    let (k', eq', fl, u) =
      (kfree_lem e v s.kmem a.free he (omega (arith, pg.below)) a.chain).1 pg free_elsewhere in
    let kk : k' ≡ k = ground arith in
    record {
      free = v ∷ a.free;
      chain = subst (λ q. FreeList e q (v ∷ a.free)) kk fl;
      once = λ b. ground (arith, a.once b, in_use b, occurs-append b before after);
      pages = λ b h. a.pages b (ground (arith, in_use b, occurs-append b before after));
    }

-- Writes to owned pages leave the links in the free ones.
writes-Chain :
    (e head : ℕ) (word word1 : ℕ → ℕ) (xs owned : List ℕ)
    → ((a : ℕ) → 0 < occurs a xs → 0 < occurs a owned → ⊥)
    → ((a : ℕ) → 0 < occurs a owned → IsPage e a)
    → ((a : ℕ) → InOwned a owned ⊎ (word1 a ≡ word a))
    → Chain e word head xs
    → Chain e word1 head xs
writes-Chain e head word word1 [] owned apart pages w c = c
writes-Chain e head word word1 (x ∷ xs) owned apart pages w c =
    let same : word1 x ≡ word x = elim (w x) [
      | inr kept ↦ kept
      | inl (p, out, from, to) ↦
          let pg = pages p out in
          let it : p ≡ x = omega (arith, pg.aligned, c.1.aligned, from, to) in
          absurd (apart x (ground arith) (subst (λ a. 0 < occurs a owned) it out))
    ] in
    let rest =
      writes-Chain e (word x) word word1 xs owned (λ a h o. apart a (ground arith) o) pages w c.3 in
    (c.0, c.1, c.2, subst (λ h. Chain e word1 h xs) (sym same) rest)

writes-Apart :
    (e : ℕ) (s : Shared) (word : ℕ → ℕ)
    → ((a : ℕ) → InOwned a s.owned ⊎ (word a ≡ s.kmem.word a))
    → Apart e s
    → Apart e (record { kmem = record (s.kmem) { word = word }; owned = s.owned })
writes-Apart e s word w a = record {
  free = a.free;
  chain =
      writes-Chain e s.kmem.freelist s.kmem.word word a.free s.owned
        (λ b f o. absurd (omega (arith, a.once b))) a.pages w a.chain;
  once = a.once;
  pages = a.pages;
}

Uses-Apart : {e : ℕ} {s t : Shared} → kernbase ≤ e → Uses e s t → Apart e s → Apart e t
Uses-Apart he here a = a
Uses-Apart {e} he (next us (gets r k eq ne)) a = gets-Apart e r _ k eq ne (Uses-Apart he us a)
Uses-Apart {e} he (next us (gives before after v k split eq)) a =
    gives-Apart e v before after _ k he split eq (Uses-Apart he us a)
Uses-Apart {e} he (next us (writes word w)) a = writes-Apart e _ word w (Uses-Apart he us a)

-- Callers that write only to pages that they own, and give back only such pages, in any order: from a
-- sound free list with no page given out, the free list stays sound, no page ever has two owners, no owned page is on the free list, and every owned page is
-- a page of the allocator.
pub one_owner :
    (e : ℕ) (k : Kmem) (xs : List ℕ) {t : Shared}
    → kernbase ≤ e
    → FreeList e k xs
    → ((a : ℕ) → occurs a xs ≤ 1)
    → Uses e (record { kmem = k; owned = [] }) t
    → (free : List ℕ) × FreeList e t.kmem free
      × ((a : ℕ) → occurs a free + occurs a t.owned ≤ 1)
      × ((a : ℕ) → 0 < occurs a t.owned → IsPage e a)
one_owner e k xs he f once us =
    let a = Uses-Apart he us (record {
      free = xs;
      chain = f;
      once = λ b. omega (arith, once b);
      pages = λ b h. absurd (omega arith);
    }) in
    (a.free, a.chain, a.once, a.pages)
