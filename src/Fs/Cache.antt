-- ===== src/Fs/Cache.antt =====
-- xv6-public/fs.c: the inode cache over any order of calls, and which inodes its slots hold.
use tp2_so.Base.{
  ℕ, zero, suc, ◌≡◌, inl, inr, refl, ◌∙◌, sym, ap, subst, true, false, none, some, List, ◌==◌,
  if◌then◌else◌, arith, Bool-cases, Option-cases, get_elem?, modify, get_elem?-modify, find_index,
  find_index-passes, find_index-none, slt, replicate,
}
use tp2_so.Fs.{Inode, Fs, ok, Gives, ◌>>=◌}
use tp2_so.Fs.Inodes.{
  iget, idup, change, is_cached, is_empty, one_more, one_less, renamed, new_inode, ninode,
}

-- Slots with references hold different inodes.
pub record Unique (is : List Inode) : Type 0 where
  pub same_slot :
      (p q : ℕ) (i j : Inode)
      → get_elem? is p ≡ some i
      → get_elem? is q ≡ some j
      → slt 0 i.ref ≡ true
      → slt 0 j.ref ≡ true
      → i.dev ≡ j.dev
      → i.inum ≡ j.inum
      → p ≡ q

-- A write of a slot that gives no references to a slot without, and does not rename it.
abbrev Mild : (Inode → Inode) → Inode → Type 0
Mild f i =
    (slt 0 (f i).ref ≡ true → slt 0 i.ref ≡ true) × ((f i).dev ≡ i.dev) × ((f i).inum ≡ i.inum)

-- What a slot held before such a write.
before :
    (is : List Inode) (x p : ℕ) (f : Inode → Inode) (i : Inode)
    → ((j : Inode) → get_elem? is x ≡ some j → Mild f j)
    → get_elem? (modify is x f) p ≡ some i
    → slt 0 i.ref ≡ true
    → (j : Inode) × (get_elem? is p ≡ some j)
      × (slt 0 j.ref ≡ true)
      × (j.dev ≡ i.dev)
      × (j.inum ≡ i.inum)
before is x p f i mild e r = elim (Bool-cases (x == p)) [
  | inr other ↦ (i, ground (arith, get_elem?-modify is x p f), r, refl, refl)
  | inl here ↦ elim (Option-cases (get_elem? is p)) [
    | inl n ↦ absurd (ground (arith, get_elem?-modify is x p f, n))
    | inr (j, g) ↦
        let q : x ≡ p = ground arith in
        let at : get_elem? (modify is x f) p ≡ some (f j) =
          get_elem?-modify is x p f ∙ rw (here, g) refl in
        let fi : f j ≡ i = cc (sym at ∙ e) in
        let (refs, devs, inums) = mild j (ap (get_elem? is) q ∙ g) in
        (
          j,
          g,
          refs (ap (λ y. slt 0 y.ref) fi ∙ r),
          sym devs ∙ ap (λ y. y.dev) fi,
          sym inums ∙ ap (λ y. y.inum) fi,
        )
  ]
]

Unique-modify :
    (is : List Inode) (x : ℕ) (f : Inode → Inode)
    → ((j : Inode) → get_elem? is x ≡ some j → Mild f j)
    → Unique is
    → Unique (modify is x f)
Unique-modify is x f mild u = record {
  same_slot = λ p q i j ei ej ri rj dev inum.
      let (a, ea, ra, da, na) = before is x p f i mild ei ri in
      let (b, eb, rb, db, nb) = before is x q f j mild ej rj in
      u.same_slot p q a b ea eb ra rb (da ∙ dev ∙ sym db) (na ∙ inum ∙ sym nb);
}

if_same : {A : Type 0} (x : ℕ) (a b : A) → (if x == x then a else b) ≡ a
if_same x a b = let e : (x == x) ≡ true = ground arith in rw e refl

renamed_slot :
    (is : List Inode) (x dev inum : ℕ) (i : Inode)
    → get_elem? (modify is x (renamed dev inum)) x ≡ some i
    → (i.dev ≡ dev) × (i.inum ≡ inum)
renamed_slot is x dev inum i e = elim (Option-cases (get_elem? is x)) [
  | inl n ↦ absurd (ground (arith, get_elem?-modify is x x (renamed dev inum), n))
  | inr (j, g) ↦
      let at : get_elem? (modify is x (renamed dev inum)) x ≡ some (renamed dev inum j) =
        get_elem?-modify is x x (renamed dev inum)
        ∙ rw g (if_same x (some (renamed dev inum j)) (some j)) in
      let same : renamed dev inum j ≡ i = cc (sym at ∙ e) in
      (sym (ap (λ y. y.dev) same), sym (ap (λ y. y.inum) same))
]

other_slot :
    (is : List Inode) (x p : ℕ) (f : Inode → Inode)
    → (x == p) ≡ false
    → get_elem? (modify is x f) p ≡ get_elem? is p
other_slot is x p f n = get_elem?-modify is x p f ∙ rw n refl

-- Another slot does not hold the new inode.
clash :
    (is : List Inode) (x q dev inum : ℕ) (i j : Inode)
    → find_index (is_cached dev inum) is ≡ none
    → get_elem? (modify is x (renamed dev inum)) x ≡ some i
    → get_elem? (modify is x (renamed dev inum)) q ≡ some j
    → (x == q) ≡ false
    → slt 0 j.ref ≡ true
    → i.dev ≡ j.dev
    → i.inum ≡ j.inum
    → true ≡ false
clash is x q dev inum i j miss ei ej nq rj de ne =
    let (di, ni) = renamed_slot is x dev inum i ei in
    let held = sym (other_slot is x q (renamed dev inum) nq) ∙ ej in
    let cached : is_cached dev inum j ≡ true = ground arith in
    sym cached ∙ find_index-none (is_cached dev inum) is miss q j held

-- A slot gets another inode, which no slot holds.
Unique-renamed :
    (is : List Inode) (x dev inum : ℕ)
    → find_index (is_cached dev inum) is ≡ none
    → Unique is
    → Unique (modify is x (renamed dev inum))
Unique-renamed is x dev inum miss u = record {
  same_slot = λ p q i j ei ej ri rj de ne. elim (Bool-cases (x == p)) [
    | inl xp ↦ elim (Bool-cases (x == q)) [
      | inl xq ↦ ground arith
      | inr nq ↦
          let xp' : p ≡ x = ground arith in
          absurd (
            cc (
              clash is x q dev inum i j miss
                (ap (get_elem? (modify is x (renamed dev inum))) (sym xp') ∙ ei) ej nq rj de ne))
    ]
    | inr np ↦ elim (Bool-cases (x == q)) [
      | inl xq ↦
          let xq' : q ≡ x = ground arith in
          absurd (
            cc (
              clash is x p dev inum j i miss
                (ap (get_elem? (modify is x (renamed dev inum))) (sym xq') ∙ ej) ei np ri (sym de)
                (sym ne)))
      | inr nq ↦
          u.same_slot p q i j (sym (other_slot is x p (renamed dev inum) np) ∙ ei)
            (sym (other_slot is x q (renamed dev inum) nq) ∙ ej) ri rj de ne
    ]
  ];
}

-- A slot with references.
pub record Held (s : Fs) (ip : ℕ) : Type 0 where
  pub positive : (i : Inode) → get_elem? s.inodes ip ≡ some i → slt 0 i.ref ≡ true

-- The calls on the inode cache: `iget`; `idup` and the end of `iput` by a holder of a reference; and
-- writes of what is neither the name nor the count of a slot.
pub data Call (s : Fs) : Fs → Type 0 where
  gets : {t : Fs} (dev inum ip : ℕ) → iget dev inum s ≡ ok ip t → Call s t
  dups : {t : Fs} (ip p : ℕ) → idup ip s ≡ ok p t → Held s ip → Call s t
  drops : (ip : ℕ) → Held s ip → Call s (record s { inodes = modify s.inodes ip one_less })
  edits :
      (ip : ℕ) (f : Inode → Inode)
      → ((i : Inode) → ((f i).ref ≡ i.ref) × ((f i).dev ≡ i.dev) × ((f i).inum ≡ i.inum))
      → Call s (record s { inodes = modify s.inodes ip f })

pub data Calls (s : Fs) : Fs → Type 0 where
  here : Calls s s
  next : {t u : Fs} → Calls s t → Call t u → Calls s u

iget-Unique :
    (dev inum : ℕ) (s : Fs) → Unique s.inodes → Gives (λ _ t. Unique t.inodes) (iget dev inum s)
unfolding iget
iget-Unique dev inum s u = elim (Option-cases (find_index (is_cached dev inum) s.inodes)) [
  | inr (ip, e) ↦
      let (i, g, cached) = find_index-passes (is_cached dev inum) s.inodes ip e in
      let mild : (j : Inode) → get_elem? s.inodes ip ≡ some j → Mild one_more j = λ j h.
        let same : i ≡ j = cc (sym g ∙ h) in
        (λ r. ap (λ y. slt 0 y.ref) (sym same) ∙ ground arith, refl, refl) in
      rw (e, iget, Gives) (Unique-modify s.inodes ip one_more mild u)
  | inl miss ↦ elim (Option-cases (find_index is_empty s.inodes)) [
    | inl full ↦ rw (miss, iget, full, iget, Gives) tt
    | inr (ip, e) ↦ rw (miss, iget, e, iget, Gives) (Unique-renamed s.inodes ip dev inum miss u)
  ]
]

Call-Unique : {s t : Fs} → Call s t → Unique s.inodes → Unique t.inodes
unfolding idup change ◌>>=◌
Call-Unique {s} {t} (gets dev inum ip e) u =
    subst (Gives λ _ t. Unique t.inodes) e (iget-Unique dev inum s u)
Call-Unique {s} {t} (dups ip p e h) u =
    subst (Gives λ _ t. Unique t.inodes) e
      (Unique-modify s.inodes ip one_more (λ j g. (λ r. h.positive j g, refl, refl)) u)
Call-Unique {s} {t} (drops ip h) u =
    Unique-modify s.inodes ip one_less (λ j g. (λ r. h.positive j g, refl, refl)) u
Call-Unique {s} {t} (edits ip f keeps) u =
    Unique-modify s.inodes ip f
      (λ j g. let (refs, devs, inums) = keeps j in (λ r. ap (slt 0) (sym refs) ∙ r, devs, inums)) u

Calls-Unique : {s t : Fs} → Calls s t → Unique s.inodes → Unique t.inodes
Calls-Unique here u = u
Calls-Unique (next cs c) u = Call-Unique c (Calls-Unique cs u)

no_references :
    (n p : ℕ) (i : Inode) → get_elem? (replicate n new_inode) p ≡ some i → slt 0 i.ref ≡ false
no_references zero p i e = absurd (ground arith)
no_references (suc n) zero i e = let same : new_inode ≡ i = cc e in ap (λ y. slt 0 y.ref) (sym same)
no_references (suc n) (suc p) i e = no_references n p i e

-- From an inode cache without references, as `iinit` leaves it, in any order of calls of `iget`,
-- `idup` and `iput` (which only holders of a reference make for the last two) and of writes of the
-- other fields, two slots with references never hold the same inode of a device: equal pointers are
-- equal inodes.
pub one_inode :
    {s t : Fs} (p q : ℕ) (i j : Inode)
    → s.inodes ≡ replicate ninode new_inode
    → Calls s t
    → get_elem? t.inodes p ≡ some i
    → get_elem? t.inodes q ≡ some j
    → slt 0 i.ref ≡ true
    → slt 0 j.ref ≡ true
    → i.dev ≡ j.dev
    → i.inum ≡ j.inum
    → p ≡ q
one_inode {s} {t} p q i j boot cs ei ej ri rj de ne =
    let first : Unique s.inodes = record {
      same_slot = λ a b k l ek el rk rl dk nk.
          absurd
            (cc (sym rk ∙ no_references ninode a k (ap (λ is. get_elem? is a) (sym boot) ∙ ek)));
    } in
    (Calls-Unique cs first).same_slot p q i j ei ej ri rj de ne
