-- ===== src/Proc/Wait/Children.antt =====
-- The children of a process in the table of proc.c.
use tp2_so.Base.{
  ℕ, zero, suc, ◌≡◌, ◌≢◌, ◌<◌, inl, inr, refl, true, false, none, some, List, [], ◌∷◌, ◌&&◌,
  get_elem?, arith, Bool-cases, find_index-none, find_index-passes, find_index-first,
}
use tp2_so.Proc.{Proc, zombie, is_zombie, ptr_eq_iff}
use tp2_so.Proc.Wait.{zombie_child, is_child, has_kids}

-- No slot holds a child of `cur`.
abbrev pub Childless : ℕ → List Proc → Type 0
Childless cur ps = (j : ℕ) (q : Proc) → get_elem? ps j ≡ some q → q.parent ≢ some cur

-- Slot `i` is the first that holds a zombie child of `cur`.
pub record FirstZombie (cur i : ℕ) (z : Proc) (ps : List Proc) : Type 0 where
  pub there : get_elem? ps i ≡ some z
  pub dead : z.state ≡ zombie
  pub mine : z.parent ≡ some cur
  pub first :
      (j : ℕ) (q : Proc) → j < i → get_elem? ps j ≡ some q → q.parent ≡ some cur → q.state ≢ zombie

abbrev pub NoZombie : ℕ → List Proc → Type 0
NoZombie cur ps =
    (j : ℕ) (q : Proc) → get_elem? ps j ≡ some q → q.parent ≡ some cur → q.state ≢ zombie

pub has_kids-false : (cur : ℕ) (ps : List Proc) → has_kids cur ps ≡ false → Childless cur ps
unfolding has_kids
has_kids-false cur [] e j q g h = absurd (ground arith)
has_kids-false cur (p ∷ ps) e zero q g h = absurd (ground (arith, ptr_eq_iff p.parent (some cur)))
has_kids-false cur (p ∷ ps) e (suc j) q g h = has_kids-false cur ps (ground arith) j q g h

pub has_kids-true :
    (cur : ℕ) (ps : List Proc)
    → has_kids cur ps ≡ true
    → (j : ℕ) × (q : Proc) × (get_elem? ps j ≡ some q) × (q.parent ≡ some cur)
unfolding has_kids
has_kids-true cur [] e = absurd (ground arith)
has_kids-true cur (p ∷ ps) e = elim (Bool-cases (is_child cur p)) [
  | inl c ↦ (zero, p, refl, (ptr_eq_iff p.parent (some cur)).0 c)
  | inr c ↦ let (j, q, g, h) = has_kids-true cur ps (ground arith) in (suc j, q, g, h)
]

pub zombie_child-some :
    (cur : ℕ) (ps : List Proc) (i : ℕ)
    → zombie_child cur ps ≡ some i
    → (z : Proc) × FirstZombie cur i z ps
unfolding zombie_child
zombie_child-some cur ps i e =
    let (z, g, t) = find_index-passes (λ (q : Proc). is_child cur q && is_zombie q.state) ps i e in
    (
      z,
      record {
        there = g;
        dead = ground arith;
        mine = ground (arith, ptr_eq_iff z.parent (some cur));
        first = λ j q lt gq par dead. ground (
          arith,
          ptr_eq_iff q.parent (some cur),
          find_index-first (λ (q : Proc). is_child cur q && is_zombie q.state) ps i e j q,
        );
      },
    )

pub zombie_child-none : (cur : ℕ) (ps : List Proc) → zombie_child cur ps ≡ none → NoZombie cur ps
unfolding zombie_child
zombie_child-none cur ps e j q g par dead = ground (
  arith,
  ptr_eq_iff q.parent (some cur),
  find_index-none (λ (q : Proc). is_child cur q && is_zombie q.state) ps e j q,
)
