-- ===== src/Proc/Sched/Choice.antt =====
-- Which process the scheduler of proc.c switches to.
use tp2_so.Base.{
  modify, subst, ◌↔◌, ◌-◌, ℕ, zero, suc, ◌+◌, ◌≡◌, ◌⊎◌, inl, inr, refl, ◌≤◌, true, false, none,
  some, List, [], ◌∷◌, get_elem?, drop, find_index, find_index-passes, find_index-none, slt, arith,
  Option-cases, ◌&&◌, Bool-cases,
}
use tp2_so.Proc.{Proc, is_runnable}
use tp2_so.Proc.Sched.{dispatch, start_running, Best, better, highest, first_runnable, choose}

pub slt_irrefl : (a : ℕ) → slt a a ≡ false
slt_irrefl a = ground arith

pub slt_trans_not : (a b c : ℕ) → slt a b ≡ true → slt c b ≡ false → slt c a ≡ false
slt_trans_not a b c h k = ground arith

pub slt_le_trans : (a b c : ℕ) → slt a b ≡ true → slt c b ≡ false → slt a c ≡ true
slt_le_trans a b c h k = ground arith

-- The inner loop's result is at least as good as the candidate it starts from, and as every
-- runnable process that it passes.
highest-ge : (ps : List Proc) (i : ℕ) (b : Best) → slt (highest ps i b).prio b.prio ≡ false
unfolding highest
highest-ge [] i b = slt_irrefl b.prio
highest-ge (p ∷ ps) i b = ground (
  arith,
  highest-ge ps (suc i) (better p i b),
  slt_trans_not b.prio p.priority (highest ps (suc i) (better p i b)).prio,
)

highest-max :
    (ps : List Proc) (i : ℕ) (b : Best) (j : ℕ) (q : Proc)
    → get_elem? ps j ≡ some q
    → is_runnable q.state ≡ true
    → slt (highest ps i b).prio q.priority ≡ false
unfolding highest
highest-max [] i b j q e r = absurd (ground arith)
highest-max (p ∷ ps) i b zero q e r = ground (arith, highest-ge ps (suc i) (better p i b))
highest-max (p ∷ ps) i b (suc j) q e r = highest-max ps (suc i) (better p i b) j q e r

-- It is the candidate itself, or a runnable process of the table with a strictly higher priority.
abbrev Improves : List Proc → ℕ → Best → Best → Type 0
Improves ps i b c =
    (c ≡ b)
    ⊎ ((j : ℕ) × (p : Proc) × (get_elem? ps j ≡ some p)
        × (is_runnable p.state ≡ true)
        × (c ≡ record { slot = i + j; prio = p.priority })
        × (slt b.prio p.priority ≡ true))

pub slt_trans : (a b c : ℕ) → slt a b ≡ true → slt b c ≡ true → slt a c ≡ true
slt_trans a b c h k = ground arith

Improves-keep :
    (p : Proc) (ps : List Proc) (i : ℕ) (b c : Best)
    → Improves ps (suc i) b c
    → Improves (p ∷ ps) i b c
Improves-keep p ps i b c (inl e) = inl e
Improves-keep p ps i b c (inr (j, q, g, r, e, h)) = inr (suc j, q, g, r, ground arith, h)

Improves-better :
    (p : Proc) (ps : List Proc) (i : ℕ) (b c : Best)
    → is_runnable p.state ≡ true
    → slt b.prio p.priority ≡ true
    → Improves ps (suc i) (record { slot = i; prio = p.priority }) c
    → Improves (p ∷ ps) i b c
Improves-better p ps i b c r h (inl e) = inr (zero, p, refl, r, ground arith, h)
Improves-better p ps i b c r h (inr (j, q, g, s, e, k)) =
    inr (suc j, q, g, s, ground arith, slt_trans b.prio p.priority q.priority h k)

highest-Improves : (ps : List Proc) (i : ℕ) (b : Best) → Improves ps i b (highest ps i b)
unfolding highest
highest-Improves [] i b = inl refl
highest-Improves (p ∷ ps) i b = elim (Bool-cases (is_runnable p.state && slt b.prio p.priority)) [
  | inl t ↦
      rw t
        (Improves-better p ps i b _ (ground arith) (ground arith) (highest-Improves ps (suc i) _))
  | inr f ↦ rw f (Improves-keep p ps i b _ (highest-Improves ps (suc i) b))
]

-- What the outer loop's search finds.
pub get_elem?-drop {ℓ} :
    {A : Type ℓ} (n j : ℕ) (xs : List A) → get_elem? (drop n xs) j ≡ get_elem? xs (n + j)
get_elem?-drop zero j xs = ground arith
get_elem?-drop (suc n) j [] = ground arith
get_elem?-drop (suc n) j (x ∷ xs) = ground (arith, get_elem?-drop n j xs)

pub first_runnable-passes :
    (from : ℕ) (ps : List Proc) (i : ℕ)
    → first_runnable from ps ≡ some i
    → (p : Proc) × (get_elem? ps i ≡ some p) × (is_runnable p.state ≡ true)
unfolding first_runnable
first_runnable-passes from ps i e =
    elim (Option-cases (find_index (λ p. is_runnable p.state) (drop from ps))) [
      | inl n ↦ absurd (ground arith)
      | inr (j, f) ↦
          let (p, g, r) =
            find_index-passes (λ (p : Proc). is_runnable p.state) (drop from ps) j f in
          (p, ground (arith, get_elem?-drop from j ps), r)
    ]

first_runnable-ge : (from : ℕ) (ps : List Proc) (i : ℕ) → first_runnable from ps ≡ some i → from ≤ i
unfolding first_runnable
first_runnable-ge from ps i e = ground arith

-- A scan that finds nothing has passed slots that are not runnable.
pub first_runnable-none :
    (from : ℕ) (ps : List Proc)
    → first_runnable from ps ≡ none
    → (j : ℕ) (p : Proc) → from ≤ j
    → get_elem? ps j ≡ some p
    → is_runnable p.state ≡ false
unfolding first_runnable
first_runnable-none from ps e j p h g =
    elim (Option-cases (find_index (λ p. is_runnable p.state) (drop from ps))) [
      | inl n ↦
          find_index-none (λ (p : Proc). is_runnable p.state) (drop from ps) n (j - from) p
            (ground (arith, get_elem?-drop from (j - from) ps))
      | inr (k, f) ↦ absurd (ground arith)
    ]

-- The slot `i` holds a runnable process whose priority no runnable process exceeds.
pub record IsBest (ps : List Proc) (i : ℕ) (p : Proc) : Type 0 where
  pub there : get_elem? ps i ≡ some p
  pub ready : is_runnable p.state ≡ true
  pub top :
      (j : ℕ) (q : Proc)
      → get_elem? ps j ≡ some q
      → is_runnable q.state ≡ true
      → slt p.priority q.priority ≡ false

-- `i` is the first runnable slot `f`, or the process `p` in it beats the one in `f`.
abbrev pub Beats : List Proc → ℕ → ℕ → Proc → Type 0
Beats ps f i p =
    (i ≡ f) ⊎ ((c : Proc) × (get_elem? ps f ≡ some c) × (slt c.priority p.priority ≡ true))

choose_from :
    (ps : List Proc) (f : ℕ) (c : Proc) (r : Best)
    → get_elem? ps f ≡ some c
    → is_runnable c.state ≡ true
    → Improves ps 0 (record { slot = f; prio = c.priority }) r
    → ((j : ℕ) (q : Proc)
        → get_elem? ps j ≡ some q
        → is_runnable q.state ≡ true
        → slt r.prio q.priority ≡ false)
    → (p : Proc) × IsBest ps r.slot p × Beats ps f r.slot p
choose_from ps f c r g s (inl e) top = (
  c,
  record { there = ground arith; ready = s; top = λ j q gq rq. ground (arith, top j q) },
  inl (ground arith),
)
choose_from ps f c r g s (inr (j, q, gq, rq, e, h)) top = (
  q,
  record { there = ground arith; ready = rq; top = λ k u gu ru. ground (arith, top k u) },
  inr (c, g, h),
)

choose-eq :
    (from : ℕ) (ps : List Proc) (f : ℕ) (c : Proc)
    → first_runnable from ps ≡ some f
    → get_elem? ps f ≡ some c
    → choose from ps ≡ some (highest ps 0 (record { slot = f; prio = c.priority })).slot
unfolding choose
choose-eq from ps f c hf hc = ground arith

-- If slot `f` is the first runnable one from `from` on, the scheduler chooses a process: it is
-- runnable, no runnable process of the whole table has a higher priority, and it is the one in `f`
-- unless its priority is higher than that one's.
pub choose_lem :
    (from : ℕ) (ps : List Proc) (f : ℕ)
    → first_runnable from ps ≡ some f
    → (i : ℕ) × (p : Proc) × (choose from ps ≡ some i) × IsBest ps i p × Beats ps f i p
choose_lem from ps f hf =
    let (c, hc, rc) = first_runnable-passes from ps f hf in
    let b : Best = record { slot = f; prio = c.priority } in
    let (p, best, beats) =
      choose_from ps f c (highest ps 0 b) hc rc (highest-Improves ps 0 b) (highest-max ps 0 b) in
    ((highest ps 0 b).slot, p, choose-eq from ps f c hf hc, best, beats)

choose-first : (from : ℕ) (ps : List Proc) → first_runnable from ps ≡ none → choose from ps ≡ none
unfolding choose
choose-first from ps e = rw (e, choose)

-- The `for` ends, with the lock released, exactly when no slot from `from` on is runnable.
pub choose-none_iff :
    (from : ℕ) (ps : List Proc)
    → (choose from ps ≡ none)
      ↔ ((j : ℕ) (p : Proc) → from ≤ j → get_elem? ps j ≡ some p → is_runnable p.state ≡ false)
choose-none_iff from ps = elim (Option-cases (first_runnable from ps)) [
  | inl n ↦ (λ e. first_runnable-none from ps n, λ h. choose-first from ps n)
  | inr (f, e) ↦
      let (i, p, c, best, beats) = choose_lem from ps f e in
      let (q, gq, rq) = first_runnable-passes from ps f e in
      (
        λ n. absurd (ground arith),
        λ h. absurd (ground (arith, h f q, first_runnable-ge from ps f e)),
      )
]

-- What is chosen is always best.
pub choose-IsBest :
    (from : ℕ) (ps : List Proc) (i : ℕ) → choose from ps ≡ some i → (p : Proc) × IsBest ps i p
choose-IsBest from ps i e = elim (Option-cases (first_runnable from ps)) [
  | inl n ↦ absurd (ground (arith, choose-first from ps n))
  | inr (f, h) ↦
      let (j, p, c, best, beats) = choose_lem from ps f h in
      let same : j ≡ i = ground arith in (p, subst (λ k. IsBest ps k p) same best)
]

-- The switch: a runnable slot, and a table that differs in it alone.
pub dispatch_inv :
    (from : ℕ) (ps ps' : List Proc) (i : ℕ)
    → dispatch from ps ≡ some (i, ps')
    → (p : Proc) × IsBest ps i p × (ps' ≡ modify ps i start_running)
unfolding dispatch
dispatch_inv from ps ps' i e = elim (Option-cases (choose from ps)) [
  | inl n ↦ absurd (ground arith)
  | inr (j, c) ↦
      let (p, best) = choose-IsBest from ps j c in
      let same : j ≡ i = ground arith in (p, subst (λ k. IsBest ps k p) same best, ground arith)
]
