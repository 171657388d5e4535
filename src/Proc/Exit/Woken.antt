-- ===== src/Proc/Exit/Woken.antt =====
-- What the wakeups of `exit` do to the processes of the table, the parents aside.
use tp2_so.Base.{
  ℕ, zero, suc, ◌≡◌, ◌⊎◌, inl, inr, Option, some, List, ◌==◌, get_elem?, get_elem?-modify, modify,
  arith, if◌then◌else◌, Option-cases, Bool-cases,
}
use tp2_so.Proc.{Proc, sleeping, runnable, Chan, is_zombie, ptr_eq, chan_of}
use tp2_so.Proc.Sleep.{wakeup1, wake_if}
use tp2_so.Proc.Sleep.Wake.{wakeup1_at}
use tp2_so.Proc.Exit.{abandon_at, abandon}

-- The state is the same, or the process slept and is runnable.
pub record Woken (q q' : Proc) : Type 0 where
  pub state : (q'.state ≡ q.state) ⊎ ((q.state ≡ sleeping) × (q'.state ≡ runnable))
  pub pid : q'.pid ≡ q.pid
  pub chan : q'.chan ≡ q.chan
  pub priority : q'.priority ≡ q.priority

abbrev pub AllWoken : List Proc → List Proc → Type 0
AllWoken ps ps' =
    (j : ℕ) (q : Proc)
    → get_elem? ps j ≡ some q
    → (q' : Proc) × (get_elem? ps' j ≡ some q') × Woken q q'

Woken-trans : (a b c : Proc) → Woken a b → Woken b c → Woken a c
Woken-trans a b c w v = ground arith

pub AllWoken-refl : (ps : List Proc) → AllWoken ps ps
AllWoken-refl ps j q g = (q, g, ground arith)

pub AllWoken-trans : (ps qs rs : List Proc) → AllWoken ps qs → AllWoken qs rs → AllWoken ps rs
AllWoken-trans ps qs rs h k j q g =
    let (q1, g1, w1) = h j q g in
    let (q2, g2, w2) = k j q1 g1 in (q2, g2, Woken-trans q q1 q2 w1 w2)

wake_if-Woken : (c : Chan) (q : Proc) → Woken q (wake_if c q)
wake_if-Woken c q = ground arith

pub wakeup1-AllWoken : (c : Chan) (ps : List Proc) → AllWoken ps (wakeup1 c ps)
wakeup1-AllWoken c ps j q g = (wake_if c q, ground (arith, wakeup1_at c ps j), wake_if-Woken c q)

adopt-AllWoken :
    (init : Option ℕ) (i : ℕ) (ps : List Proc)
    → AllWoken ps (modify ps i (λ q. record q { parent = init }))
adopt-AllWoken init i ps j q g = (
  (if i == j then record q { parent = init } else q),
  ground (arith, get_elem?-modify ps i j (λ q. record q { parent = init })),
  ground arith,
)

abandon_at-AllWoken :
    (cur init : Option ℕ) (i : ℕ) (ps : List Proc) → AllWoken ps (abandon_at cur init i ps)
unfolding abandon_at
abandon_at-AllWoken cur init i ps = elim (Option-cases (get_elem? ps i)) [
  | inl n ↦ rw (n, abandon_at) (AllWoken-refl ps)
  | inr (p, g) ↦
      let adopted : List Proc = modify ps i (λ q. record q { parent = init }) in
      elim (Bool-cases (ptr_eq p.parent cur)) [
        | inr no_child ↦ rw (g, abandon_at, no_child) (AllWoken-refl ps)
        | inl child ↦ elim (Bool-cases (is_zombie p.state)) [
          | inr z ↦ rw (g, abandon_at, child, z) (adopt-AllWoken init i ps)
          | inl z ↦
              rw (g, abandon_at, child, z)
                (AllWoken-trans ps adopted (wakeup1 (chan_of init) adopted)
                  (adopt-AllWoken init i ps) (wakeup1-AllWoken (chan_of init) adopted))
        ]
      ]
]

pub abandon-AllWoken :
    (cur init : Option ℕ) (n i : ℕ) (ps : List Proc) → AllWoken ps (abandon cur init n i ps)
unfolding abandon
abandon-AllWoken cur init zero i ps = AllWoken-refl ps
abandon-AllWoken cur init (suc n) i ps =
    AllWoken-trans ps (abandon_at cur init i ps) _ (abandon_at-AllWoken cur init i ps)
      (abandon-AllWoken cur init n (suc i) (abandon_at cur init i ps))
