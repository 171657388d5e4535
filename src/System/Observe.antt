-- ===== src/System/Observe.antt =====
-- What the sections of proc.c do to two views of the table: which slots run, and the pids in use.
use tp2_so.Base.{
  find_index, ℕ, zero, suc, ◌≡◌, inl, inr, refl, ◌∙◌, Bool, true, false, Option, none, some, List,
  ◌==◌, get_elem?, get_elem?-modify, get_elem?-map, modify, arith, opt_map, if◌then◌else◌,
  Option-cases,
}
use tp2_so.Proc.{Proc, zombie, Chan, is_unused, is_running, chan_of}
use tp2_so.Proc.Sleep.{wakeup1, kill, change_prio, kill_proc, set_state}
use tp2_so.Proc.Sleep.Wake.{wakeup1_at}
use tp2_so.Proc.Sched.{account, account_one, switch_back}
use tp2_so.Proc.Exit.Woken.{wakeup1-AllWoken, abandon-AllWoken}
use tp2_so.Proc.Exit.{abandon_at, abandon, exit_locked}

-- Is the process in the slot running?
abbrev pub run_of : Option Proc → Bool
run_of none = false
run_of (some p) = is_running p.state

abbrev pub run_at : List Proc → ℕ → Bool
run_at ps j = run_of (get_elem? ps j)

-- The pid of a slot in use.
abbrev pub live_of : Option Proc → Option ℕ
live_of none = none
live_of (some p) = if is_unused p.state then none else some p.pid

abbrev pub live_at : List Proc → ℕ → Option ℕ
live_at ps j = live_of (get_elem? ps j)

-- A change of one process that keeps both views.
abbrev pub Keeps : (Proc → Proc) → Type 0
Keeps f =
    (q : Proc)
    → (is_running (f q).state ≡ is_running q.state)
      × (is_unused (f q).state ≡ is_unused q.state)
      × ((f q).pid ≡ q.pid)

-- Two tables with the same views.
abbrev pub SameViews : List Proc → List Proc → Type 0
SameViews ps ps' = (j : ℕ) → (run_at ps' j ≡ run_at ps j) × (live_at ps' j ≡ live_at ps j)

views_of_map :
    (f : Proc → Proc) (k : Keeps f) (o : Option Proc)
    → (run_of (opt_map f o) ≡ run_of o) × (live_of (opt_map f o) ≡ live_of o)
views_of_map f k none = (refl, refl)
views_of_map f k (some p) = ground (arith, k p)

pub modify-SameViews :
    (f : Proc → Proc) (ps : List Proc) (i : ℕ) → Keeps f → SameViews ps (modify ps i f)
modify-SameViews f ps i k j =
    ground (arith, get_elem?-modify ps i j f, views_of_map f k (get_elem? ps j))

pub SameViews-refl : (ps : List Proc) → SameViews ps ps
SameViews-refl ps j = (refl, refl)

pub SameViews-trans : (ps qs rs : List Proc) → SameViews ps qs → SameViews qs rs → SameViews ps rs
SameViews-trans ps qs rs h k j = ((k j).0 ∙ (h j).0, (k j).1 ∙ (h j).1)

pub wakeup1-SameViews : (c : Chan) (ps : List Proc) → SameViews ps (wakeup1 c ps)
wakeup1-SameViews c ps j = ground (arith, wakeup1_at c ps j)

account_one-Keeps : (pid : ℕ) → Keeps (account_one pid)
unfolding account_one
account_one-Keeps pid q = ground arith

pub account-SameViews : (pid : ℕ) (ps : List Proc) → SameViews ps (account pid ps)
unfolding account
account-SameViews pid ps j = ground (
  arith,
  get_elem?-map (account_one pid) ps j,
  views_of_map (account_one pid) (account_one-Keeps pid) (get_elem? ps j),
)

pub switch_back-SameViews : (i : ℕ) (ps : List Proc) → SameViews ps (switch_back i ps).1
unfolding switch_back
switch_back-SameViews i ps j = elim (Option-cases (get_elem? ps i)) [
  | inl n ↦ rw (n, switch_back) (refl, refl)
  | inr (p, g) ↦ rw (g, switch_back) (account-SameViews p.pid ps j)
]

pub kill-SameViews : (pid : ℕ) (ps : List Proc) → SameViews ps (kill pid ps).1
unfolding kill
kill-SameViews pid ps = elim (Option-cases (find_index (λ p. p.pid == pid) ps)) [
  | inl n ↦ rw (n, kill) (SameViews-refl ps)
  | inr (i, e) ↦ rw (e, kill) (modify-SameViews kill_proc ps i (λ q. ground arith))
]

pub change_prio-SameViews :
    (prio pid : ℕ) (ps : List Proc) → SameViews ps (change_prio prio pid ps).1
unfolding change_prio
change_prio-SameViews prio pid ps = elim (Option-cases (find_index (λ p. p.pid == pid) ps)) [
  | inl n ↦ rw (n, change_prio) (SameViews-refl ps)
  | inr (i, e) ↦
      rw (e, change_prio)
        (modify-SameViews (λ p. record p { priority = prio }) ps i (λ q. ground arith))
]

abandon_at-SameViews :
    (cur init : Option ℕ) (i : ℕ) (ps : List Proc) → SameViews ps (abandon_at cur init i ps)
unfolding abandon_at
abandon_at-SameViews cur init i ps j = ground (
  arith,
  modify-SameViews (λ q. record q { parent = init }) ps i (λ q. (refl, refl, refl)) j,
  wakeup1-SameViews (chan_of init) (modify ps i (λ q. record q { parent = init })) j,
)

pub abandon-SameViews :
    (cur init : Option ℕ) (n i : ℕ) (ps : List Proc) → SameViews ps (abandon cur init n i ps)
unfolding abandon
abandon-SameViews cur init zero i ps = SameViews-refl ps
abandon-SameViews cur init (suc n) i ps =
    SameViews-trans ps (abandon_at cur init i ps) _ (abandon_at-SameViews cur init i ps)
      (abandon-SameViews cur init n (suc i) (abandon_at cur init i ps))

-- A write into one slot.
pub modify_views :
    (f : Proc → Proc) (ps : List Proc) (i : ℕ) (p : Proc) (j : ℕ)
    → get_elem? ps i ≡ some p
    → (run_at (modify ps i f) j ≡ (if i == j then is_running (f p).state else run_at ps j))
      × (live_at (modify ps i f) j ≡ (if i == j then live_of (some (f p)) else live_at ps j))
modify_views f ps i p j g = ground (arith, get_elem?-modify ps i j f)

-- `exit` under the lock: the caller's slot stops running, and nothing else changes in the views.
pub exit_views :
    (cur : ℕ) (init : Option ℕ) (n : ℕ) (ps : List Proc) (p : Proc) (j : ℕ)
    → get_elem? ps cur ≡ some p
    → is_unused p.state ≡ false
    → (run_at (exit_locked cur init n ps) j ≡ (if cur == j then false else run_at ps j))
      × (live_at (exit_locked cur init n ps) j ≡ live_at ps j)
unfolding exit_locked
exit_views cur init n ps p j g u =
    let woken : List Proc = wakeup1 (chan_of p.parent) ps in
    let swept : List Proc = abandon (some cur) init n 0 woken in
    let (r1, g1, w1) = wakeup1-AllWoken (chan_of p.parent) ps cur p g in
    let (r, gr, w) = abandon-AllWoken (some cur) init n 0 woken cur r1 g1 in
    let same : SameViews ps swept =
      SameViews-trans ps woken swept (wakeup1-SameViews (chan_of p.parent) ps)
        (abandon-SameViews (some cur) init n 0 woken) in
    rw (g, exit_locked)
      (ground (arith, modify_views (set_state zombie) swept cur r j gr, same j, same cur))

-- A running slot.
pub run_slot :
    (ps : List Proc) (i : ℕ)
    → run_at ps i ≡ true
    → (p : Proc) × (get_elem? ps i ≡ some p) × (is_running p.state ≡ true)
run_slot ps i e = elim (Option-cases (get_elem? ps i)) [
  | inl n ↦ absurd (ground arith)
  | inr (p, g) ↦ (p, g, ground arith)
]

-- A slot in use.
pub live_slot :
    (ps : List Proc) (i pid : ℕ)
    → live_at ps i ≡ some pid
    → (p : Proc) × (get_elem? ps i ≡ some p) × (is_unused p.state ≡ false) × (p.pid ≡ pid)
live_slot ps i pid e = elim (Option-cases (get_elem? ps i)) [
  | inl n ↦ absurd (ground arith)
  | inr (p, g) ↦ (p, g, ground arith, ground arith)
]
