-- ===== src/Proc/Sleep/Kill.antt =====
-- `kill` and `change_prio` of proc.c: which slot they change, and what they answer.
use tp2_so.Base.{
  ℕ, ◌≡◌, ◌≢◌, ◌⊎◌, inl, inr, ◌<◌, refl, none, some, List, ◌==◌, get_elem?, get_elem?-modify,
  modify, arith, find_index, find_index-passes, find_index-first, find_index-none, minus_one,
  Option-cases,
}
use tp2_so.Proc.{Proc, sleeping}
use tp2_so.Proc.Sleep.{kill, kill_proc, change_prio}

-- No slot has the pid.
abbrev pub Absent : ℕ → List Proc → Type 0
Absent pid ps = (j : ℕ) (q : Proc) → get_elem? ps j ≡ some q → q.pid ≢ pid

-- Slot `i` is the first with the pid, and only it has changed, from `p` to `p'`.
pub record ChangesFirst (pid i : ℕ) (p p' : Proc) (ps ps' : List Proc) : Type 0 where
  pub before : get_elem? ps i ≡ some p
  pub has_pid : p.pid ≡ pid
  pub first : (j : ℕ) (q : Proc) → j < i → get_elem? ps j ≡ some q → q.pid ≢ pid
  pub after : get_elem? ps' i ≡ some p'
  pub others : (j : ℕ) → j ≢ i → get_elem? ps' j ≡ get_elem? ps j

change_first :
    (pid i : ℕ) (f : Proc → Proc) (ps : List Proc)
    → find_index (λ p. p.pid == pid) ps ≡ some i
    → (p : Proc) × ChangesFirst pid i p (f p) ps (modify ps i f)
change_first pid i f ps e =
    let (p, g, h) = find_index-passes (λ (q : Proc). q.pid == pid) ps i e in
    (
      p,
      record {
        before = g;
        has_pid = ground arith;
        first = λ j q lt gq eq.
            ground (arith, find_index-first (λ (q : Proc). q.pid == pid) ps i e j q);
        after = ground (arith, get_elem?-modify ps i i f);
        others = λ j ne. ground (arith, get_elem?-modify ps i j f);
      },
    )

absent : (pid : ℕ) (ps : List Proc) → find_index (λ p. p.pid == pid) ps ≡ none → Absent pid ps
absent pid ps e j q g eq = ground (arith, find_index-none (λ (q : Proc). q.pid == pid) ps e j q)

-- `kill` answers -1 and changes nothing where no slot has the pid. Otherwise it answers 0, and the
-- first slot with the pid, alone, is marked killed, keeps its other fields and does not sleep.
pub kill_lem :
    (pid : ℕ) (ps : List Proc)
    → (Absent pid ps × (kill pid ps ≡ (minus_one, ps)))
      ⊎ ((i : ℕ) × (p : Proc) × ((kill pid ps).0 ≡ 0)
          × ChangesFirst pid i p (kill_proc p) ps (kill pid ps).1
          × ((kill_proc p).state ≢ sleeping))
unfolding kill
kill_lem pid ps = elim (Option-cases (find_index (λ p. p.pid == pid) ps)) [
  | inl n ↦ inl (absent pid ps n, rw (n, kill))
  | inr (i, e) ↦
      let (p, c) = change_first pid i kill_proc ps e in
      inr (i, p, rw (e, kill) refl, rw (e, kill) c, λ h. ground arith)
]

-- `change_prio` answers -1 and changes nothing where no slot has the pid. Otherwise it answers 0, and
-- the first slot with the pid, alone, gets the priority and keeps its other fields.
pub change_prio_lem :
    (priority pid : ℕ) (ps : List Proc)
    → (Absent pid ps × (change_prio priority pid ps ≡ (minus_one, ps)))
      ⊎ ((i : ℕ) × (p : Proc) × ((change_prio priority pid ps).0 ≡ 0)
          × ChangesFirst pid i p
              (record p { priority = priority })
              ps
              (change_prio priority pid ps).1)
unfolding change_prio
change_prio_lem priority pid ps = elim (Option-cases (find_index (λ p. p.pid == pid) ps)) [
  | inl n ↦ inl (absent pid ps n, rw (n, change_prio))
  | inr (i, e) ↦
      let (p, c) = change_first pid i (λ q. record q { priority = priority }) ps e in
      inr (i, p, rw (e, change_prio) refl, rw (e, change_prio) c)
]
