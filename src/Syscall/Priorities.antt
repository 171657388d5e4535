-- ===== src/Syscall/Priorities.antt =====
-- `sys_change_prio` of sysproc.c with `change_prio` of proc.c, and the clock of `sys_sleep`.
use tp2_so.Base.{
  ℕ, ◌≡◌, ◌≤◌, ◌<◌, ◌^◌, ◌⊎◌, ◌↔◌, inl, inr, refl, Bool, true, false, not, some, List, ◌==◌, ◌&&◌,
  get_elem?, minus_one, arith, Option-cases, Bool-cases, add32, sub32,
}
use tp2_so.Memory.{Mem}
use tp2_so.Proc.{Proc, Kernel}
use tp2_so.Proc.Sleep.{change_prio}
use tp2_so.Proc.Sleep.Kill.{ChangesFirst, change_prio_lem}
use tp2_so.Syscall.Calls.{arg_of, sys_change_prio, sleep_round, slept, interrupted}

module _ {M : Type 0} (m : Mem) (cur : ℕ) (p : Proc) (k : Kernel M) where
  -- The call is refused: the argument cannot be read, or is none of 1, 2, 3.
  pub record Refused : Type 0 where
    pub answer : sys_change_prio m cur k ≡ some (minus_one, k)
    pub why : (prio : ℕ) → arg_of p m 0 ≡ some prio → (prio ≡ 0) ⊎ (4 ≤ prio)

  -- The first process with the caller's pid has got the priority of the argument, and no other has
  -- changed.
  pub record Changed : Type 0 where
    pub prio : ℕ
    pub argument : arg_of p m 0 ≡ some prio
    pub in_range : (1 ≤ prio) × (prio ≤ 3)
    pub after : List Proc
    pub answer : sys_change_prio m cur k ≡ some (0, record k { procs = after })
    pub i : ℕ
    pub q : Proc
    pub changes : ChangesFirst p.pid i q (record q { priority = prio }) k.procs after

  change_ok :
      (prio : ℕ)
      → get_elem? k.procs cur ≡ some p
      → arg_of p m 0 ≡ some prio
      → (not (prio == 1) && (not (prio == 2) && not (prio == 3))) ≡ false
      → Changed
  unfolding sys_change_prio
  change_ok prio g a ok = elim (change_prio_lem prio p.pid k.procs) [
    | inl (absent, e) ↦ absurd (absent cur p g refl)
    | inr (i, q, zero_answer, c) ↦ record {
      prio = prio;
      argument = a;
      in_range = (ground arith, ground arith);
      after = (change_prio prio p.pid k.procs).1;
      answer = rw (g, sys_change_prio, a, ok, zero_answer) refl;
      i = i;
      q = q;
      changes = c;
    }
  ]

  -- `sys_change_prio` by the process `p` in slot `cur`: either it answers -1 and changes nothing, and
  -- the argument cannot be read or is not from 1 to 3; or it answers 0, and the first process with
  -- the caller's pid, alone, has the argument, which is from 1 to 3, as its priority.
  pub sys_change_prio_lem : get_elem? k.procs cur ≡ some p → Refused ⊎ Changed
  unfolding sys_change_prio
  sys_change_prio_lem g = elim (Option-cases (arg_of p m 0)) [
    | inl n ↦
        inl (record {
          answer = rw (g, sys_change_prio, n) refl;
          why = λ prio e. absurd (ground arith);
        })
    | inr (prio, a) ↦ elim (Bool-cases (not (prio == 1) && (not (prio == 2) && not (prio == 3)))) [
      | inl bad ↦
          inl (record { answer = rw (g, sys_change_prio, a, bad) refl; why = λ v e. ground arith })
      | inr ok ↦ inr (change_ok prio g a ok)
    ]
  ]

-- `sys_sleep (n)` that began at tick count `start`, `passed` ticks later, with a counter that wraps
-- around: its loop ends with 0 exactly when at least `n` ticks have passed, and with -1 exactly when
-- fewer have and the process is killed.
pub sys_sleep_lem :
    (n start passed : ℕ) (killed : Bool)
    → start < 2 ^ 32
    → passed < 2 ^ 32
    → ((sleep_round n start (add32 start passed) killed ≡ slept) ↔ (n ≤ passed))
      × ((sleep_round n start (add32 start passed) killed ≡ interrupted)
          ↔ ((passed < n) × (killed ≡ true)))
unfolding sleep_round
sys_sleep_lem n start passed killed hs hp =
    let same : sub32 (add32 start passed) start ≡ passed = omega arith in rw same (ground arith)
