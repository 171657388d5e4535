-- ===== src/Syscall/Calls.antt =====
-- xv6-public/sysproc.c: the system calls on processes. `m` is the memory of the caller, which is the
-- process in slot `cur`; `none` says that there is no such slot.
use tp2_so.Base.{
  ℕ, Bool, not, Option, none, some, ◌==◌, ◌&&◌, if◌then◌else◌, ltb, get_elem?, sub32, minus_one,
  slt,
}
use tp2_so.Memory.{Mem}
use tp2_so.Proc.{Proc, Kernel}
use tp2_so.Proc.Env.{Env}
use tp2_so.Proc.Sleep.{kill, change_prio}
use tp2_so.Proc.Alloc.{fork, set_prio, growproc}
use tp2_so.Proc.Wait.{Waited, no_child, wait2, wait3}
use tp2_so.Syscall.{argint, argptr}

abbrev pub arg_of : Proc → Mem → ℕ → Option ℕ
arg_of p m n = argint p.sz m p.frame.esp n

abbrev pub ptr_of : Proc → Mem → ℕ → ℕ → Option ℕ
ptr_of p m n size = argptr p.sz m p.frame.esp n size

-- How the loop of `sys_sleep` goes on, with the lock held.
pub data Slept : Type 0 where
  slept interrupted sleeps : Slept

-- One round of the loop of `sys_sleep`. C compares the difference with `n` as unsigned numbers.
unfoldable pub sleep_round : ℕ → ℕ → ℕ → Bool → Slept
sleep_round n ticks0 ticks killed =
    if ltb (sub32 ticks ticks0) n then (if killed then interrupted else sleeps) else slept

unfoldable pub sys_getpid : Proc → ℕ
sys_getpid p = p.pid

unfoldable pub sys_uptime : ℕ → ℕ
sys_uptime ticks = ticks

module _ {M : Type 0} where
  unfoldable pub sys_kill : Mem → ℕ → Kernel M → Option (ℕ × Kernel M)
  unfolding kill
  sys_kill m cur k = elim (get_elem? k.procs cur) [
    | none ↦ none
    | some p ↦ some (elim (arg_of p m 0) [
      | none ↦ (minus_one, k)
      | some pid ↦ let (r, ps) = kill pid k.procs in (r, record k { procs = ps })
    ])
  ]

  unfoldable pub sys_change_prio : Mem → ℕ → Kernel M → Option (ℕ × Kernel M)
  unfolding change_prio
  sys_change_prio m cur k = elim (get_elem? k.procs cur) [
    | none ↦ none
    | some p ↦ some (elim (arg_of p m 0) [
      | none ↦ (minus_one, k)
      | some prio ↦
          if not (prio == 1) && (not (prio == 2) && not (prio == 3))
          then (minus_one, k)
          else (let (r, ps) = change_prio prio p.pid k.procs in (r, record k { procs = ps }))
    ])
  ]

module _ {M : Type 0} (env : Env M) where
  unfoldable pub sys_fork : ℕ → Kernel M → Option (ℕ × Kernel M)
  unfolding fork
  sys_fork cur k = fork env cur k

  unfoldable pub sys_set_prio : ℕ → Kernel M → Option (ℕ × Kernel M)
  unfolding set_prio
  sys_set_prio cur k = set_prio env cur k

  -- The answer is the old size.
  unfoldable pub sys_sbrk : Mem → ℕ → Kernel M → Option (ℕ × Kernel M)
  unfolding growproc
  sys_sbrk m cur k = elim (get_elem? k.procs cur) [
    | none ↦ none
    | some p ↦ elim (arg_of p m 0) [
      | none ↦ some (minus_one, k)
      | some n ↦ elim (growproc env n cur k) [
        | none ↦ none
        | some (r, k1) ↦ some (if slt r 0 then (minus_one, k1) else (p.sz, k1))
      ]
    ]
  ]

  -- The three addresses that the times go to, and a round of the wait.
  unfoldable pub sys_wait2 : Mem → ℕ → Kernel M → Option ((ℕ × ℕ × ℕ) × Waited M (ℕ × ℕ × ℕ))
  unfolding wait2
  sys_wait2 m cur k = elim (get_elem? k.procs cur) [
    | none ↦ none
    | some p ↦ elim (ptr_of p m 0 4) [
      | none ↦ some ((0, 0, 0), no_child)
      | some retime ↦ elim (ptr_of p m 1 4) [
        | none ↦ some ((0, 0, 0), no_child)
        | some rutime ↦ elim (ptr_of p m 2 4) [
          | none ↦ some ((0, 0, 0), no_child)
          | some stime ↦ some ((retime, rutime, stime), wait2 env cur k)
        ]
      ]
    ]
  ]

  unfoldable pub sys_wait3 : Mem → ℕ → Kernel M → Option (ℕ × Waited M ℕ)
  unfolding wait3
  sys_wait3 m cur k = elim (get_elem? k.procs cur) [
    | none ↦ none
    | some p ↦ elim (ptr_of p m 0 4) [
      | none ↦ some (0, no_child)
      | some prio ↦ some (prio, wait3 env cur k)
    ]
  ]
