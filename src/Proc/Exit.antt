-- ===== src/Proc/Exit.antt =====
-- proc.c: `exit`.
pub mod Woken
pub mod Parents
pub mod Zombie
use tp2_so.Base.{
  ℕ, zero, suc, get_or, set, Option, none, some, List, ◌==◌, if◌then◌else◌, get_elem?, modify,
}
use tp2_so.Proc.{Proc, Kernel, zombie, nproc, nofile, is_zombie, chan_of, ptr_eq}
use tp2_so.Proc.Outcome.{Outcome, ok, panic, init_exiting}
use tp2_so.Proc.Env.{Env}
use tp2_so.Proc.Sleep.{wakeup1, set_state}

-- One round of the loop over the children, at slot `i`: a zombie among them wakes init.
unfoldable pub abandon_at : Option ℕ → Option ℕ → ℕ → List Proc → List Proc
abandon_at cur init i ps = elim (get_elem? ps i) [
  | none ↦ ps
  | some p ↦
      if ptr_eq p.parent cur
      then (let ps1 = modify ps i (λ q. record q { parent = init }) in
          if is_zombie p.state then wakeup1 (chan_of init) ps1 else ps1)
      else ps
]

-- The loop: `n` rounds are left, from slot `i` on.
unfoldable pub abandon : Option ℕ → Option ℕ → ℕ → ℕ → List Proc → List Proc
abandon cur init zero i ps = ps
abandon cur init (suc n) i ps = abandon cur init n (suc i) (abandon_at cur init i ps)

-- `exit` from `acquire` up to the switch; `n` is the length of the table.
unfoldable pub exit_locked : ℕ → Option ℕ → ℕ → List Proc → List Proc
exit_locked cur init n ps = elim (get_elem? ps cur) [
  | none ↦ ps
  | some p ↦
      modify (abandon (some cur) init n 0 (wakeup1 (chan_of p.parent) ps)) cur (set_state zombie)
]

module _ {M : Type 0} (env : Env M) where
  -- One round of the loop over `ofile`.
  unfoldable pub close_one : ℕ → ℕ → Kernel M → Kernel M
  close_one cur fd k = elim (get_elem? k.procs cur) [
    | none ↦ k
    | some p ↦
        let f = get_or p.ofile fd 0 in
        if f == 0
        then k
        else (let k1 = env.fileclose f k in
            record k1 { procs = modify k1.procs cur (λ q. record q { ofile = set q.ofile fd 0 }) })
  ]

  -- The loop, from descriptor `fd` on, with `n` rounds left.
  unfoldable pub close_files : ℕ → ℕ → ℕ → Kernel M → Kernel M
  close_files cur zero fd k = k
  close_files cur (suc n) fd k = close_files cur n (suc fd) (close_one cur fd k)

  -- `begin_op(); iput(curproc->cwd); end_op(); curproc->cwd = 0;`
  unfoldable pub put_cwd : ℕ → Kernel M → Kernel M
  put_cwd cur k = elim (get_elem? k.procs cur) [
    | none ↦ k
    | some p ↦
        let k1 = env.end_op (env.iput p.cwd (env.begin_op k)) in
        record k1 { procs = modify k1.procs cur (λ q. record q { cwd = 0 }) }
  ]

  -- `exit` up to the switch that never returns.
  unfoldable pub exit : ℕ → Kernel M → Outcome (Kernel M)
  exit cur k =
      if ptr_eq (some cur) k.initproc
      then panic init_exiting
      else (let k1 = put_cwd cur (close_files cur nofile 0 k) in
          ok (record k1 { procs = exit_locked cur k1.initproc nproc k1.procs }))
