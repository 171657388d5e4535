-- ===== src/System.antt =====
-- proc.c as a whole: any number of CPUs, each in `scheduler` or in a process, interleaved by the
-- sections that run under the lock of the process table.
pub mod Observe
pub mod Effects
pub mod Pids
pub mod Cpus
pub mod Tests
use tp2_so.Base.{
  ℕ, true, ◌+◌, ◌≡◌, Option, none, some, List, ◌==◌, if◌then◌else◌, get_elem?, modify, find_index,
  add32,
}
use tp2_so.Proc.{Proc, ProcState, embryo, runnable, Chan, null, is_unused}
use tp2_so.Proc.Sleep.{wakeup1, kill, change_prio, fall_asleep, set_state}
use tp2_so.Proc.Alloc.{claim, drop_slot, init_proc, inherit}
use tp2_so.Proc.Exit.{exit_locked}
use tp2_so.Proc.Wait.{zombie_child, free_slot, reset_times}
use tp2_so.Proc.Sched.{dispatch, switch_back}

-- A CPU is in the `for` of `scheduler`, about to look at a slot, or runs the process of a slot.
pub data Cpu : Type 0 where
  scanning : ℕ → Cpu
  on : ℕ → Cpu

abbrev pub update : (ℕ → Cpu) → ℕ → Cpu → ℕ → Cpu
update f c v d = if c == d then v else f d

-- `claimed` counts the slots given out by `allocproc` since the start.
pub record System : Type 0 where
  pub procs : List Proc
  pub nextpid : ℕ
  pub initproc : Option ℕ
  pub cpus : ℕ → Cpu
  pub claimed : ℕ

-- `sched` from the process in slot `i`, whose section left the table `ps`, up to the scheduler's
-- next look at the table.
abbrev pub leave : ℕ → ℕ → List Proc → System → System
leave c i ps s = record s {
  procs = (switch_back i ps).1;
  cpus = update s.cpus c (scanning (switch_back i ps).0);
}

-- One section under the lock. The process that makes a call, and when, is left open.
pub data Step (s : System) : System → Type 0 where
  switch :
      (c from i : ℕ) (ps : List Proc)
      → s.cpus c ≡ scanning from
      → dispatch from s.procs ≡ some (i, ps)
      → Step s (record s { procs = ps; cpus = update s.cpus c (on i) })
  restart :
      (c from : ℕ)
      → s.cpus c ≡ scanning from
      → dispatch from s.procs ≡ none
      → Step s (record s { cpus = update s.cpus c (scanning 0) })
  yields :
      (c i : ℕ) → s.cpus c ≡ on i → Step s (leave c i (modify s.procs i (set_state runnable)) s)
  sleeps :
      (c i : ℕ) (ch : Chan)
      → s.cpus c ≡ on i
      → Step s (leave c i (modify s.procs i (fall_asleep ch)) s)
  exits : (c i n : ℕ) → s.cpus c ≡ on i → Step s (leave c i (exit_locked i s.initproc n s.procs) s)
  tidies :
      (c i : ℕ)
      → s.cpus c ≡ on i
      → Step s (record s { procs = modify s.procs i (λ p. record p { chan = null }) })
  claims :
      (n : ℕ)
      → find_index (λ p. is_unused p.state) s.procs ≡ some n
      → Step s (record s {
        procs = modify s.procs n (claim s.nextpid);
        nextpid = add32 s.nextpid 1;
        claimed = s.claimed + 1;
      })
  drops :
      (n : ℕ) (p : Proc)
      → get_elem? s.procs n ≡ some p
      → p.state ≡ embryo
      → Step s (record s { procs = modify s.procs n drop_slot })
  readies :
      (n : ℕ) (p : Proc) (cur pgdir cwd prio : ℕ) (par : Proc) (files : List ℕ)
      → get_elem? s.procs n ≡ some p
      → p.state ≡ embryo
      → Step s (record s { procs = modify s.procs n (inherit cur par pgdir files cwd prio) })
  readies_first :
      (n : ℕ) (p : Proc) (pgdir cwd : ℕ)
      → get_elem? s.procs n ≡ some p
      → p.state ≡ embryo
      → Step s (record s { procs = modify s.procs n (init_proc pgdir cwd); initproc = some n })
  reaps :
      (cur i : ℕ)
      → zombie_child cur s.procs ≡ some i
      → Step s (record s { procs = modify s.procs i free_slot })
  reaps_times :
      (cur i : ℕ)
      → zombie_child cur s.procs ≡ some i
      → Step s (record s { procs = modify s.procs i (λ q. reset_times (free_slot q)) })
  wakes : (ch : Chan) → Step s (record s { procs = wakeup1 ch s.procs })
  kills : (pid : ℕ) → Step s (record s { procs = (kill pid s.procs).1 })
  reprios : (prio pid : ℕ) → Step s (record s { procs = (change_prio prio pid s.procs).1 })

-- The table at boot: every slot is free, `nextpid` is 1, and every CPU is about to scan.
pub data Boots (s : System) : Type 0 where
  boots :
      ((j : ℕ) (p : Proc) → get_elem? s.procs j ≡ some p → is_unused p.state ≡ true)
      → s.nextpid ≡ 1
      → s.claimed ≡ 0
      → ((c : ℕ) → s.cpus c ≡ scanning 0)
      → Boots s

pub data Reach : System → Type 0 where
  start : {s : System} → Boots s → Reach s
  later : {s t : System} → Reach s → Step s t → Reach t
