-- ===== src/Proc.antt =====
-- xv6-public/proc.h, param.h and the record of the process table in proc.c: the data that the
-- process code works on. A `struct proc *` is the index of its slot, and 0 as a pointer is `none`;
-- any other pointer is its address, 0 for null. An `int` is its 32-bit pattern.
pub mod Outcome
pub mod Sleep
pub mod Env
pub mod Alloc
pub mod Exit
pub mod Wait
pub mod Sched
pub mod Tests
use tp2_so.Base.{ℕ, ◌≡◌, ◌↔◌, Bool, true, false, Option, none, some, List, arith, ◌==◌}

-- `enum procstate`
pub data ProcState : Type 0 where
  unused embryo sleeping runnable running zombie : ProcState

-- The channels that the kernel sleeps on: a process (by its address), `&ticks`, any other address.
pub data Chan : Type 0 where
  null ticks : Chan
  proc_at : ℕ → Chan
  address : ℕ → Chan

-- `struct trapframe`: the words that the kernel's C code reads or writes, and the rest.
pub record TrapFrame : Type 0 where
  pub eax : ℕ
  pub trapno : ℕ
  pub eip : ℕ
  pub esp : ℕ
  pub eflags : ℕ
  pub cs : ℕ
  pub ds : ℕ
  pub es : ℕ
  pub ss : ℕ
  pub others : List ℕ

-- `struct proc`. `frame` is what `tf` points at, `context_eip` the one word of `*context` that is
-- not 0 in a new process; `name` holds the bytes before the terminating 0.
pub record Proc : Type 0 where
  pub sz : ℕ
  pub pgdir : ℕ
  pub kstack : ℕ
  pub state : ProcState
  pub pid : ℕ
  pub parent : Option ℕ
  pub tf : ℕ
  pub frame : TrapFrame
  pub context : ℕ
  pub context_eip : ℕ
  pub chan : Chan
  pub killed : ℕ
  pub ofile : List ℕ
  pub cwd : ℕ
  pub name : List ℕ
  pub priority : ℕ
  pub ctime : ℕ
  pub stime : ℕ
  pub retime : ℕ
  pub rutime : ℕ
  pub time_slice : ℕ
  pub queue_time : ℕ

-- param.h
abbrev pub nproc : ℕ
nproc = 64

abbrev pub kstack_size : ℕ
kstack_size = 4096

abbrev pub nofile : ℕ
nofile = 16

abbrev pub interv : ℕ
interv = 5

abbrev pub p1_to_2 : ℕ
p1_to_2 = 200

abbrev pub p2_to_3 : ℕ
p2_to_3 = 100

-- `ptable`, `nextpid` and `initproc`, with `M` for the state of the rest of the kernel (memory,
-- files) that the process code changes through calls only.
pub record Kernel (M : Type 0) : Type 0 where
  pub procs : List Proc
  pub nextpid : ℕ
  pub initproc : Option ℕ
  pub mem : M

abbrev pub is_unused : ProcState → Bool
is_unused unused = true
is_unused _ = false

abbrev pub is_sleeping : ProcState → Bool
is_sleeping sleeping = true
is_sleeping _ = false

abbrev pub is_runnable : ProcState → Bool
is_runnable runnable = true
is_runnable _ = false

abbrev pub is_running : ProcState → Bool
is_running running = true
is_running _ = false

abbrev pub is_zombie : ProcState → Bool
is_zombie zombie = true
is_zombie _ = false

-- Equality of pointers.
abbrev pub chan_eq : Chan → Chan → Bool
chan_eq null null = true
chan_eq ticks ticks = true
chan_eq (proc_at i) (proc_at j) = i == j
chan_eq (address a) (address b) = a == b
chan_eq _ _ = false

abbrev pub ptr_eq : Option ℕ → Option ℕ → Bool
ptr_eq none none = true
ptr_eq (some i) (some j) = i == j
ptr_eq _ _ = false

-- The address of a slot as a channel.
abbrev pub chan_of : Option ℕ → Chan
chan_of none = null
chan_of (some i) = proc_at i

pub chan_eq_refl : (c : Chan) → chan_eq c c ≡ true
chan_eq_refl null = ground arith
chan_eq_refl ticks = ground arith
chan_eq_refl (proc_at i) = ground arith
chan_eq_refl (address a) = ground arith

pub ptr_eq_iff : (a b : Option ℕ) → (ptr_eq a b ≡ true) ↔ (a ≡ b)
ptr_eq_iff none none = ground arith
ptr_eq_iff none (some j) = ground arith
ptr_eq_iff (some i) none = ground arith
ptr_eq_iff (some i) (some j) = ground arith
