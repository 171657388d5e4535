-- ===== src/Proc/Tests.antt =====
-- A concrete table and concrete memory and file code for proc.c.
pub mod Calls
use tp2_so.Base.{ℕ, zero, suc, ◌+◌, none, some, List, [], ◌∷◌, replicate, ◌==◌, if◌then◌else◌}
use tp2_so.Proc.{
  Proc, Kernel, TrapFrame, unused, running, runnable, sleeping, zombie, null, proc_at,
}
use tp2_so.Proc.Env.{Env}

abbrev pub frame0 : TrapFrame
frame0 = record {
  eax = 7;
  trapno = 64;
  eip = 100;
  esp = 4000;
  eflags = 0x200;
  cs = 27;
  ds = 35;
  es = 35;
  ss = 35;
  others = [];
}

-- A slot of the table at boot.
abbrev pub blank : Proc
blank = record {
  sz = 0;
  pgdir = 0;
  kstack = 0;
  state = unused;
  pid = 0;
  parent = none;
  tf = 0;
  frame = frame0;
  context = 0;
  context_eip = 0;
  chan = null;
  killed = 0;
  ofile = replicate 16 0;
  cwd = 0;
  name = [];
  priority = 0;
  ctime = 0;
  stime = 0;
  retime = 0;
  rutime = 0;
  time_slice = 0;
  queue_time = 0;
}

-- init, asleep in `wait`; a process that runs, its child; a runnable one of low priority; and one of
-- high priority.
abbrev pub init : Proc
init = record blank { state = sleeping; pid = 1; chan = proc_at 0; priority = 2; sz = 4096 }

abbrev pub user : Proc
user = record blank {
  state = running;
  pid = 2;
  parent = some 0;
  priority = 2;
  sz = 8192;
  name = b's' ∷ b'h' ∷ [];
  ofile = 5 ∷ replicate 15 0;
}

abbrev pub low : Proc
low = record blank { state = runnable; pid = 3; parent = some 1; priority = 1 }

abbrev pub high : Proc
high = record blank { state = runnable; pid = 4; parent = some 1; priority = 3 }

abbrev pub table : List Proc
table = init ∷ user ∷ low ∷ high ∷ blank ∷ []

-- Memory and files that count the pages given out; a page is 4096 bytes.
abbrev pub env : Env ℕ
env = record {
  forkret = 0x8010_0000;
  kalloc = λ m. (0x8040_0000 + m, m + 4096);
  kfree = λ a m. m;
  setupkvm = λ m. (0x8040_0000 + m, m + 4096);
  copyuvm = λ d sz m. (0x8040_0000 + m, m + 4096);
  freevm = λ d m. m;
  inituvm = λ d m. m;
  allocuvm = λ d old new m. (new, m);
  deallocuvm = λ d old new m. (new, m);
  switchuvm = λ p m. m;
  namei = λ path m. (1, m);
  filedup = λ f m. (f, m);
  idup = λ i m. (i, m);
  fileclose = λ f k. k;
  begin_op = λ k. k;
  iput = λ i k. k;
  end_op = λ k. k;
}

abbrev pub kernel : Kernel ℕ
kernel = record { procs = table; nextpid = 5; initproc = some 0; mem = 0 }
