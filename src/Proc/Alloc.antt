-- ===== src/Proc/Alloc.antt =====
-- proc.c: `allocproc`, `userinit`, `growproc`, `fork`, `set_prio`.
pub mod Slots
pub mod Copied
pub mod Child
pub mod KilledSlot
use tp2_so.Base.{
  ℕ, ◌+◌, ◌-◌, ◌^◌, false, Option, none, some, List, [], ◌∷◌, ◌==◌, if◌then◌else◌, ltb, get_elem?,
  modify, find_index, take, replicate, minus_one, add32, srem3,
}
use tp2_so.Proc.{Proc, Kernel, TrapFrame, unused, embryo, runnable, is_unused, kstack_size}
use tp2_so.Proc.Outcome.{Outcome, ok, panic, user_init}
use tp2_so.Proc.Env.{Env}

-- What a page of `kalloc` holds where the trap frame is placed: `kfree` has filled it with bytes 1.
abbrev pub junk_word : ℕ
junk_word = 0x0101_0101

abbrev pub junk_frame : TrapFrame
junk_frame = record {
  eax = junk_word;
  trapno = junk_word;
  eip = junk_word;
  esp = junk_word;
  eflags = junk_word;
  cs = 0x0101;
  ds = 0x0101;
  es = 0x0101;
  ss = 0x0101;
  others = replicate 10 junk_word;
}

-- The sizes of `struct trapframe` and `struct context`.
abbrev pub trapframe_size : ℕ
trapframe_size = 76

abbrev pub context_size : ℕ
context_size = 20

-- What `allocproc` writes into the slot that it found, under the table's lock.
abbrev pub claim : ℕ → Proc → Proc
claim pid p = record p {
  state = embryo;
  pid = pid;
  priority = 2;
  retime = 0;
  rutime = 0;
  stime = 0;
  ctime = 0;
  queue_time = 0;
}

abbrev pub give_stack : ℕ → ℕ → Proc → Proc
give_stack forkret a p = record p {
  kstack = a;
  tf = a + kstack_size - trapframe_size;
  frame = junk_frame;
  context = a + kstack_size - trapframe_size - 4 - context_size;
  context_eip = forkret;
}

abbrev pub drop_slot : Proc → Proc
drop_slot p = record p { kstack = 0; state = unused }

-- `userinit`: the segment selectors are (SEG_UCODE << 3) | DPL_USER and the same of SEG_UDATA.
abbrev pub init_proc : ℕ → ℕ → Proc → Proc
init_proc pgdir cwd p = record p {
  pgdir = pgdir;
  sz = 4096;
  frame = record {
    eax = 0;
    trapno = 0;
    eip = 0;
    esp = 4096;
    eflags = 0x200;
    cs = 27;
    ds = 35;
    es = 35;
    ss = 35;
    others = replicate 10 0;
  };
  name = b'i' ∷ b'n' ∷ b'i' ∷ b't' ∷ b'c' ∷ b'o' ∷ b'd' ∷ b'e' ∷ [];
  cwd = cwd;
  state = runnable;
}

-- What the child gets from its parent `p`; `safestrcpy` keeps 15 bytes of the name.
abbrev pub inherit : ℕ → Proc → ℕ → List ℕ → ℕ → ℕ → Proc → Proc
inherit cur p pgdir files cwd prio np = record np {
  pgdir = pgdir;
  sz = p.sz;
  parent = some cur;
  frame = record (p.frame) { eax = 0 };
  ofile = files;
  cwd = cwd;
  name = take 15 p.name;
  state = runnable;
  priority = prio;
}

module _ {M : Type 0} (env : Env M) where
  -- `allocproc` below its search loop.
  unfoldable pub found : ℕ → Kernel M → Option ℕ × Kernel M
  found i k =
      let k1 : Kernel M = record k {
        procs = modify k.procs i (claim k.nextpid);
        nextpid = add32 k.nextpid 1;
      } in
      let r : ℕ × M = env.kalloc k.mem in
      if r.0 == 0
      then (none, record k1 { procs = modify k1.procs i drop_slot; mem = r.1 })
      else (some i, record k1 { procs = modify k1.procs i (give_stack env.forkret r.0); mem = r.1 })

  unfoldable pub allocproc : Kernel M → Option ℕ × Kernel M
  allocproc k = elim (find_index (λ p. is_unused p.state) k.procs) [
    | none ↦ (none, k)
    | some i ↦ found i k
  ]

  -- `allocproc` returns null for a full table, and `userinit` then writes through the null pointer:
  -- `none` for that.
  unfoldable pub userinit : Kernel M → Option (Outcome (Kernel M))
  userinit k =
      let (r, k1) = allocproc k in
      elim r [
        | none ↦ none
        | some i ↦
            let (pgdir, m1) = env.setupkvm k1.mem in
            if pgdir == 0
            then some (panic user_init)
            else (let (root, m2) = env.namei (b'/' ∷ []) (env.inituvm pgdir m1) in
                some (
                  ok (record k1 {
                    procs = modify k1.procs i (init_proc pgdir root);
                    initproc = some i;
                    mem = m2;
                  })))
      ]

  -- `growproc (n)`, with `n` as a pattern: it is positive below 2 ^ 31, and negative above.
  unfoldable pub growproc : ℕ → ℕ → Kernel M → Option (ℕ × Kernel M)
  growproc n cur k = elim (get_elem? k.procs cur) [
    | none ↦ none
    | some p ↦
        let (sz, m1) =
          (if n == 0
            then (p.sz, k.mem)
            else (if ltb n (2 ^ 31)
                then env.allocuvm p.pgdir p.sz (add32 p.sz n) k.mem
                else env.deallocuvm p.pgdir p.sz (add32 p.sz n) k.mem)) in
        if (if n == 0 then false else sz == 0)
        then some (minus_one, record k { mem = m1 })
        else some (
          0,
          record k {
            procs = modify k.procs cur (λ q. record q { sz = sz });
            mem = env.switchuvm (record p { sz = sz }) m1;
          },
        )
  ]

  -- The loop over `ofile`: the child's entry is written where the parent's is open.
  unfoldable pub dup_files : List ℕ → List ℕ → M → List ℕ × M
  dup_files [] child m = (child, m)
  dup_files (f ∷ fs) [] m = ([], m)
  dup_files (f ∷ fs) (c ∷ cs) m =
      let (g, m1) = (if f == 0 then (c, m) else env.filedup f m) in
      let (rest, m2) = dup_files fs cs m1 in (g ∷ rest, m2)

  -- The common body of `fork` and `set_prio` once a slot is there. `prio` gives the priority.
  unfoldable pub copy_parent : (ℕ → ℕ) → ℕ → Proc → ℕ → Kernel M → ℕ × Kernel M
  copy_parent prio cur p n k = elim (get_elem? k.procs n) [
    | none ↦ (minus_one, k)
    | some np ↦
        let (pgdir, m1) = env.copyuvm p.pgdir p.sz k.mem in
        if pgdir == 0
        then (
          minus_one,
          record k { procs = modify k.procs n drop_slot; mem = env.kfree np.kstack m1 },
        )
        else (let (files, m2) = dup_files p.ofile np.ofile m1 in
            let (cwd, m3) = env.idup p.cwd m2 in
            (
              np.pid,
              record k {
                procs = modify k.procs n (inherit cur p pgdir files cwd (prio np.pid));
                mem = m3;
              },
            ))
  ]

  -- `cur` is a slot of the table; out of range there is no such process.
  unfoldable pub fork_with : (ℕ → ℕ) → ℕ → Kernel M → Option (ℕ × Kernel M)
  fork_with prio cur k = elim (get_elem? k.procs cur) [
    | none ↦ none
    | some p ↦
        let (r, k1) = allocproc k in
        some (elim r [ none ↦ (minus_one, k1) | some n ↦ copy_parent prio cur p n k1 ])
  ]

  unfoldable pub fork : ℕ → Kernel M → Option (ℕ × Kernel M)
  unfolding fork_with
  fork cur k = fork_with (λ pid. 2) cur k

  unfoldable pub set_prio : ℕ → Kernel M → Option (ℕ × Kernel M)
  unfolding fork_with
  set_prio cur k = fork_with (λ pid. add32 (srem3 pid) 1) cur k
