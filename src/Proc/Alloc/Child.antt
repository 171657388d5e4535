-- ===== src/Proc/Alloc/Child.antt =====
-- `fork` and `set_prio` of proc.c: the child, and the failures.
use tp2_so.Base.{
  ==_refl, ap, subst, ◌∙◌, ℕ, ◌≡◌, ◌≢◌, ◌⊎◌, ◌≤◌, inl, inr, ◌<◌, ◌^◌, ◌%◌, ◌+◌, refl, true, false,
  some, List, ◌==◌, get_elem?, get_elem?-modify, modify, arith, if◌then◌else◌, Bool-cases, add32,
  srem3, minus_one, take,
}
use tp2_so.Proc.{Proc, Kernel, is_unused, runnable}
use tp2_so.Proc.Env.{Env}
use tp2_so.Proc.Alloc.{
  claim, give_stack, drop_slot, allocproc, copy_parent, fork_with, fork, set_prio, dup_files,
  inherit,
}
use tp2_so.Proc.Alloc.Slots.{SameOrFree, Claimed, allocproc_lem}
use tp2_so.Proc.Alloc.Copied.{Copied, dup_files-Copied}

module _ {M : Type 0} (env : Env M) where
  -- A runnable copy `c` of `p`, process `cur`, that will return 0 from the call, under the pid `pid`, in
  -- the slot of `old`: with a copy of the address space and references of its own to the open files and
  -- to the working directory. The call takes the memory from `m` to `m'`.
  pub record IsChild (cur pid prio : ℕ) (p old c : Proc) (m m' : M) : Type 0 where
    pub ready : c.state ≡ runnable
    pub pid_is : c.pid ≡ pid
    pub parent_is : c.parent ≡ some cur
    pub priority_is : c.priority ≡ prio
    pub frame_is : c.frame ≡ record (p.frame) { eax = 0 }
    pub size_is : c.sz ≡ p.sz
    pub name_is : c.name ≡ take 15 p.name
    pub rutime_is : c.rutime ≡ 0
    pub queue_is : c.queue_time ≡ 0
    pub stack_is : c.kstack ≡ (env.kalloc m).0
    pub pages_are : c.pgdir ≡ (env.copyuvm p.pgdir p.sz (env.kalloc m).1).0
    pub pages_there : c.pgdir ≢ 0
    pub m2 : M
    pub files_are :
        Copied env p.ofile old.ofile (env.copyuvm p.pgdir p.sz (env.kalloc m).1).1 c.ofile m2
    pub cwd_is : c.cwd ≡ (env.idup p.cwd m2).0
    pub memory : m' ≡ (env.idup p.cwd m2).1

module _ {M : Type 0} (env : Env M) where
  -- The call answered the next pid: a free slot holds the child, and no other slot has changed.
  pub record Forked (prio : ℕ → ℕ) (cur ret : ℕ) (p : Proc) (k k' : Kernel M) : Type 0 where
    pub ret_is : ret ≡ k.nextpid
    pub counter : k'.nextpid ≡ add32 k.nextpid 1
    pub n : ℕ
    pub old : Proc
    pub free : get_elem? k.procs n ≡ some old
    pub was_free : is_unused old.state ≡ true
    pub first :
        (j : ℕ) (q : Proc) → j < n → get_elem? k.procs j ≡ some q → is_unused q.state ≡ false
    pub child : Proc
    pub there : get_elem? k'.procs n ≡ some child
    pub is_child : IsChild env cur ret (prio ret) p old child k.mem k'.mem
    pub mark_kept : child.killed ≡ old.killed
    pub others : (j : ℕ) → j ≢ n → get_elem? k'.procs j ≡ get_elem? k.procs j
    pub parent_kept : get_elem? k'.procs cur ≡ some p

  -- The call answered -1: every slot in use is as it was, and no other is in use.
  pub record Refused (ret : ℕ) (k k' : Kernel M) : Type 0 where
    pub ret_is : ret ≡ minus_one
    pub same : SameOrFree k.procs k'.procs

  copy_fails :
      (prio : ℕ → ℕ) (cur n : ℕ) (p old : Proc) (k k1 : Kernel M)
      → Claimed env k k1 n old
      → ((env.copyuvm p.pgdir p.sz k1.mem).0 == 0) ≡ true
      → let r = copy_parent env prio cur p n k1 in Refused r.0 k r.1
  unfolding copy_parent
  copy_fails prio cur n p old k k1 c a =
      rw (c.now, copy_parent, a)
        (record {
          ret_is = refl;
          same = λ j q g. ground (
            arith,
            get_elem?-modify k1.procs n j drop_slot,
            c.others j,
            c.free,
            c.was_free,
            c.now,
          );
        })

  copy_works :
      (prio : ℕ → ℕ) (cur n : ℕ) (p old : Proc) (k k1 : Kernel M)
      → Claimed env k k1 n old
      → get_elem? k.procs cur ≡ some p
      → is_unused p.state ≡ false
      → ((env.copyuvm p.pgdir p.sz k1.mem).0 == 0) ≡ false
      → let r = copy_parent env prio cur p n k1 in Forked prio cur r.0 p k r.1
  unfolding copy_parent
  copy_works prio cur n p old k k1 c g u a =
      rw (c.now, copy_parent, a)
        (record {
          ret_is = refl;
          counter = c.counter;
          n = n;
          old = old;
          free = c.free;
          was_free = c.was_free;
          first = c.first;
          mark_kept = refl;
          child = inherit cur p (env.copyuvm p.pgdir p.sz k1.mem).0 files.0 cwd (prio k.nextpid) np;
          there = at n ∙ rw (==_refl n);
          is_child = record {
            ready = refl;
            pid_is = refl;
            parent_is = refl;
            priority_is = refl;
            frame_is = refl;
            size_is = refl;
            name_is = refl;
            rutime_is = refl;
            queue_is = refl;
            stack_is = refl;
            pages_are = ap (λ m. (env.copyuvm p.pgdir p.sz m).0) c.memory;
            pages_there = λ z. absurd (ground arith);
            m2 = files.1;
            files_are =
                subst
                  (λ m. Copied env p.ofile old.ofile (env.copyuvm p.pgdir p.sz m).1 files.0 files.1)
                  c.memory
                  (dup_files-Copied env p.ofile old.ofile (env.copyuvm p.pgdir p.sz k1.mem).1);
            cwd_is = refl;
            memory = refl;
          };
          others = λ j ne. at j ∙ ground (arith, c.others j);
          parent_kept = at cur ∙ ground (arith, c.others cur, c.free, c.was_free);
        })
    where
      np : Proc
      np = give_stack env.forkret (env.kalloc k.mem).0 (claim k.nextpid old)

      files : List ℕ × M
      files = dup_files env p.ofile np.ofile (env.copyuvm p.pgdir p.sz k1.mem).1

      cwd : ℕ
      cwd = (env.idup p.cwd files.1).0

      child : Proc → Proc
      child = inherit cur p (env.copyuvm p.pgdir p.sz k1.mem).0 files.0 cwd (prio k.nextpid)

      at :
          (j : ℕ)
          → get_elem? (modify k1.procs n child) j
            ≡ (if n == j then some (child np) else get_elem? k1.procs j)
      at j = ground (arith, get_elem?-modify k1.procs n j child, c.now)

  -- `fork_with` on every branch, for a process that is in use.
  fork_with_lem :
      (prio : ℕ → ℕ) (cur : ℕ) (k : Kernel M) (p : Proc)
      → get_elem? k.procs cur ≡ some p
      → is_unused p.state ≡ false
      → (ret : ℕ) × (k' : Kernel M) × (fork_with env prio cur k ≡ some (ret, k'))
        × (Refused ret k k' ⊎ Forked prio cur ret p k k')
  unfolding fork_with
  fork_with_lem prio cur k p g u = elim (allocproc_lem env k) [
    | inl (none_there, same) ↦ (
      minus_one,
      (allocproc env k).1,
      rw (g, fork_with, none_there),
      inl (record { ret_is = refl; same = same }),
    )
    | inr (n, old, there, c) ↦
        let r : ℕ × Kernel M = copy_parent env prio cur p n (allocproc env k).1 in
        (
          r.0,
          r.1,
          rw (g, fork_with, there),
          elim (Bool-cases ((env.copyuvm p.pgdir p.sz (allocproc env k).1.mem).0 == 0)) [
            | inl a ↦ inl (copy_fails prio cur n p old k (allocproc env k).1 c a)
            | inr a ↦ inr (copy_works prio cur n p old k (allocproc env k).1 c g u a)
          ],
        )
  ]

  -- `fork` by a process in use: either it answers -1, with every slot in use as it was and no other
  -- in use, or it answers the next pid, and a slot that was free holds a runnable copy of the caller
  -- with priority 2 that returns 0, with the pages that `copyuvm` made, a stack of its own, what
  -- `filedup` gives for each open file of the caller and `idup` for its working directory; every other
  -- slot, the caller's too, is as it was.
  pub fork_lem :
      (cur : ℕ) (k : Kernel M) (p : Proc)
      → get_elem? k.procs cur ≡ some p
      → is_unused p.state ≡ false
      → (ret : ℕ) × (k' : Kernel M) × (fork env cur k ≡ some (ret, k'))
        × (Refused ret k k' ⊎ Forked (λ pid. 2) cur ret p k k')
  unfolding fork
  fork_lem cur k p g u = fork_with_lem (λ pid. 2) cur k p g u

  -- `set_prio` by a process in use, as long as pids have not become negative: it does what `fork`
  -- does, but the child's priority is its pid modulo 3, plus 1, and so one of 1, 2, 3.
  pub set_prio_lem :
      (cur : ℕ) (k : Kernel M) (p : Proc)
      → get_elem? k.procs cur ≡ some p
      → is_unused p.state ≡ false
      → k.nextpid < 2 ^ 31
      → (ret : ℕ) × (k' : Kernel M) × (set_prio env cur k ≡ some (ret, k'))
        × (Refused ret k k'
            ⊎ (Forked (λ pid. add32 (srem3 pid) 1) cur ret p k k'
                × (add32 (srem3 ret) 1 ≡ ret % 3 + 1)
                × (1 ≤ add32 (srem3 ret) 1)
                × (add32 (srem3 ret) 1 ≤ 3)))
  unfolding set_prio
  set_prio_lem cur k p g u lt =
      let (ret, k', e, r) = fork_with_lem (λ pid. add32 (srem3 pid) 1) cur k p g u in
      (ret, k', e, bounded r)
    where
      bounded :
          {ret : ℕ} {k' : Kernel M}
          → Refused ret k k' ⊎ Forked (λ pid. add32 (srem3 pid) 1) cur ret p k k'
          → Refused ret k k'
            ⊎ (Forked (λ pid. add32 (srem3 pid) 1) cur ret p k k'
                × (add32 (srem3 ret) 1 ≡ ret % 3 + 1)
                × (1 ≤ add32 (srem3 ret) 1)
                × (add32 (srem3 ret) 1 ≤ 3))
      bounded (inl f) = inl f
      bounded {ret} (inr f) =
          let small : ret < 2 ^ 31 = rw f.ret_is lt in
          inr (f, ground arith, ground arith, ground arith)
