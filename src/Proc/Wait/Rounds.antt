-- ===== src/Proc/Wait/Rounds.antt =====
-- One round of `wait`, `wait2` or `wait3`, on every branch.
use tp2_so.Base.{
  ℕ, ◌≡◌, ◌≢◌, ◌⊎◌, inl, inr, refl, none, some, [], ◌==◌, get_elem?, get_elem?-modify, modify,
  arith, Option-cases, Bool-cases,
}
use tp2_so.Proc.{Proc, Kernel, unused, sleeping, proc_at}
use tp2_so.Proc.Env.{Env}
use tp2_so.Proc.Sleep.{fall_asleep}
use tp2_so.Proc.Wait.{
  zombie_child, has_kids, free_slot, reset_times, wait_round, Waited, blocked, no_child, reaped,
  wait, wait2, wait3,
}
use tp2_so.Proc.Wait.Children.{
  Childless, FirstZombie, NoZombie, has_kids-false, has_kids-true, zombie_child-some,
  zombie_child-none,
}

-- What is in a slot that a child has been taken from.
pub record Freed (q : Proc) : Type 0 where
  pub free : q.state ≡ unused
  pub no_pid : q.pid ≡ 0
  pub no_parent : q.parent ≡ none
  pub no_name : q.name ≡ []
  pub not_killed : q.killed ≡ 0
  pub no_stack : q.kstack ≡ 0

-- The priority and the times of the child are still there, or have been reset.
abbrev pub Kept : Proc → Proc → Type 0
Kept z q =
    (q.priority ≡ z.priority) × (q.retime ≡ z.retime) × (q.rutime ≡ z.rutime) × (q.stime ≡ z.stime)

abbrev pub Reset : Proc → Proc → Type 0
Reset z q = (q.priority ≡ 1) × (q.retime ≡ 0) × (q.rutime ≡ 0) × (q.stime ≡ 0)

module _ {M Out : Type 0} (env : Env M) (out : Proc → Out) (Times : Proc → Proc → Type 0) where
  -- The round `r` reaps the first zombie child: its page and its memory are freed, its slot is cleared,
  -- and the other slots are as they were.
  pub record Reaps (cur : ℕ) (k : Kernel M) (r : Waited M Out) : Type 0 where
    pub i : ℕ
    pub z : Proc
    pub is_first : FirstZombie cur i z k.procs
    pub k' : Kernel M
    pub answer : r ≡ reaped z.pid (out z) k'
    pub slot : Proc
    pub cleared : get_elem? k'.procs i ≡ some slot
    pub freed : Freed slot
    pub times : Times z slot
    pub others : (j : ℕ) → j ≢ i → get_elem? k'.procs j ≡ get_elem? k.procs j
    pub memory : k'.mem ≡ env.freevm z.pgdir (env.kfree z.kstack k.mem)

  -- The round answers -1: no child is a zombie, and there is no child or the caller is killed.
  pub record GivesUp (cur : ℕ) (me : Proc) (k : Kernel M) (r : Waited M Out) : Type 0 where
    pub answer : r ≡ no_child
    pub none_dead : NoZombie cur k.procs
    pub why : Childless cur k.procs ⊎ (me.killed ≢ 0)

  -- The round goes to sleep on the caller's own address: there is a child, and none is a zombie.
  pub record Blocks (cur : ℕ) (me : Proc) (k : Kernel M) (r : Waited M Out) : Type 0 where
    pub k' : Kernel M
    pub answer : r ≡ blocked k'
    pub none_dead : NoZombie cur k.procs
    pub alive : me.killed ≡ 0
    pub child : (j : ℕ) × (q : Proc) × (get_elem? k.procs j ≡ some q) × (q.parent ≡ some cur)
    pub asleep : get_elem? k'.procs cur ≡ some (record me { state = sleeping; chan = proc_at cur })
    pub others : (j : ℕ) → j ≢ cur → get_elem? k'.procs j ≡ get_elem? k.procs j

  abbrev pub Ends : ℕ → Proc → Kernel M → Waited M Out → Type 0
  Ends cur me k r = Reaps cur k r ⊎ (GivesUp cur me k r ⊎ Blocks cur me k r)

module _ {M Out : Type 0} (env : Env M) (out : Proc → Out) (clean : Proc → Proc)
    (Times : Proc → Proc → Type 0)
    (does : (z : Proc) → Freed (clean (free_slot z)) × Times z (clean (free_slot z))) where
  reaps :
      (cur : ℕ) (k : Kernel M) (i : ℕ)
      → zombie_child cur k.procs ≡ some i
      → Reaps env out Times cur k (wait_round env out clean cur k)
  unfolding wait_round
  reaps cur k i e =
      let (z, f) = zombie_child-some cur k.procs i e in
      record {
        i = i;
        z = z;
        is_first = f;
        k' = record k {
          procs = modify k.procs i (λ q. clean (free_slot q));
          mem = env.freevm z.pgdir (env.kfree z.kstack k.mem);
        };
        answer = rw (e, wait_round, f.there);
        slot = clean (free_slot z);
        cleared = ground (arith, f.there, get_elem?-modify k.procs i i (λ q. clean (free_slot q)));
        freed = (does z).0;
        times = (does z).1;
        others = λ j ne. ground (arith, get_elem?-modify k.procs i j (λ q. clean (free_slot q)));
        memory = refl;
      }

  wait_round-Ends :
      (cur : ℕ) (me : Proc) (k : Kernel M)
      → get_elem? k.procs cur ≡ some me
      → Ends env out Times cur me k (wait_round env out clean cur k)
  unfolding wait_round
  wait_round-Ends cur me k g = elim (Option-cases (zombie_child cur k.procs)) [
    | inr (i, e) ↦ inl (reaps cur k i e)
    | inl e ↦ elim (Bool-cases (has_kids cur k.procs)) [
      | inr kids ↦ inr (
          inl (record {
            answer = rw (e, wait_round, g, kids);
            none_dead = zombie_child-none cur k.procs e;
            why = inl (has_kids-false cur k.procs kids);
          }))
      | inl kids ↦ elim (Bool-cases (me.killed == 0)) [
        | inr dead ↦ inr (
            inl (record {
              answer = rw (e, wait_round, g, kids, dead);
              none_dead = zombie_child-none cur k.procs e;
              why = inr (ground arith);
            }))
        | inl alive ↦ inr (
            inr (record {
              k' = record k { procs = modify k.procs cur (fall_asleep (proc_at cur)) };
              answer = rw (e, wait_round, g, kids, alive);
              none_dead = zombie_child-none cur k.procs e;
              alive = ground arith;
              child = has_kids-true cur k.procs kids;
              asleep = ground (arith, get_elem?-modify k.procs cur cur (fall_asleep (proc_at cur)));
              others = λ j ne.
                  ground (arith, get_elem?-modify k.procs cur j (fall_asleep (proc_at cur)));
            }))
      ]
    ]
  ]

free_slot-Freed : (z : Proc) → Freed (free_slot z) × Freed (reset_times (free_slot z))
free_slot-Freed z =
    let freed : Freed (free_slot z) = record {
      free = refl;
      no_pid = refl;
      no_parent = refl;
      no_name = refl;
      not_killed = refl;
      no_stack = refl;
    } in
    let again : Freed (reset_times (free_slot z)) = record {
      free = refl;
      no_pid = refl;
      no_parent = refl;
      no_name = refl;
      not_killed = refl;
      no_stack = refl;
    } in
    (freed, again)

-- A round of `wait`, `wait2` or `wait3` by the process `me` answers the pid of the first zombie child,
-- with its `retime`, `rutime` and `stime` in `wait2` and its priority in `wait3`: its stack and memory
-- are freed, its slot alone changes, and is unused, with no pid, parent, name, mark or stack, and in
-- `wait2` and `wait3` priority 1 and times of 0, where `wait` leaves these. Or, where no child is a
-- zombie, the round answers -1 and then there is no child or `me` is killed; or it puts `me` to sleep
-- on its own address, and then `me` has a child and is not killed.
pub waits_lem :
    {M : Type 0} (env : Env M) (cur : ℕ) (me : Proc) (k : Kernel M)
    → get_elem? k.procs cur ≡ some me
    → Ends env (λ z. tt) Kept cur me k (wait env cur k)
      × Ends env (λ z. (z.retime, z.rutime, z.stime)) Reset cur me k (wait2 env cur k)
      × Ends env (λ z. z.priority) Reset cur me k (wait3 env cur k)
unfolding wait wait2 wait3
waits_lem env cur me k g = (
  wait_round-Ends env (λ z. tt) (λ p. p) Kept
      (λ z. ((free_slot-Freed z).0, (refl, refl, refl, refl))) cur me k g,
  wait_round-Ends env (λ z. (z.retime, z.rutime, z.stime)) reset_times Reset
      (λ z. ((free_slot-Freed z).1, (refl, refl, refl, refl))) cur me k g,
  wait_round-Ends env (λ z. z.priority) reset_times Reset
      (λ z. ((free_slot-Freed z).1, (refl, refl, refl, refl))) cur me k g,
)
