-- ===== src/Proc/Wait.antt =====
-- proc.c: `wait`, `wait2`, `wait3`. Each is a loop around one scan of the table; the scan is a
-- function, and the loop goes on after `sleep` has returned.
pub mod Children
pub mod Rounds
use tp2_so.Base.{
  ℕ, Bool, false, not, Option, none, some, List, [], ◌∷◌, ◌==◌, ◌&&◌, ◌||◌, if◌then◌else◌,
  get_elem?, modify, find_index,
}
use tp2_so.Proc.{Proc, Kernel, unused, is_zombie, proc_at, ptr_eq}
use tp2_so.Proc.Env.{Env}
use tp2_so.Proc.Sleep.{fall_asleep}

-- The zombie child that the scan stops at, and whether it has seen a child.
abbrev pub is_child : ℕ → Proc → Bool
is_child cur p = ptr_eq p.parent (some cur)

unfoldable pub zombie_child : ℕ → List Proc → Option ℕ
zombie_child cur = find_index (λ p. is_child cur p && is_zombie p.state)

unfoldable pub has_kids : ℕ → List Proc → Bool
has_kids cur [] = false
has_kids cur (p ∷ ps) = is_child cur p || has_kids cur ps

-- What all three write into the slot that they free.
abbrev pub free_slot : Proc → Proc
free_slot p = record p { kstack = 0; pid = 0; parent = none; name = []; killed = 0; state = unused }

-- What `wait2` and `wait3` reset besides.
abbrev pub reset_times : Proc → Proc
reset_times p = record p { priority = 1; retime = 0; rutime = 0; stime = 0 }

-- How one round ends: with a child's pid and what is stored through the pointers, with -1, or asleep.
pub data Waited (M Out : Type 0) : Type 0 where
  reaped : ℕ → Out → Kernel M → Waited M Out
  no_child : Waited M Out
  blocked : Kernel M → Waited M Out

module _ {M : Type 0} (env : Env M) where
  -- One round of the `for (;;)`. `out` reads the freed slot, `clean` resets the counters in it.
  unfoldable pub wait_round :
      {Out : Type 0} → (Proc → Out) → (Proc → Proc) → ℕ → Kernel M → Waited M Out
  wait_round out clean cur k = elim (zombie_child cur k.procs) [
    | some i ↦ elim (get_elem? k.procs i) [
      | none ↦ no_child
      | some p ↦ reaped p.pid (out p) (record k {
        procs = modify k.procs i (λ q. clean (free_slot q));
        mem = env.freevm p.pgdir (env.kfree p.kstack k.mem);
      })
    ]
    | none ↦ elim (get_elem? k.procs cur) [
      | none ↦ no_child
      | some me ↦
          if not (has_kids cur k.procs) || not (me.killed == 0)
          then no_child
          else blocked (record k { procs = modify k.procs cur (fall_asleep (proc_at cur)) })
    ]
  ]

  unfoldable pub wait : ℕ → Kernel M → Waited M (Unit {0})
  unfolding wait_round
  wait = wait_round (λ p. tt) (λ p. p)

  -- The times through `retime`, `rutime` and `stime`.
  unfoldable pub wait2 : ℕ → Kernel M → Waited M (ℕ × ℕ × ℕ)
  unfolding wait_round
  wait2 = wait_round (λ p. (p.retime, p.rutime, p.stime)) reset_times

  unfoldable pub wait3 : ℕ → Kernel M → Waited M ℕ
  unfolding wait_round
  wait3 = wait_round (λ p. p.priority) reset_times
