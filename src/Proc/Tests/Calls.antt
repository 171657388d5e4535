-- ===== src/Proc/Tests/Calls.antt =====
-- The calls of proc.c at the tables of the parent module.
use tp2_so.Base.{ℕ, ◌≡◌, ◌⊎◌, refl, none, some, get_elem?, arith, find_index}
use tp2_so.Proc.{Proc, Kernel, zombie}
use tp2_so.Proc.Tests.{blank, init, user, low, high, table, env, kernel}
use tp2_so.Proc.Alloc.{fork, allocproc, fork_with, found, copy_parent, dup_files}
use tp2_so.Proc.Alloc.Child.{Refused, Forked, fork_lem}
use tp2_so.Proc.Alloc.KilledSlot.{kill_zero-fork}
use tp2_so.Proc.Exit.{exit_locked}
use tp2_so.Proc.Exit.Zombie.{Exited, exit_locked_lem, exit-wait_round}
use tp2_so.Proc.Wait.{reaped, wait_round, wait, wait2, wait3}
use tp2_so.Proc.Wait.Rounds.{Ends, Kept, Reset, waits_lem}
use tp2_so.Proc.Sched.{choose, turns, first_runnable, highest}
use tp2_so.Proc.Sched.Choice.{IsBest, Beats, choose_lem}
use tp2_so.Proc.Sched.Starvation.{Behind, turns_starve}
use tp2_so.Proc.Sleep.{kill}

fork_lem_example :
    (ret : ℕ) × (k' : Kernel ℕ) × (fork env 1 kernel ≡ some (ret, k'))
    × (Refused env ret kernel k' ⊎ Forked env (λ pid. 2) 1 ret user kernel k')
fork_lem_example = fork_lem env 1 kernel user refl refl

-- Process 2 exits: init, asleep in `wait`, is woken.
exit_locked_lem_example : (q' : Proc) × Exited 1 (some 0) 5 table user 0 init q'
exit_locked_lem_example = exit_locked_lem 1 (some 0) 5 table user refl (omega arith) 0 init refl

exit-wait_round_example :
    (i : ℕ) × (z : Proc) × (k' : Kernel ℕ) × (get_elem? (exit_locked 1 (some 0) 5 table) i ≡ some z)
    × (z.state ≡ zombie)
    × (z.parent ≡ some 0)
    × (wait_round env
          (λ p. p.priority)
          (λ p. p)
          0
          (record kernel { procs = exit_locked 1 (some 0) 5 table })
        ≡ reaped z.pid z.priority k')
exit-wait_round_example =
    exit-wait_round env (λ p. p.priority) (λ p. p) 1 0 (some 0) 5 user kernel refl (omega arith)
      refl (λ e. absurd (omega arith))

waits_lem_example :
    Ends env (λ z. tt) Kept 1 user kernel (wait env 1 kernel)
    × Ends env (λ z. (z.retime, z.rutime, z.stime)) Reset 1 user kernel (wait2 env 1 kernel)
    × Ends env (λ z. z.priority) Reset 1 user kernel (wait3 env 1 kernel)
waits_lem_example = waits_lem env 1 user kernel refl

-- The search meets the low process first, and the high one wins.
choose_lem_example :
    (i : ℕ) × (p : Proc) × (choose 0 table ≡ some i) × IsBest table i p × Beats table 2 i p
unfolding first_runnable find_index
choose_lem_example = choose_lem 0 table 2 refl

chooses_high : choose 0 table ≡ some 3
unfolding choose first_runnable find_index highest
chooses_high = refl

turns_starve_example : Behind 2 1 0 0 (turns 1000 (0, table)).1
turns_starve_example =
    turns_starve 1000 0 table (λ e. refl, λ e. refl)
      (record {
        low = low;
        at_l = refl;
        low_ready = refl;
        prio = refl;
        queue = refl;
        ran = refl;
        h = 3;
        high = high;
        at_h = refl;
        high_ready = refl;
        above = refl;
      })

abbrev after_fork : Kernel ℕ
after_fork = elim (fork env 1 (record kernel { procs = (kill 0 table).1 })) [
  | none ↦ kernel
  | some (ret, k) ↦ k
]

-- The slot after `kill (0)`, as the next `fork` gives it to the child.
kill_zero-fork_example :
    ((kill 0 table).0 ≡ 0)
    × ((c : Proc) × (get_elem? after_fork.procs 4 ≡ some c) × (c.pid ≡ 5) × (c.killed ≡ 1))
unfolding find_index kill fork fork_with allocproc found copy_parent dup_files
kill_zero-fork_example =
    kill_zero-fork env 1 5 4 user kernel after_fork
      (record {
        slot = blank;
        there = refl;
        free = refl;
        no_pid = refl;
        used_below = λ j q lt g. ground arith;
        pids_below = λ j q lt g. ground arith;
      })
      refl refl refl (λ e. absurd (omega arith))
