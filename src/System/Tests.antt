-- ===== src/System/Tests.antt =====
-- One run of two CPUs from boot: the first process is made and put on CPU 0.
use tp2_so.Base.{
  ◌^◌, zero, suc, get_elem?, ℕ, ◌≡◌, ◌<◌, refl, true, some, [], ◌∷◌, find_index, arith,
}
use tp2_so.Proc.{Proc, is_unused}
use tp2_so.Proc.Alloc.{claim, inherit}
use tp2_so.Proc.Sched.{dispatch, choose, first_runnable, highest, start_running}
use tp2_so.Proc.Tests.{blank, user}
use tp2_so.System.{
  System, scanning, on, update, switch, claims, readies, boots, Reach, start, later,
}
use tp2_so.System.Observe.{run_at, live_at}
use tp2_so.System.Cpus.{one_cpu, running_iff_on_cpu}
use tp2_so.System.Pids.{pids_unique}

abbrev booted : System
booted = record {
  procs = blank ∷ blank ∷ [];
  nextpid = 1;
  initproc = some 0;
  cpus = λ c. scanning 0;
  claimed = 0;
}

abbrev claimed_one : System
claimed_one = record booted { procs = claim 1 blank ∷ blank ∷ []; nextpid = 2; claimed = 1 }

abbrev child : Proc
child = inherit 0 user 1 [] 0 2 (claim 1 blank)

abbrev ready_one : System
ready_one = record claimed_one { procs = child ∷ blank ∷ [] }

abbrev running_one : System
running_one = record ready_one {
  procs = start_running child ∷ blank ∷ [];
  cpus = update (λ c. scanning 0) 0 (on 0);
}

all_free : (j : ℕ) (p : Proc) → get_elem? (blank ∷ blank ∷ []) j ≡ some p → is_unused p.state ≡ true
all_free zero p e = ground arith
all_free (suc zero) p e = ground arith
all_free (suc (suc j)) p e = absurd (ground arith)

run : Reach running_one
unfolding find_index dispatch choose first_runnable highest
run =
    later
      (later (later (start {s = booted} (boots all_free refl refl (λ c. refl))) (claims 0 refl))
        (readies 0 (claim 1 blank) 0 1 0 2 user [] refl refl))
      (switch 0 0 0 (start_running child ∷ blank ∷ []) refl refl)

one_cpu_example : ◌≡◌ {A = ℕ} 0 0
one_cpu_example = one_cpu run 0 0 0 refl refl

running_iff_on_cpu_example :
    ((c : ℕ) → running_one.cpus c ≡ on 0 → run_at running_one.procs 0 ≡ true)
    × (run_at running_one.procs 0 ≡ true → (c : ℕ) × (running_one.cpus c ≡ on 0))
running_iff_on_cpu_example = running_iff_on_cpu run 0

pids_unique_example :
    (1 < 2) × (2 < 2 ^ 31) × (0 < 1) × (live_at running_one.procs 1 ≡ some 1 → ◌≡◌ {A = ℕ} 0 1)
pids_unique_example = pids_unique run (omega arith) 0 1 1 refl
