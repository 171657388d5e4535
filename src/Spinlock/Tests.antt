-- ===== src/Spinlock/Tests.antt =====
-- One CPU takes a lock of spinlock.c, while another spins.
use tp2_so.Base.{ℕ, ◌≡◌, refl, true, false, some}
use tp2_so.Spinlock.{
  Cpu, init_lock, pushcli, popcli, holding, inside, away, leaving, spinning, won, Machine, set_pc,
  set_cpu, enter, win, sign, boots, Reach, start, later,
}
use tp2_so.Spinlock.Exclusion.{has_lock, mutual_exclusion, release_never_panics}

abbrev user_cpu : Cpu
user_cpu = record { if_flag = true; ncli = 0; intena = false }

abbrev idle : Machine
idle = record { lock = init_lock; pc = λ c. away; cpus = λ c. user_cpu }

abbrev both_try : Machine
both_try = record {
  lock = init_lock;
  pc = set_pc (set_pc (λ c. away) 0 spinning) 1 spinning;
  cpus = set_cpu (set_cpu (λ c. user_cpu) 0 (pushcli user_cpu)) 1 (pushcli user_cpu);
}

abbrev one_has : Machine
one_has = record {
  lock = record { locked = 1; cpu = some 0 };
  pc = set_pc (set_pc both_try.pc 0 won) 0 inside;
  cpus = both_try.cpus;
}

run : Reach one_has
unfolding holding
run =
    later
      (later
        (later (later (start {m = idle} (boots refl (λ c. (refl, refl)))) (enter 0 refl refl))
          (enter 1 refl refl))
        (win 0 refl refl))
      (sign 0 refl)

mutual_exclusion_example :
    ((one_has.cpus 0).if_flag ≡ false) × (has_lock (one_has.pc 1) ≡ true → ◌≡◌ {A = ℕ} 0 1)
mutual_exclusion_example = mutual_exclusion run 0 1 refl

release_never_panics_example :
    ((holding 0 one_has.lock ≡ true) → one_has.pc 0 ≡ inside)
    × (one_has.pc 0 ≡ inside → holding 0 one_has.lock ≡ true)
    × (one_has.pc 0 ≡ leaving → (k : Cpu) × (popcli (one_has.cpus 0) ≡ some k))
release_never_panics_example = release_never_panics run 0
