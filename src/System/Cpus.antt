-- ===== src/System/Cpus.antt =====
-- Which CPU runs which process, at every point of every interleaving.
use tp2_so.Base.{ℕ, ◌≡◌, true, arith, ℕ_discrete}
use tp2_so.System.{System, on, Reach, start, later, Boots, boots}
use tp2_so.System.Observe.{run_slot, run_at}
use tp2_so.System.Effects.{Held, Effect, enters, leaves, rescans, edits, allots, Step-Effect}

-- A CPU is on a running slot, two CPUs are on two slots, and some CPU is on each running slot.
pub record CpuInv (s : System) : Type 0 where
  pub held : Held s
  pub alone : (c d i : ℕ) → s.cpus c ≡ on i → s.cpus d ≡ on i → c ≡ d
  pub owned : (i : ℕ) → run_at s.procs i ≡ true → (c : ℕ) × (s.cpus c ≡ on i)

pub Effect-CpuInv : {s t : System} → Effect s t → CpuInv s → CpuInv t
Effect-CpuInv (enters c from i e u r v p) inv = record {
  held = λ d j h. ground (arith, v j, inv.held d j);
  alone = λ d k j h h'. ground (arith, inv.alone d k j, inv.held d j, inv.held k j);
  owned = λ j h. elim (ℕ_discrete i j) [
    | yes here ↦ (c, ground arith)
    | no other ↦ let (d, o) = inv.owned j (ground (arith, v j)) in (d, ground arith)
  ];
}
Effect-CpuInv (leaves c from i e u v p) inv = record {
  held = λ d j h. ground (arith, v j, inv.held d j, inv.alone c d i);
  alone = λ d k j h h'. ground (arith, inv.alone d k j);
  owned = λ j h. let (d, o) = inv.owned j (ground (arith, v j)) in (d, ground (arith, v j));
}
Effect-CpuInv (rescans c from e u v p) inv = record {
  held = λ d j h. ground (arith, v, inv.held d j);
  alone = λ d k j h h'. ground (arith, inv.alone d k j);
  owned = λ j h. let (d, o) = inv.owned j (ground (arith, v)) in (d, ground arith);
}
Effect-CpuInv (edits u v p) inv = record {
  held = λ d j h. ground (arith, v j, inv.held d j);
  alone = λ d k j h h'. ground (arith, inv.alone d k j);
  owned = λ j h. let (d, o) = inv.owned j (ground (arith, v j)) in (d, ground arith);
}
Effect-CpuInv (allots n u v l k m) inv = record {
  held = λ d j h. ground (arith, v j, inv.held d j);
  alone = λ d k j h h'. ground (arith, inv.alone d k j);
  owned = λ j h. let (d, o) = inv.owned j (ground (arith, v j)) in (d, ground arith);
}

Boots-CpuInv : {s : System} → Boots s → CpuInv s
Boots-CpuInv {s} (boots free next count idle) = record {
  held = λ c i h. absurd (ground (arith, idle c));
  alone = λ c d i h h'. absurd (ground (arith, idle c));
  owned = λ i h. let (p, g, r) = run_slot s.procs i h in absurd (ground (arith, free i p g));
}

pub Reach-CpuInv : {s : System} → Reach s → CpuInv s
Reach-CpuInv (start b) = Boots-CpuInv b
Reach-CpuInv (later r st) = let inv = Reach-CpuInv r in Effect-CpuInv (Step-Effect inv.held st) inv

-- In every state that the kernel can reach, two CPUs never run the same process.
pub one_cpu : {s : System} → Reach s → (c d i : ℕ) → s.cpus c ≡ on i → s.cpus d ≡ on i → c ≡ d
one_cpu r = (Reach-CpuInv r).alone

-- In every state that the kernel can reach, the processes marked RUNNING are exactly those that some
-- CPU is on.
pub running_iff_on_cpu :
    {s : System}
    → Reach s
    → (i : ℕ)
    → ((c : ℕ) → s.cpus c ≡ on i → run_at s.procs i ≡ true)
      × (run_at s.procs i ≡ true → (c : ℕ) × (s.cpus c ≡ on i))
running_iff_on_cpu r i = (λ c. (Reach-CpuInv r).held c i, (Reach-CpuInv r).owned i)
