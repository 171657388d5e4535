-- ===== src/System/Pids.antt =====
-- The pids in use, at every point of every interleaving.
use tp2_so.Base.{ℕ, ◌+◌, ◌<◌, ◌^◌, ◌≡◌, some, List, ◌==◌, arith, if◌then◌else◌}
use tp2_so.Proc.{Proc}
use tp2_so.System.{System, Reach, start, later, Boots, boots}
use tp2_so.System.Observe.{live_slot, live_at}
use tp2_so.System.Effects.{
  Shrinks, SamePids, Effect, enters, leaves, rescans, edits, allots, Step-Effect,
}
use tp2_so.System.Cpus.{Reach-CpuInv}

-- The pids in use are below `nextpid` and not 0, and no two slots share one.
pub record PidsFit (ps : List Proc) (next : ℕ) : Type 0 where
  pub below : (i pid : ℕ) → live_at ps i ≡ some pid → (pid < next) × (0 < pid)
  pub unique : (i j pid : ℕ) → live_at ps i ≡ some pid → live_at ps j ≡ some pid → i ≡ j

Shrinks-PidsFit :
    (ps ps' : List Proc) (next : ℕ) → Shrinks ps ps' → PidsFit ps next → PidsFit ps' next
Shrinks-PidsFit ps ps' next s f = record {
  below = λ i pid e. ground (arith, s i, f.below i pid);
  unique = λ i j pid e h. ground (arith, s i, s j, f.unique i j pid);
}

-- A new process gets `nextpid`.
claim-PidsFit :
    (ps ps' : List Proc) (n next : ℕ)
    → ((j : ℕ) → live_at ps' j ≡ (if n == j then some next else live_at ps j))
    → 0 < next
    → PidsFit ps next
    → PidsFit ps' (next + 1)
claim-PidsFit ps ps' n next v pos f = record {
  below = λ i pid e. ground (arith, v i, f.below i pid);
  unique = λ i j pid e h. ground (arith, v i, v j, f.unique i j pid, f.below i pid, f.below j pid);
}

-- As long as `nextpid`, an `int`, has not overflowed.
abbrev pub PidInv : System → Type 0
PidInv s = s.claimed + 1 < 2 ^ 31 → (s.nextpid ≡ s.claimed + 1) × PidsFit s.procs s.nextpid

SamePids-PidInv : {s t : System} → SamePids s t → PidInv s → PidInv t
SamePids-PidInv {s} {t} p inv small =
    let (next, fit) = inv (omega (arith, p.count)) in
    (
      omega (arith, p.next, p.count),
      rw p.next (Shrinks-PidsFit s.procs t.procs s.nextpid p.slots fit),
    )

pub Effect-PidInv : {s t : System} → Effect s t → PidInv s → PidInv t
Effect-PidInv (enters c from i e u r v p) inv small = SamePids-PidInv p inv small
Effect-PidInv (leaves c from i e u v p) inv small = SamePids-PidInv p inv small
Effect-PidInv (rescans c from e u v p) inv small = SamePids-PidInv p inv small
Effect-PidInv (edits u v p) inv small = SamePids-PidInv p inv small
Effect-PidInv {s} {t} (allots n u v l k m) inv small =
    let (next, fit) = inv (omega arith) in
    let eq : t.nextpid ≡ s.nextpid + 1 = omega arith in
    (omega arith, rw eq (claim-PidsFit s.procs t.procs n s.nextpid l (omega arith) fit))

Boots-PidInv : {s : System} → Boots s → PidInv s
Boots-PidInv {s} (boots free next count idle) small = (
  omega arith,
  record {
    below = λ i pid e.
        let (p, g, u, q) = live_slot s.procs i pid e in absurd (ground (arith, free i p g));
    unique = λ i j pid e h.
        let (p, g, u, q) = live_slot s.procs i pid e in absurd (ground (arith, free i p g));
  },
)

Reach-PidInv : {s : System} → Reach s → PidInv s
Reach-PidInv (start b) = Boots-PidInv b
Reach-PidInv (later r st) = Effect-PidInv (Step-Effect (Reach-CpuInv r).held st) (Reach-PidInv r)

-- In every state that the kernel can reach by fewer than 2 ^ 31 - 1 claims of a slot, so that `nextpid`
-- has not overflowed as an `int`, two slots in use never share a pid, and each pid in use is positive
-- and below `nextpid`, which is a positive `int`.
pub pids_unique :
    {s : System}
    → Reach s
    → s.claimed + 1 < 2 ^ 31
    → (i j pid : ℕ) → live_at s.procs i ≡ some pid
    → (pid < s.nextpid) × (s.nextpid < 2 ^ 31) × (0 < pid) × (live_at s.procs j ≡ some pid → i ≡ j)
pids_unique r small i j pid e =
    let (next, fit) = Reach-PidInv r small in
    ((fit.below i pid e).0, omega (arith, next, small), (fit.below i pid e).1, fit.unique i j pid e)
