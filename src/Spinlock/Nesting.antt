-- ===== src/Spinlock/Nesting.antt =====
-- Nested calls of `pushcli` and `popcli` of spinlock.c.
use tp2_so.Base.{
  ◌+◌, add32, sub32, ◌^◌, ℕ, zero, suc, ◌<◌, ◌≡◌, refl, true, false, Option, none, some, ◌==◌, ◌&&◌,
  if◌then◌else◌, arith,
}
use tp2_so.Spinlock.{Cpu, pushcli, popcli}

-- Interrupts are off as long as a `pushcli` is outstanding.
abbrev pub IsQuiet : Cpu → Type 0
IsQuiet c = 0 < c.ncli → c.if_flag ≡ false

abbrev pub pushes : ℕ → Cpu → Cpu
pushes zero c = c
pushes (suc n) c = pushes n (pushcli c)

unfoldable pub pops : ℕ → Cpu → Option Cpu
pops zero c = some c
pops (suc n) c = elim (pops n c) [ none ↦ none | some d ↦ popcli d ]

-- The same interrupt flag and depth, and inside a section the same `intena`.
pub record Same (c d : Cpu) : Type 0 where
  pub flag : d.if_flag ≡ c.if_flag
  pub depth : d.ncli ≡ c.ncli
  pub saved : 0 < c.ncli → d.intena ≡ c.intena

pushcli-IsQuiet : (c : Cpu) → IsQuiet (pushcli c)
unfolding pushcli
pushcli-IsQuiet c h = refl

ncli-pushcli : (c : Cpu) → (pushcli c).ncli ≡ add32 c.ncli 1
unfolding pushcli
ncli-pushcli c = refl

popcli-Same :
    (c d : Cpu)
    → IsQuiet c
    → c.ncli + 1 < 2 ^ 31
    → Same (pushcli c) d
    → (e : Cpu) × (popcli d ≡ some e) × Same c e
unfolding pushcli popcli
popcli-Same c d q b s = (
  record d {
    ncli = sub32 d.ncli 1;
    if_flag = if sub32 d.ncli 1 == 0 && d.intena then true else d.if_flag;
  },
  ground arith,
  record { flag = ground arith; depth = ground arith; saved = λ h. ground arith },
)

off_after : (n : ℕ) (c : Cpu) → (pushes n (pushcli c)).if_flag ≡ false
unfolding pushcli
off_after zero c = refl
off_after (suc n) c = off_after n (pushcli c)

-- `n` calls of `pushcli` and then `n` of `popcli`, as deep as an `int` counts, do not panic, and leave the interrupt flag, the
-- depth and, inside a section, `intena` as they were. In between interrupts are off.
pub pops-pushes :
    (n : ℕ) (c : Cpu)
    → IsQuiet c
    → c.ncli + n < 2 ^ 31
    → (d : Cpu) × (pops n (pushes n c) ≡ some d) × Same c d × (0 < n → (pushes n c).if_flag ≡ false)
unfolding pops
pops-pushes zero c q b = (c, refl, ground arith, λ h. absurd (omega arith))
pops-pushes (suc n) c q b =
    let (d, e, s, off) =
      pops-pushes n (pushcli c) (pushcli-IsQuiet c) (omega (arith, b, ncli-pushcli c)) in
    let (f, g, t) = popcli-Same c d q (omega arith) s in (f, rw (e, pops) g, t, λ h. off_after n c)
