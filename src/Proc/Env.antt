-- ===== src/Proc/Env.antt =====
-- The calls that proc.c makes of the memory and file code, as an interface over the state `M` of those
-- components.
use tp2_so.Base.{ℕ, List}
use tp2_so.Proc.{Proc, Kernel}

-- `forkret` is the address of that function. A page that cannot be had is address 0. The calls that
-- may sleep (`fileclose`, `begin_op`, `iput`, `end_op`) change the process table too: other processes run before they return.
pub record Env (M : Type 0) : Type 0 where
  pub forkret : ℕ
  pub kalloc : M → ℕ × M
  pub kfree : ℕ → M → M
  pub setupkvm : M → ℕ × M
  pub copyuvm : ℕ → ℕ → M → ℕ × M
  pub freevm : ℕ → M → M
  pub inituvm : ℕ → M → M
  pub allocuvm : ℕ → ℕ → ℕ → M → ℕ × M
  pub deallocuvm : ℕ → ℕ → ℕ → M → ℕ × M
  pub switchuvm : Proc → M → M
  pub namei : List ℕ → M → ℕ × M
  pub filedup : ℕ → M → ℕ × M
  pub idup : ℕ → M → ℕ × M
  pub fileclose : ℕ → Kernel M → Kernel M
  pub begin_op : Kernel M → Kernel M
  pub iput : ℕ → Kernel M → Kernel M
  pub end_op : Kernel M → Kernel M
