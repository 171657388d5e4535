-- ===== src/Syscall.antt =====
-- xv6-public/syscall.c and the calls of sysproc.c: how the kernel reads the arguments of a system
-- call from the memory of the process, and what it calls. User memory is the bytes by address.
pub mod Arguments
pub mod Calls
pub mod Priorities
pub mod Tests
use tp2_so.Base.{
  ℕ, zero, suc, ◌+◌, ◌*◌, ◌-◌, ◌^◌, Bool, true, false, not, Option, none, some, List, [], ◌∷◌,
  get_elem?, ◌==◌, ◌&&◌, ◌||◌, if◌then◌else◌, ltb, leb, opt_map, add32, sub32, slt, u32, minus_one,
}
use tp2_so.Memory.{Mem}

-- The int at an address, low byte first.
abbrev pub word_at : Mem → ℕ → ℕ
word_at m a = m a + m (add32 a 1) * 2 ^ 8 + m (add32 a 2) * 2 ^ 16 + m (add32 a 3) * 2 ^ 24

-- `fetchint` in a process of size `sz`; `none` is the result -1.
unfoldable pub fetchint : ℕ → Mem → ℕ → Option ℕ
fetchint sz m addr = if leb sz addr || ltb sz (add32 addr 4) then none else some (word_at m addr)

-- The loop of `fetchstr` from `s` on, with `n` bytes left up to the end of the memory: how many come
-- before a 0.
unfoldable pub scan_text : ℕ → ℕ → Mem → Option ℕ
scan_text s zero m = none
scan_text s (suc n) m =
    let rest = scan_text (s + 1) n m in if m s == 0 then some 0 else opt_map suc rest

-- `fetchstr`: the length; the pointer is `addr`.
unfoldable pub fetchstr : ℕ → Mem → ℕ → Option ℕ
unfolding scan_text
fetchstr sz m addr = if leb sz addr then none else scan_text addr (sz - addr) m

-- `argint (n)`, with the user's `esp`.
unfoldable pub argint : ℕ → Mem → ℕ → ℕ → Option ℕ
unfolding fetchint
argint sz m esp n = fetchint sz m (add32 (add32 esp 4) (u32 (4 * n)))

-- `argptr (n, size)`, `size` being an `int`.
unfoldable pub argptr : ℕ → Mem → ℕ → ℕ → ℕ → Option ℕ
argptr sz m esp n size = elim (argint sz m esp n) [
  | none ↦ none
  | some i ↦ if slt size 0 || (leb sz i || ltb sz (add32 i size)) then none else some i
]

-- `argstr (n)`: the address and the length.
unfoldable pub argstr : ℕ → Mem → ℕ → ℕ → Option (ℕ × ℕ)
argstr sz m esp n = elim (argint sz m esp n) [
  | none ↦ none
  | some addr ↦ opt_map (λ len. (addr, len)) (fetchstr sz m addr)
]

-- The calls, and their table from number 1 on.
pub data Call : Type 0 where
  sys_fork sys_exit sys_wait sys_pipe sys_read sys_kill sys_exec sys_fstat sys_chdir sys_dup : Call
  sys_getpid sys_sbrk sys_sleep sys_uptime sys_open sys_write sys_mknod sys_unlink sys_link
        sys_mkdir sys_close :
      Call
  sys_change_prio sys_wait2 sys_yield2 sys_set_prio sys_wait3 : Call

abbrev pub syscalls : List Call
syscalls =
    sys_fork ∷ sys_exit ∷ sys_wait ∷ sys_pipe ∷ sys_read ∷ sys_kill ∷ sys_exec ∷ sys_fstat
    ∷ sys_chdir ∷ sys_dup ∷ sys_getpid ∷ sys_sbrk ∷ sys_sleep ∷ sys_uptime ∷ sys_open ∷ sys_write
    ∷ sys_mknod ∷ sys_unlink ∷ sys_link ∷ sys_mkdir ∷ sys_close ∷ sys_change_prio ∷ sys_wait2
    ∷ sys_yield2 ∷ sys_set_prio ∷ sys_wait3 ∷ []

-- `syscall`: the new `eax`, where `run` answers a call that has an entry. `num` is an `int`.
unfoldable pub syscall : (Call → ℕ) → ℕ → ℕ
syscall run num =
    if slt 0 num && slt num 27
    then elim (get_elem? syscalls (num - 1)) [ none ↦ minus_one | some c ↦ run c ]
    else minus_one
