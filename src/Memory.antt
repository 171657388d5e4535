-- ===== src/Memory.antt =====
-- xv6-public/string.c, on memory as bytes by 32-bit address. A `uchar` is a number below 256; the
-- result of a comparison is an `int`'s 32-bit pattern.
pub mod Move
pub mod Strings
pub mod Tests
use tp2_so.Base.{
  ℕ, zero, suc, ◌+◌, ◌*◌, ◌/◌, ◌%◌, ◌^◌, Bool, true, false, not, Option, none, some, ◌==◌, ◌&&◌,
  if◌then◌else◌, ltb, opt_map, add32, sub32,
}

abbrev pub Mem : Type 0
Mem = ℕ → ℕ

abbrev pub write : ℕ → ℕ → Mem → Mem
write a b m x = if a == x then b else m x

-- `stosb`: `n` bytes from `a` on.
unfoldable pub stosb : ℕ → ℕ → ℕ → Mem → Mem
stosb a c zero m = m
stosb a c (suc n) m = stosb (add32 a 1) c n (write a c m)

-- `stosl` of a word whose four bytes are `c`: `n` words from `a` on.
unfoldable pub stosl : ℕ → ℕ → ℕ → Mem → Mem
unfolding stosb
stosl a c zero m = m
stosl a c (suc n) m = stosl (add32 a 4) c n (stosb a c 4 m)

-- `memset`. The processor stores the low byte of `c`.
unfoldable pub memset : ℕ → ℕ → ℕ → Mem → Mem
unfolding stosb stosl
memset dst c n m =
    if dst % 4 == 0 && n % 4 == 0 then stosl dst (c % 256) (n / 4) m else stosb dst (c % 256) n m

unfoldable pub memcmp : ℕ → ℕ → ℕ → Mem → ℕ
memcmp v1 v2 zero m = 0
memcmp v1 v2 (suc n) m =
    let rest = memcmp (add32 v1 1) (add32 v2 1) n m in
    if not (m v1 == m v2) then sub32 (m v1) (m v2) else rest

-- The loop of `memmove` that goes down, its pointers just past the bytes that are left.
unfoldable pub copy_down : ℕ → ℕ → ℕ → Mem → Mem
copy_down s d zero m = m
copy_down s d (suc n) m = copy_down (sub32 s 1) (sub32 d 1) n (write (sub32 d 1) (m (sub32 s 1)) m)

-- The loop that goes up.
unfoldable pub copy_up : ℕ → ℕ → ℕ → Mem → Mem
copy_up s d zero m = m
copy_up s d (suc n) m = copy_up (add32 s 1) (add32 d 1) n (write d (m s) m)

unfoldable pub memmove : ℕ → ℕ → ℕ → Mem → Mem
memmove dst src n m =
    if ltb src dst && ltb dst (add32 src n)
    then copy_down (add32 src n) (add32 dst n) n m
    else copy_up src dst n m

unfoldable pub memcpy : ℕ → ℕ → ℕ → Mem → Mem
unfolding memmove
memcpy dst src n m = memmove dst src n m

unfoldable pub strncmp : ℕ → ℕ → ℕ → Mem → ℕ
strncmp p q zero m = 0
strncmp p q (suc n) m =
    let rest = strncmp (add32 p 1) (add32 q 1) n m in
    if not (m p == 0) && m p == m q then rest else sub32 (m p) (m q)

-- The second loop of `strncpy`.
unfoldable pub pad : ℕ → ℕ → Mem → Mem
pad s zero m = m
pad s (suc n) m = pad (add32 s 1) n (write s 0 m)

-- `strncpy` for `n` that is not negative.
unfoldable pub strncpy : ℕ → ℕ → ℕ → Mem → Mem
unfolding pad
strncpy s t zero m = m
strncpy s t (suc n) m = elim (m t) [
  | zero ↦ pad (add32 s 1) n (write s 0 m)
  | suc c ↦ strncpy (add32 s 1) (add32 t 1) n (write s (suc c) m)
]

-- The loop of `safestrcpy`, with `n` bytes left: where `s` ends up, and the memory.
unfoldable pub copy_text : ℕ → ℕ → ℕ → Mem → ℕ × Mem
copy_text s t zero m = (s, m)
copy_text s t (suc n) m = elim (m t) [
  | zero ↦ (add32 s 1, write s 0 m)
  | suc c ↦ copy_text (add32 s 1) (add32 t 1) n (write s (suc c) m)
]

-- `safestrcpy`; with `n` of 0 or below nothing is written.
unfoldable pub safestrcpy : ℕ → ℕ → ℕ → Mem → Mem
safestrcpy s t zero m = m
safestrcpy s t (suc n) m = let (e, m1) = copy_text s t n m in write e 0 m1

-- `strlen`; without a 0 among the first `fuel` bytes it has not ended.
unfoldable pub strlen : ℕ → ℕ → Mem → Option ℕ
strlen zero s m = none
strlen (suc fuel) s m =
    let rest = strlen fuel (add32 s 1) m in if m s == 0 then some 0 else opt_map suc rest
