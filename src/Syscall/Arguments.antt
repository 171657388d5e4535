-- ===== src/Syscall/Arguments.antt =====
-- What syscall.c lets through of the arguments of a system call.
use tp2_so.Base.{
  zero_or_suc, ℕ, zero, suc, ◌+◌, ◌-◌, ◌≤◌, ◌<◌, ◌^◌, ◌≡◌, ◌≢◌, ◌⊎◌, ◌↔◌, inl, inr, none, some,
  ◌==◌, leb, arith, Bool-cases, Option-cases,
}
use tp2_so.Memory.{Mem}
use tp2_so.Syscall.{argint, argptr, fetchstr, scan_text}

-- `argptr` in a process that lies below the kernel, at 2 ^ 31: it answers a pointer exactly when the
-- argument can be read, the size is not negative, and the whole block of that size lies inside the
-- memory of the process and starts inside it. The pointer is the argument.
pub argptr_lem :
    (sz esp n size : ℕ) (m : Mem) (p : ℕ)
    → sz ≤ 2 ^ 31
    → size < 2 ^ 32
    → (argptr sz m esp n size ≡ some p)
      ↔ ((argint sz m esp n ≡ some p) × (size < 2 ^ 31) × (p < sz) × (p + size ≤ sz))
unfolding argptr
argptr_lem sz esp n size m p hs hz = elim (Option-cases (argint sz m esp n)) [
  | inl e ↦ rw e (ground arith)
  | inr (i, e) ↦ rw e (ground arith)
]

-- `len` bytes that are not 0, then a 0, from `s` on, before `s + n`.
abbrev pub IsText : ℕ → ℕ → ℕ → Mem → Type 0
IsText s len n m = (len < n) × (m (s + len) ≡ 0) × ((j : ℕ) → j < len → m (s + j) ≢ 0)

IsText-cons :
    (s n len : ℕ) (m : Mem) → m s ≢ 0 → IsText (s + 1) len n m → IsText s (suc len) (suc n) m
IsText-cons s n len m ne (lt, zero_at, before) = (
  omega arith,
  ground (arith, zero_at),
  λ j h. elim (zero_or_suc j) [ inl e ↦ ground arith | inr (i, e) ↦ ground (arith, before i) ],
)

scan_text-some : (s n len : ℕ) (m : Mem) → scan_text s n m ≡ some len → IsText s len n m
unfolding scan_text
scan_text-some s zero len m e = absurd (ground arith)
scan_text-some s (suc n) len m e = elim (Bool-cases (m s == 0)) [
  | inl z ↦
      let l0 : len ≡ 0 = ground arith in
      rw l0 (omega arith, ground arith, λ j h. absurd (omega arith))
  | inr z ↦ elim (Option-cases (scan_text (s + 1) n m)) [
    | inl f ↦ absurd (ground arith)
    | inr (l, f) ↦
        let ls : len ≡ suc l = ground arith in
        rw ls (IsText-cons s n l m (ground arith) (scan_text-some (s + 1) n l m f))
  ]
]

scan_text-none : (s n : ℕ) (m : Mem) → scan_text s n m ≡ none → (j : ℕ) → j < n → m (s + j) ≢ 0
unfolding scan_text
scan_text-none s zero m e j lt = absurd (omega arith)
scan_text-none s (suc n) m e j lt =
    let here : m s ≢ 0 = ground arith in
    let rest : scan_text (s + 1) n m ≡ none = ground arith in
    elim (zero_or_suc j) [
      | inl z ↦ ground arith
      | inr (i, z) ↦ ground (arith, scan_text-none (s + 1) n m rest i)
    ]

-- `fetchstr` answers the length of the text at the address when the text and the 0 after it lie
-- inside the memory of the process, and -1 when the address is outside or no 0 follows it inside.
pub fetchstr_lem :
    (sz addr : ℕ) (m : Mem)
    → ((len : ℕ) × (fetchstr sz m addr ≡ some len) × (addr < sz) × IsText addr len (sz - addr) m)
      ⊎ ((fetchstr sz m addr ≡ none) × ((j : ℕ) → addr + j < sz → m (addr + j) ≢ 0))
unfolding fetchstr
fetchstr_lem sz addr m = elim (Bool-cases (leb sz addr)) [
  | inl out ↦ inr (rw (out, fetchstr), λ j lt. absurd (ground arith))
  | inr inside ↦ elim (Option-cases (scan_text addr (sz - addr) m)) [
    | inl f ↦
        inr (rw (inside, fetchstr, f), λ j lt. scan_text-none addr (sz - addr) m f j (omega arith))
    | inr (l, f) ↦
        inl (l, rw (inside, fetchstr, f), ground arith, scan_text-some addr (sz - addr) l m f)
  ]
]
