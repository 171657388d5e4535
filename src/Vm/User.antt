-- ===== src/Vm/User.antt =====
-- xv6-public/vm.c: bytes to and from the user's part of an address space. `readi` is a parameter.
use tp2_so.Base.{
  ℕ, zero, suc, ◌+◌, ◌-◌, ◌*◌, ◌/◌, ◌%◌, ◌^◌, Bool, true, false, not, ◌==◌, if◌then◌else◌, ltb, leb,
  add32,
}
use tp2_so.Kalloc.{pgsize}
use tp2_so.Vm.{
  V, pure, panics, no_fuel, load, store, ◌>>=◌, ◌>>◌, pte_addr, round_down, v2p, p2v, is_present,
  is_user, pte_wu, get_page, clear_page, walkpgdir, mappages,
}

-- A byte of a word, least first, is replaced.
abbrev pub with_byte : ℕ → ℕ → ℕ → ℕ
with_byte w j v = w / 256 ^ (j + 1) * 256 ^ (j + 1) + v * 256 ^ j + w % 256 ^ j

unfoldable pub store_byte : ℕ → ℕ → V (Unit {0})
unfolding ◌>>=◌
store_byte a v = do w ← load (a / 4 * 4); store (a / 4 * 4) (with_byte w (a % 4) v)

-- `memmove` of `n` bytes that do not overlap.
unfoldable pub store_bytes : ℕ → (ℕ → ℕ) → ℕ → V (Unit {0})
unfolding store_byte ◌>>=◌
store_bytes a src zero = pure tt
store_bytes a src (suc n) = store_byte a (src 0) >> store_bytes (add32 a 1) (λ i. src (i + 1)) n

unfoldable pub inituvm : ℕ → (ℕ → ℕ) → ℕ → V (Unit {0})
unfolding get_page clear_page mappages store_bytes ◌>>=◌
inituvm pgdir init sz = if leb pgsize sz then panics else (do
  mem ← get_page
  clear_page mem
  mappages pgdir 0 pgsize (v2p mem) pte_wu
  store_bytes mem init sz)

-- The loop of `loaduvm`; `readi` takes where to put the bytes, the offset and their number.
unfoldable pub load_loop : (ℕ → ℕ → ℕ → V ℕ) → ℕ → ℕ → ℕ → ℕ → ℕ → ℕ → V Bool
unfolding walkpgdir ◌>>=◌
load_loop readi pgdir zero addr offset i sz = no_fuel
load_loop readi pgdir (suc fuel) addr offset i sz =
    if not (ltb i sz)
    then pure true
    else walkpgdir pgdir (add32 addr i) false >>= λ pte.
        if pte == 0
        then panics
        else load pte >>= λ e.
            let n = if ltb (sz - i) pgsize then sz - i else pgsize in
            readi (p2v (pte_addr e)) (add32 offset i) n >>= λ r.
            if not (r == n)
            then pure false
            else load_loop readi pgdir fuel addr offset (add32 i pgsize) sz

-- `true` is the 0 of `loaduvm`, `false` its -1.
unfoldable pub loaduvm : (ℕ → ℕ → ℕ → V ℕ) → ℕ → ℕ → ℕ → ℕ → V Bool
unfolding load_loop ◌>>=◌
loaduvm readi pgdir addr offset sz =
    if not (addr % pgsize == 0)
    then panics
    else load_loop readi pgdir (sz / pgsize + 2) addr offset 0 sz

unfoldable pub clearpteu : ℕ → ℕ → V (Unit {0})
unfolding walkpgdir ◌>>=◌
clearpteu pgdir uva = do
  pte ← walkpgdir pgdir uva false
  if pte == 0 then panics else (do e ← load pte; store pte (e - e / 4 % 2 * 4))

-- The pointer that `walkpgdir` gives is read unchecked, a null one too.
unfoldable pub uva2ka : ℕ → ℕ → V ℕ
unfolding walkpgdir ◌>>=◌
uva2ka pgdir uva = do
  pte ← walkpgdir pgdir uva false
  e ← load pte
  if not (is_present e) then pure 0 else if not (is_user e) then pure 0 else pure (p2v (pte_addr e))

-- The loop of `copyout`: `true` is its 0, `false` its -1.
unfoldable pub copy_out : ℕ → ℕ → ℕ → (ℕ → ℕ) → ℕ → V Bool
unfolding uva2ka store_bytes ◌>>=◌
copy_out pgdir fuel va p zero = pure true
copy_out pgdir zero va p (suc len) = no_fuel
copy_out pgdir (suc fuel) va p (suc len) =
    let va0 = round_down va in
    let room = pgsize - (va - va0) in
    let n = if ltb (suc len) room then suc len else room in
    uva2ka pgdir va0 >>= λ pa0.
    if pa0 == 0
    then pure false
    else store_bytes (add32 pa0 (va - va0)) p n
      >> copy_out pgdir fuel (add32 va0 pgsize) (λ i. p (i + n)) (suc len - n)

unfoldable pub copyout : ℕ → ℕ → (ℕ → ℕ) → ℕ → V Bool
unfolding copy_out
copyout pgdir va p len = copy_out pgdir len va p len
