-- ===== src/Console/Screen.antt =====
-- xv6-public/console.c: `consputc`, `cgaputc`, `printint` and `cprintf`. The cursor that the display
-- controller keeps is a field of the state, as are the cells of `crt` and the bytes of the serial line.
pub mod Bounds
pub mod Digits
pub mod Numerals
use tp2_so.Base.{
  ℕ, zero, suc, ◌+◌, ◌-◌, ◌*◌, ◌/◌, ◌%◌, ◌^◌, Bool, true, false, Option, none, some, List, [], ◌∷◌,
  ◌++◌, ◌==◌, ◌&&◌, ◌||◌, if◌then◌else◌, ltb, leb, get_or, u32,
}
use tp2_so.Console.{backspace, newline}

pub record Screen : Type 0 where
  pub cursor : ℕ
  pub cells : ℕ → ℕ
  pub serial : List ℕ

abbrev pub put_cell : ℕ → ℕ → (ℕ → ℕ) → ℕ → ℕ
put_cell i x cells = λ j. if j == i then x else cells j

-- The cursor after `c`, and the cell that `c` takes.
abbrev pub moved : ℕ → Screen → Screen
moved c s =
    if c == newline
    then record s { cursor = s.cursor + (80 - s.cursor % 80) }
    else if c == backspace
    then record s { cursor = s.cursor - 1 }
    else record s { cursor = s.cursor + 1; cells = put_cell s.cursor (c % 256 + 0x0700) s.cells }

-- "Scroll up": the rows move up by one, 23 of them, and the rest from the new cursor on is cleared.
abbrev pub scrolled : Screen → Screen
scrolled s =
    let pos = s.cursor - 80 in
    record s {
      cursor = pos;
      cells = λ j.
          if leb pos j && ltb j (24 * 80)
          then 0
          else if ltb j (23 * 80)
          then s.cells (j + 80)
          else s.cells j;
    }

-- `cgaputc`. `none` is its panic.
unfoldable pub cgaputc : ℕ → Screen → Option Screen
cgaputc c s =
    let t = moved c s in
    let u : Screen = (if leb 24 (t.cursor / 80) then scrolled t else t) in
    if ltb (25 * 80) t.cursor
    then none
    else some (record u { cells = put_cell u.cursor (32 + 0x0700) u.cells })

-- What `consputc` gives to `uartputc`.
abbrev pub serial_bytes : ℕ → List ℕ
serial_bytes c = if c == backspace then 8 ∷ 32 ∷ 8 ∷ [] else c ∷ []

-- `consputc` before a panic. `cgaputc` comes last.
unfoldable pub consputc : ℕ → Screen → Option Screen
unfolding cgaputc
consputc c s = cgaputc c (record s { serial = s.serial ++ serial_bytes c })

-- The calls of `consputc` for each of `cs`.
unfoldable pub consputs : List ℕ → Screen → Option Screen
unfolding consputc
consputs [] s = some s
consputs (c ∷ cs) s = elim (consputc c s) [ none ↦ none | some t ↦ consputs cs t ]

-- `digits[d]`
abbrev pub digit : ℕ → ℕ
digit d = if ltb d 10 then 48 + d else 87 + d

-- The loop of `printint` that fills `buf`, from the last digit on, with `n` rounds left: `buf`
-- from its end to its start. The bases are 10 and 16, for which 11 rounds are enough.
unfoldable pub digits_of : ℕ → ℕ → ℕ → List ℕ
digits_of zero base x = []
digits_of (suc n) base x =
    let rest = digits_of n base (x / base) in
    if x / base == 0 then digit (x % base) ∷ [] else rest ++ (digit (x % base) ∷ [])

abbrev pub is_negative : ℕ → Bool
is_negative xx = leb (2 ^ 31) xx

-- `printint`, as the arguments of `consputc`.
unfoldable pub printint : ℕ → ℕ → Bool → List ℕ
unfolding digits_of
printint xx base sign =
    if sign && is_negative xx
    then 45 ∷ digits_of 11 base (u32 (2 ^ 32 - xx))
    else digits_of 11 base xx

-- "(null)"
abbrev pub null_text : List ℕ
null_text = 40 ∷ 110 ∷ 117 ∷ 108 ∷ 108 ∷ 41 ∷ []

-- The `switch` of `cprintf` at the character `c`: what is printed, and how many arguments are used.
-- `text` is the string at an address.
unfoldable pub directive : (ℕ → List ℕ) → ℕ → ℕ → List ℕ × ℕ
unfolding printint
directive text c arg =
    if c == 100
    then (printint arg 10 true, 1)
    else if c == 120 || c == 112
    then (printint arg 16 false, 1)
    else if c == 115
    then (if arg == 0 then null_text else text arg, 1)
    else if c == 37
    then (37 ∷ [], 0)
    else (37 ∷ c ∷ [], 0)

-- `cprintf`, from its `i`-th argument on, as the arguments of `consputc`: `args` is the stack from
-- `argp` on.
unfoldable pub cprintf : (ℕ → List ℕ) → (ℕ → ℕ) → ℕ → List ℕ → List ℕ
unfolding directive
cprintf text args i [] = []
cprintf text args i (c ∷ []) = if c == 37 then [] else c ∷ []
cprintf text args i (c ∷ k ∷ fmt) =
    let (printed, used) = directive text k (args i) in
    let after = cprintf text args (i + used) fmt in
    let rest = cprintf text args i (k ∷ fmt) in if c == 37 then printed ++ after else c ∷ rest
