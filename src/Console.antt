-- ===== src/Console.antt =====
-- xv6-public/console.c: the input line, reads and writes. The lock of the console is held
-- throughout; a read that sleeps is cut there. The numbers that `getc` gives are a list, up to the
-- first negative one. The inode lock that a read or a write lets go of is not part of the state.
pub mod Ring
pub mod Screen
pub mod Editor
pub mod Tests
use tp2_so.Base.{
  ℕ, zero, suc, ◌+◌, ◌-◌, ◌%◌, Bool, true, false, not, List, [], ◌∷◌, ◌++◌, ◌==◌, ◌&&◌, ◌||◌,
  if◌then◌else◌, ltb, get_or, set, add32, sub32,
}

abbrev pub input_buf : ℕ
input_buf = 128

abbrev pub newline : ℕ
newline = 10

abbrev pub backspace : ℕ
backspace = 0x100

-- `C(x)`, Control-x.
abbrev pub control : ℕ → ℕ
control x = x - 64

-- `input`, with what the functions do besides: the arguments of `consputc` in order, and the number
-- of calls of `wakeup(&input.r)`.
pub record Console : Type 0 where
  pub buf : List ℕ
  pub r : ℕ
  pub w : ℕ
  pub e : ℕ
  pub out : List ℕ
  pub wakeups : ℕ

abbrev pub say : ℕ → Console → Console
say c s = record s { out = s.out ++ (c ∷ []) }

-- The body of the loop at Control-U, and the branch of Backspace.
abbrev pub rub_out : Console → Console
rub_out s = record s { e = sub32 s.e 1; out = s.out ++ (backspace ∷ []) }

abbrev pub last_key : Console → ℕ
last_key s = get_or s.buf (sub32 s.e 1 % input_buf) 0

-- The loop at Control-U, with `n` rounds left.
unfoldable pub kill_line : ℕ → Console → Console
kill_line zero s = s
kill_line (suc n) s =
    if not (s.e == s.w) && not (last_key s == newline) then kill_line n (rub_out s) else s

abbrev pub translate : ℕ → ℕ
translate c = if c == 13 then newline else c

abbrev pub stored : ℕ → Console → Console
stored c s = record s {
  buf = set s.buf (s.e % input_buf) (c % 256);
  e = add32 s.e 1;
  out = s.out ++ (c ∷ []);
}

abbrev pub ends_line : ℕ → Console → Bool
ends_line c s = c == newline || c == control 68 || s.e == add32 s.r input_buf

abbrev pub committed : Console → Console
committed s = record s { w = s.e; wakeups = suc s.wakeups }

-- `input.buf[input.e++ % INPUT_BUF] = c`, and what follows.
unfoldable pub add_key : ℕ → Console → Console
add_key c s = let t = stored c s in if ends_line c t then committed t else t

-- The `switch` of `consoleintr`.
unfoldable pub key : ℕ → Console → Console
unfolding kill_line add_key
key c s =
    if c == control 80
    then s
    else if c == control 85
    then kill_line (sub32 s.e s.w) s
    else if c == control 72 || c == 127
    then (if not (s.e == s.w) then rub_out s else s)
    else if not (c == 0) && ltb (sub32 s.e s.r) input_buf
    then add_key (translate c) s
    else s

-- `consoleintr`: the console after it, and whether it calls `procdump`.
unfoldable pub consoleintr : List ℕ → Console → Console × Bool
unfolding key
consoleintr [] s = (s, false)
consoleintr (c ∷ cs) s =
    let (t, listing) = consoleintr cs (key c s) in (t, c == control 80 || listing)

-- Why a stretch of `consoleread` ends: it returns, it answers -1, or it sleeps on `input.r`.
pub data Why : Type 0 where
  returns fails sleeps : Why

-- Where a stretch of `consoleread` ends: what it has put into `dst`, and the `n` that is left.
pub record Stop : Type 0 where
  pub console : Console
  pub dst : List ℕ
  pub left : ℕ
  pub why : Why

abbrev pub next_key : Console → ℕ
next_key s = get_or s.buf (s.r % input_buf) 0

abbrev pub took_key : Console → Console
took_key s = record s { r = add32 s.r 1 }

abbrev pub read_key : ℕ → Stop → Stop
read_key c rest = record rest { dst = c ∷ rest.dst }

-- `consoleread` from its loop on, up to its end or its next `sleep`.
unfoldable pub consoleread : Bool → ℕ → ℕ → Console → Stop
consoleread killed target zero s = record { console = s; dst = []; left = 0; why = returns }
consoleread killed target (suc n) s =
    let rest = consoleread killed target n (took_key s) in
    let c = next_key s in
    if s.r == s.w
    then record { console = s; dst = []; left = suc n; why = if killed then fails else sleeps }
    else if c == control 68
    then record {
      console = if ltb (suc n) target then s else took_key s;
      dst = [];
      left = suc n;
      why = returns;
    }
    else if c == newline
    then record { console = took_key s; dst = c ∷ []; left = n; why = returns }
    else read_key c rest

-- `consolewrite`.
unfoldable pub consolewrite : List ℕ → Console → Console
consolewrite [] s = s
consolewrite (c ∷ cs) s = consolewrite cs (say (c % 256) s)
