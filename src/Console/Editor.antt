-- ===== src/Console/Editor.antt =====
-- What console.c promises of its input: a line that is edited and a queue of keys to read.
pub mod Typing
pub mod Reading
pub mod Lines
use tp2_so.Base.{
  ℕ, zero, suc, ◌+◌, ◌%◌, ◌^◌, ◌≤◌, ◌<◌, ◌≡◌, Bool, true, false, not, List, [], ◌∷◌, ◌++◌, ◌==◌,
  ◌&&◌, ◌||◌, if◌then◌else◌, ltb, length, sub32,
}
use tp2_so.Console.{Console, Why, returns, fails, sleeps, newline, control, translate}
use tp2_so.Console.Ring.{window, back, in_order}

-- The keys that a read may take, oldest first, and those that can still be edited, newest first.
pub record Line : Type 0 where
  pub ready : List ℕ
  pub editing : List ℕ

abbrev pub till_newline : List ℕ → List ℕ
till_newline [] = []
till_newline (c ∷ cs) = if not (c == newline) then till_newline cs else c ∷ cs

abbrev pub without_last : List ℕ → List ℕ
without_last [] = []
without_last (c ∷ cs) = cs

abbrev pub finish : Line → Line
finish l = record { ready = l.ready ++ in_order l.editing; editing = [] }

abbrev pub held : Line → ℕ
held l = length l.ready + length l.editing

abbrev pub add : ℕ → Line → Line
add c l =
    let t : Line = record l { editing = c % 256 ∷ l.editing } in
    if c == newline || c == control 68 || held t == 128 then finish t else t

abbrev pub type_key : ℕ → Line → Line
type_key c l =
    if c == control 80
    then l
    else if c == control 85
    then record l { editing = till_newline l.editing }
    else if c == control 72 || c == 127
    then record l { editing = without_last l.editing }
    else if not (c == 0) && ltb (held l) 128
    then add (translate c) l
    else l

abbrev pub type_keys : List ℕ → Line → Line
type_keys [] l = l
type_keys (c ∷ cs) l = type_keys cs (type_key c l)

-- What a read takes from the queue.
pub record Taken : Type 0 where
  pub queue : List ℕ
  pub dst : List ℕ
  pub left : ℕ
  pub why : Why

abbrev pub and_read : ℕ → Taken → Taken
and_read c t = record t { dst = c ∷ t.dst }

abbrev pub take_line : Bool → ℕ → ℕ → List ℕ → Taken
take_line killed target zero q = record { queue = q; dst = []; left = 0; why = returns }
take_line killed target (suc n) [] = record {
  queue = [];
  dst = [];
  left = suc n;
  why = if killed then fails else sleeps;
}
take_line killed target (suc n) (c ∷ q) =
    let rest = take_line killed target n q in
    if c == control 68
    then record {
      queue = if ltb (suc n) target then c ∷ q else q;
      dst = [];
      left = suc n;
      why = returns;
    }
    else if c == newline
    then record { queue = q; dst = c ∷ []; left = n; why = returns }
    else and_read c rest

-- The console `s` holds the line `l`, with its counters in order, `r` before `w` before `e`.
pub record View (s : Console) (l : Line) : Type 0 where
  pub storage : length s.buf ≡ 128
  pub r_in : s.r < 2 ^ 32
  pub w_in : s.w < 2 ^ 32
  pub e_in : s.e < 2 ^ 32
  pub in_line : sub32 s.w s.r ≤ sub32 s.e s.r
  pub fits : sub32 s.e s.r ≤ 128
  pub queue : l.ready ≡ window s.buf s.r (sub32 s.w s.r)
  pub line : l.editing ≡ back s.buf s.e (sub32 s.e s.w)
