-- ===== src/Grep.antt =====
-- xv6-public/grep.c: the matcher of patterns, and `grep`. A C string is the list of its bytes before the 0 byte.
pub mod Matches
pub mod Chunks
pub mod Tests
use tp2_so.Base.{
  ℕ, zero, suc, ◌++◌, Bool, true, false, List, [], ◌∷◌, ◌==◌, ◌&&◌, ◌||◌, if◌then◌else◌,
}

abbrev pub any : ℕ
any = 46

abbrev pub many : ℕ
many = 42

abbrev pub line_start : ℕ
line_start = 94

abbrev pub line_end : ℕ
line_end = 36

abbrev pub fits : ℕ → ℕ → Bool
fits c t = t == c || c == any

-- `matchstar`, with `here text` for `matchhere(re, text)`.
unfoldable pub matchstar : (List ℕ → Bool) → ℕ → List ℕ → Bool
matchstar here c [] = here []
matchstar here c (t ∷ ts) = here (t ∷ ts) || (fits c t && matchstar here c ts)

-- The last `if` of `matchhere`, with `here` for `matchhere` of the rest of the pattern.
abbrev pub match_one : (List ℕ → Bool) → ℕ → List ℕ → Bool
match_one here c [] = false
match_one here c (t ∷ ts) = fits c t && here ts

abbrev pub is_empty : List ℕ → Bool
is_empty [] = true
is_empty (t ∷ ts) = false

unfoldable pub matchhere : List ℕ → List ℕ → Bool
unfolding matchstar
matchhere [] text = true
matchhere (c ∷ []) text = if c == line_end then is_empty text else match_one (matchhere []) c text
matchhere (c ∷ d ∷ re) text =
    if d == many then matchstar (matchhere re) c text else match_one (matchhere (d ∷ re)) c text

-- The loop of `match`.
unfoldable pub search_text : List ℕ → List ℕ → Bool
unfolding matchhere
search_text re [] = matchhere re []
search_text re (t ∷ ts) = matchhere re (t ∷ ts) || search_text re ts

unfoldable pub match : List ℕ → List ℕ → Bool
unfolding search_text
match [] text = search_text [] text
match (c ∷ re) text = if c == line_start then matchhere re text else search_text (c ∷ re) text

-- What the loop over the lines of `buf` leaves: the bytes it wrote, the bytes from `p` on, and how many
-- lines it passed.
pub record Scan : Type 0 where
  pub written : List ℕ
  pub rest : List ℕ
  pub lines : ℕ

-- What is written for a line.
abbrev pub shown : List ℕ → List ℕ → List ℕ
shown pattern line = if match pattern line then line ++ (10 ∷ []) else []

abbrev pub and_line : List ℕ → Scan → Scan
and_line out s = record s { written = out ++ s.written; lines = suc s.lines }

-- The loop over the lines of `buf`, with the search of `strchr` for their ends: `line` is what the
-- search has passed since `p`. The search stops at a 0 byte, and so does the loop.
unfoldable pub scan : List ℕ → List ℕ → List ℕ → Scan
scan pattern line [] = record { written = []; rest = line; lines = 0 }
scan pattern line (x ∷ text) =
    let next_line = scan pattern [] text in
    let further = scan pattern (line ++ (x ∷ [])) text in
    if x == 10
    then and_line (shown pattern line) next_line
    else if x == 0
    then record { written = []; rest = line ++ x ∷ text; lines = 0 }
    else further

-- What stays in `buf` for the next `read`: nothing if no line ended in it.
abbrev pub carried : Scan → List ℕ
carried s = if s.lines == 0 then [] else s.rest

-- `grep` on what the calls of `read` give, from the `m` bytes in `buf` on: the bytes it writes. A `read`
-- gives no more bytes than the `sizeof(buf) - m - 1` that it is asked for.
unfoldable pub grep : List ℕ → List ℕ → List (List ℕ) → List ℕ
unfolding scan
grep pattern kept [] = []
grep pattern kept (chunk ∷ chunks) =
    let s = scan pattern [] (kept ++ chunk) in s.written ++ grep pattern (carried s) chunks
