-- ===== src/Grep/Chunks.antt =====
-- grep.c: what `grep` writes, however the input is cut into reads.
use tp2_so.Base.{ℕ, ◌≡◌, ◌≢◌, List, [], ◌∷◌, ◌++◌, ◌==◌, if◌then◌else◌}
use tp2_so.Grep.{Scan, shown}

-- The lines that end in a text, after `line`.
abbrev pub whole_lines : List ℕ → List ℕ → List (List ℕ)
whole_lines line [] = []
whole_lines line (x ∷ text) =
    let next_line = whole_lines [] text in
    let further = whole_lines (line ++ (x ∷ [])) text in
    if x == 10 then line ∷ next_line else further

abbrev pub show_all : List ℕ → List (List ℕ) → List ℕ
show_all pattern [] = []
show_all pattern (line ∷ lines) = shown pattern line ++ show_all pattern lines

abbrev pub join : List (List ℕ) → List ℕ
join [] = []
join (chunk ∷ chunks) = chunk ++ join chunks

-- A text without a 0 byte.
pub data Text : List ℕ → Type 0 where
  empty : Text []
  byte : (x : ℕ) (t : List ℕ) → x ≢ 0 → Text t → Text (x ∷ t)

-- A part of a line.
pub data Part : List ℕ → Type 0 where
  none_yet : Part []
  char : (x : ℕ) (t : List ℕ) → x ≢ 0 → x ≢ 10 → Part t → Part (x ∷ t)

pub data HasLine : List ℕ → Type 0 where
  here : (t : List ℕ) → HasLine (10 ∷ t)
  there : (x : ℕ) (t : List ℕ) → HasLine t → HasLine (x ∷ t)

-- Each read gives text in which a line ends.
pub data Reads : List (List ℕ) → Type 0 where
  no_more : Reads []
  one_more : (c : List ℕ) (cs : List (List ℕ)) → Text c → HasLine c → Reads cs → Reads (c ∷ cs)

-- What the loop makes of a text, against the lines of it and of what comes after.
record Scanned (pattern line text after : List ℕ) (s : Scan) : Type 0 where
  rest_part : Part s.rest
  same :
      show_all pattern (whole_lines line (text ++ after))
      ≡ s.written ++ show_all pattern (whole_lines s.rest after)
  counted : HasLine text → s.lines ≢ 0
