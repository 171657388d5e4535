-- ===== src/Pipe/Ring.antt =====
-- The bytes that the ring of pipe.c holds, as a list.
use tp2_so.Base.{
  ℕ, zero, suc, ◌+◌, ◌^◌, ◌%◌, ◌≤◌, ◌<◌, ◌≡◌, refl, ◌∙◌, ap, ap₂, true, false, List, [], ◌∷◌, ◌++◌,
  arith, get_or, set, get_or-set, length, length-set, add32, sub32,
}
use tp2_so.Pipe.{Pipe, pipe_size, put, is_full, is_empty, pipe_init}

-- The `n` bytes from counter `r` on.
abbrev pub window : List ℕ → ℕ → ℕ → List ℕ
window bs r zero = []
window bs r (suc n) = get_or bs (r % pipe_size) 0 ∷ window bs (add32 r 1) n

abbrev pub count : Pipe → ℕ
count p = sub32 p.nwrite p.nread

-- The bytes that are in the pipe, oldest first.
abbrev pub contents : Pipe → List ℕ
contents p = window p.bytes p.nread (count p)

pub record IsValid (p : Pipe) : Type 0 where
  pub storage : length p.bytes ≡ 512
  pub read_in : p.nread < 2 ^ 32
  pub write_in : p.nwrite < 2 ^ 32
  pub fits : count p ≤ 512

pub length-window : (bs : List ℕ) (r n : ℕ) → length (window bs r n) ≡ n
length-window bs r zero = refl
length-window bs r (suc n) = ap suc (length-window bs (add32 r 1) n)

window-set :
    (bs : List ℕ) (x r n i : ℕ)
    → length bs ≡ 512
    → r < 2 ^ 32
    → n < 512
    → i ≡ (r + n) % 2 ^ 32 % 512
    → window (set bs i x) r (suc n) ≡ window bs r n ++ (x ∷ [])
window-set bs x r zero i s hr hn e =
    ap₂ ◌∷◌ (get_or-set bs i (r % 512) x 0 (omega arith) ∙ ground arith) refl
window-set bs x r (suc n) i s hr hn e =
    ap₂ ◌∷◌ (get_or-set bs i (r % 512) x 0 (omega arith) ∙ ground arith)
      (window-set bs x (add32 r 1) n i s (omega arith) (omega arith) (omega arith))

pub full_iff : (p : Pipe) → IsValid p → is_full p ≡ false → count p < 512
full_iff p v e = ground arith

-- A byte that is put into a pipe with room goes to the end of the queue, and the pipe stays valid.
pub contents-put :
    (b : ℕ) (p : Pipe)
    → IsValid p
    → is_full p ≡ false
    → (contents (put b p) ≡ contents p ++ (b ∷ [])) × IsValid (put b p)
unfolding put
contents-put b p v e =
    let room : count p < 512 = full_iff p v e in
    let one_more : sub32 (add32 p.nwrite 1) p.nread ≡ suc (count p) = omega (arith, v) in
    (
      ap (window (set p.bytes (p.nwrite % 512) b) p.nread) one_more
          ∙ window-set p.bytes b p.nread (count p) (p.nwrite % 512) v.storage v.read_in room
              (omega (arith, v)),
      record {
        storage = length-set p.bytes (p.nwrite % 512) b ∙ v.storage;
        read_in = v.read_in;
        write_in = omega arith;
        fits = omega (arith, one_more);
      },
    )

-- A pipe that is not empty gives its oldest byte, and stays valid without it.
abbrev pub take_one : Pipe → Pipe
take_one p = record p { nread = add32 p.nread 1 }

pub contents-take_one :
    (p : Pipe)
    → IsValid p
    → is_empty p ≡ false
    → (contents p ≡ get_or p.bytes (p.nread % 512) 0 ∷ contents (take_one p)) × IsValid (take_one p)
contents-take_one p v e =
    let one_less : count p ≡ suc (count (take_one p)) = ground (arith, v) in
    (
      ap (window p.bytes p.nread) one_less,
      record {
        storage = v.storage;
        read_in = omega arith;
        write_in = v.write_in;
        fits = omega (arith, one_less, v);
      },
    )

pub contents_empty : (p : Pipe) → IsValid p → is_empty p ≡ true → contents p ≡ []
contents_empty p v e = ap (window p.bytes p.nread) (let z : count p ≡ 0 = ground arith in z)

-- The pipe that `pipealloc` makes is valid and empty.
pub pipe_init-IsValid :
    (page : List ℕ)
    → length page ≡ 512
    → IsValid (pipe_init page) × (contents (pipe_init page) ≡ [])
unfolding pipe_init
pipe_init-IsValid page h = (omega arith, refl)
