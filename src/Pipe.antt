-- ===== src/Pipe.antt =====
-- xv6-public/pipe.c: a ring of 512 bytes with two free-running 32-bit counters. A call that sleeps is
-- cut there: the function ends with what is left to do, and goes on from the pipe as others left it.
-- Which sleepers a call wakes is not part of its result.
pub mod Ring
pub mod Stream
pub mod Close
pub mod Tests
use tp2_so.Base.{
  ℕ, zero, suc, ◌%◌, Bool, true, false, not, Option, none, some, List, [], ◌∷◌, ◌==◌, ◌&&◌, ◌||◌,
  if◌then◌else◌, get_or, set, add32,
}

abbrev pub pipe_size : ℕ
pipe_size = 512

-- `struct pipe`; its lock is taken around each of the functions below.
pub record Pipe : Type 0 where
  pub bytes : List ℕ
  pub nread : ℕ
  pub nwrite : ℕ
  pub readopen : ℕ
  pub writeopen : ℕ

abbrev pub is_full : Pipe → Bool
is_full p = p.nwrite == add32 p.nread pipe_size

abbrev pub is_empty : Pipe → Bool
is_empty p = p.nread == p.nwrite

-- `p->data[p->nwrite++ % PIPESIZE] = addr[i]`
unfoldable pub put : ℕ → Pipe → Pipe
put b p = record p { bytes = set p.bytes (p.nwrite % pipe_size) b; nwrite = add32 p.nwrite 1 }

-- Why a stretch of `pipewrite` ends: all is written, it answers -1, or it sleeps on `nwrite`.
pub data Why : Type 0 where
  done fails sleeps : Why

pub record Stop : Type 0 where
  pub pipe : Pipe
  pub rest : List ℕ
  pub why : Why

-- `pipewrite` from the bytes that are left, up to its end or its next `sleep`.
unfoldable pub pipewrite : Bool → List ℕ → Pipe → Stop
pipewrite killed [] p = record { pipe = p; rest = []; why = done }
pipewrite killed (b ∷ bs) p = elim (is_full p) [
  | true ↦ record {
    pipe = p;
    rest = b ∷ bs;
    why = if p.readopen == 0 || killed then fails else sleeps;
  }
  | false ↦ pipewrite killed bs (put b p)
]

-- The copying loop of `piperead`, with `n` rounds left.
unfoldable pub copy_out : ℕ → Pipe → List ℕ × Pipe
copy_out zero p = ([], p)
copy_out (suc n) p = elim (is_empty p) [
  | true ↦ ([], p)
  | false ↦
      let (bs, q) = copy_out n (record p { nread = add32 p.nread 1 }) in
      (get_or p.bytes (p.nread % pipe_size) 0 ∷ bs, q)
]

pub data Read : Type 0 where
  got : List ℕ → Pipe → Read
  read_fails read_sleeps : Read

-- `piperead`, up to its end or its next `sleep`.
unfoldable pub piperead : Bool → ℕ → Pipe → Read
piperead killed n p =
    if is_empty p && not (p.writeopen == 0)
    then (if killed then read_fails else read_sleeps)
    else (let (bs, q) = copy_out n p in got bs q)

-- `pipeclose`: the pipe after it, and whether it is freed. It wakes the readers if it closes the
-- writing end, and the writers if it closes the reading end.
unfoldable pub pipeclose : Bool → Pipe → Pipe × Bool
pipeclose writable p =
    let q : Pipe = (if writable then record p { writeopen = 0 } else record p { readopen = 0 }) in
    (q, q.readopen == 0 && q.writeopen == 0)

-- What `pipealloc` makes of a fresh page.
unfoldable pub pipe_init : List ℕ → Pipe
pipe_init page = record { bytes = page; nread = 0; nwrite = 0; readopen = 1; writeopen = 1 }
