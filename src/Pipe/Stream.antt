-- ===== src/Pipe/Stream.antt =====
-- Reads and writes of pipe.c against the queue of bytes, for any interleaving of the stretches of
-- `pipewrite` and the calls of `piperead` that the pipe's lock allows.
use tp2_so.Base.{
  subst, ℕ, zero, suc, ◌%◌, ◌≤◌, ◌≡◌, ◌≢◌, ◌⊎◌, inl, inr, refl, sym, ◌∙◌, ap, ap₂, Bool, true,
  false, not, List, [], ◌∷◌, ◌++◌, ◌==◌, ◌&&◌, arith, append-nil, append_assoc, if◌then◌else◌,
  get_or, length, Bool-cases,
}
use mathlib.Core.List.{append_cancel_right}
use tp2_so.Pipe.{
  Pipe, put, is_full, is_empty, Stop, Why, done, fails, sleeps, pipewrite, copy_out, got,
  read_fails, read_sleeps, piperead,
}
use tp2_so.Pipe.Ring.{IsValid, contents, contents-put, contents-take_one, take_one, contents_empty}

-- What a stretch of `pipewrite` has done to the pipe `p`, from the bytes `bs` on.
pub record Wrote (killed : Bool) (bs : List ℕ) (p : Pipe) (s : Stop) : Type 0 where
  pub valid : IsValid s.pipe
  pub sent : List ℕ
  pub split : bs ≡ sent ++ s.rest
  pub queue : contents s.pipe ≡ contents p ++ sent
  pub all_done : s.why ≡ done → s.rest ≡ []
  pub stopped : s.why ≢ done → is_full s.pipe ≡ true
  pub failed : s.why ≡ fails → (p.readopen ≡ 0) ⊎ (killed ≡ true)
  pub slept : s.why ≡ sleeps → (p.readopen ≢ 0) × (killed ≡ false)
  pub reader : s.pipe.nread ≡ p.nread

put-Wrote :
    (killed : Bool) (b : ℕ) (bs : List ℕ) (p : Pipe) (s : Stop)
    → IsValid p
    → is_full p ≡ false
    → Wrote killed bs (put b p) s
    → Wrote killed (b ∷ bs) p s
unfolding put
put-Wrote killed b bs p s v room w = record {
  valid = w.valid;
  sent = b ∷ w.sent;
  split = ap (λ l. b ∷ l) w.split;
  queue =
      w.queue
      ∙ ap (λ l. l ++ w.sent) (contents-put b p v room).0
      ∙ append_assoc (contents p) (b ∷ []) w.sent;
  all_done = w.all_done;
  stopped = w.stopped;
  failed = w.failed;
  slept = w.slept;
  reader = w.reader;
}

-- A stretch of `pipewrite` appends a prefix of its bytes to the queue, in order, and keeps the pipe
-- valid. It ends only with no byte left, or at a full pipe: with -1 if the reading end is closed or
-- the caller is killed, and asleep if neither holds.
pub pipewrite_lem :
    (killed : Bool) (bs : List ℕ) (p : Pipe) → IsValid p → Wrote killed bs p (pipewrite killed bs p)
unfolding pipewrite
pipewrite_lem killed [] p v = record {
  valid = v;
  sent = [];
  split = refl;
  queue = sym (append-nil (contents p));
  all_done = λ e. refl;
  stopped = λ ne. absurd (ne refl);
  failed = λ e. cc;
  slept = λ e. cc;
  reader = refl;
}
pipewrite_lem killed (b ∷ bs) p v = elim (Bool-cases (is_full p)) [
  | inl full ↦
      rw (full, pipewrite)
        (record {
          valid = v;
          sent = [];
          split = refl;
          queue = sym (append-nil (contents p));
          all_done = λ e. ground arith;
          stopped = λ ne. full;
          failed = λ e. ground arith;
          slept = λ e. ground arith;
          reader = refl;
        })
  | inr room ↦
      rw (room, pipewrite)
        (put-Wrote killed b bs p (pipewrite killed bs (put b p)) v room
          (pipewrite_lem killed bs (put b p) (contents-put b p v room).1))
]

-- What the copying loop of `piperead` has done, with `n` rounds.
pub record Copied (n : ℕ) (p : Pipe) (r : List ℕ × Pipe) : Type 0 where
  pub valid : IsValid r.1
  pub queue : contents p ≡ r.0 ++ contents r.1
  pub at_most : length r.0 ≤ n
  pub all_or_empty : (length r.0 ≡ n) ⊎ (contents r.1 ≡ [])
  pub writer : (r.1.nwrite ≡ p.nwrite) × (r.1.writeopen ≡ p.writeopen)

copy_out-Copied : (n : ℕ) (p : Pipe) → IsValid p → Copied n p (copy_out n p)
unfolding copy_out
copy_out-Copied zero p v = record {
  valid = v;
  queue = refl;
  at_most = omega arith;
  all_or_empty = inl refl;
  writer = (refl, refl);
}
copy_out-Copied (suc n) p v = elim (Bool-cases (is_empty p)) [
  | inl empty ↦
      rw (empty, copy_out)
        (record {
          valid = v;
          queue = refl;
          at_most = omega arith;
          all_or_empty = inr (contents_empty p v empty);
          writer = (refl, refl);
        })
  | inr more ↦
      let (first, valid) = contents-take_one p v more in
      let c = copy_out-Copied n (take_one p) valid in
      rw (more, copy_out)
        (record {
          valid = c.valid;
          queue = first ∙ ap (λ l. get_or p.bytes (p.nread % 512) 0 ∷ l) c.queue;
          at_most = omega (arith, c.at_most);
          all_or_empty = ground (arith, c.all_or_empty);
          writer = c.writer;
        })
]

-- `piperead` on every branch. It takes the oldest bytes, in order: `n` of them, or all that are
-- there; it sleeps, or answers -1 for a killed caller, only at an empty pipe with its writing end
-- open.
pub piperead_lem :
    (killed : Bool) (n : ℕ) (p : Pipe)
    → IsValid p
    → ((bs : List ℕ) × (q : Pipe) × (piperead killed n p ≡ got bs q) × Copied n p (bs, q))
      ⊎ ((contents p ≡ [])
          × (p.writeopen ≢ 0)
          × (piperead killed n p ≡ (if killed then read_fails else read_sleeps)))
unfolding piperead
piperead_lem killed n p v = elim (Bool-cases (is_empty p && not (p.writeopen == 0))) [
  | inl stop ↦ inr (contents_empty p v (ground arith), ground arith, rw (stop, piperead))
  | inr go ↦ inl ((copy_out n p).0, (copy_out n p).1, rw (go, piperead), copy_out-Copied n p v)
]

-- The pipe with all that was ever written to it and all that was ever read.
pub record History : Type 0 where
  pub pipe : Pipe
  pub written : List ℕ
  pub received : List ℕ

-- One stretch of a `pipewrite` that has `sent ++ rest` left to write, or one `piperead`.
pub data Turn (h : History) : History → Type 0 where
  writes :
      (killed : Bool) (sent rest : List ℕ) (q : Pipe) (why : Why)
      → pipewrite killed (sent ++ rest) h.pipe ≡ record { pipe = q; rest = rest; why = why }
      → Turn h (record { pipe = q; written = h.written ++ sent; received = h.received })
  reads :
      (killed : Bool) (n : ℕ) (bs : List ℕ) (q : Pipe)
      → piperead killed n h.pipe ≡ got bs q
      → Turn h (record h { pipe = q; received = h.received ++ bs })

pub data Turns (h : History) : History → Type 0 where
  here : Turns h h
  next : {g k : History} → Turns h g → Turn g k → Turns h k

-- What has been written is what has been read and what is in the pipe.
pub record InOrder (h : History) : Type 0 where
  pub valid : IsValid h.pipe
  pub stream : h.written ≡ h.received ++ contents h.pipe

Turn-InOrder : {h g : History} → Turn h g → InOrder h → InOrder g
Turn-InOrder {h} (writes killed sent rest q why e) o =
    let w : Wrote killed (sent ++ rest) h.pipe (record { pipe = q; rest = rest; why = why }) =
      subst (Wrote killed (sent ++ rest) h.pipe) e
        (pipewrite_lem killed (sent ++ rest) h.pipe o.valid) in
    let same : sent ≡ w.sent = append_cancel_right sent w.sent rest w.split in
    record {
      valid = w.valid;
      stream =
          ap (λ l. l ++ sent) o.stream
          ∙ append_assoc h.received (contents h.pipe) sent
          ∙ ap (λ l. h.received ++ l) (ap (λ l. contents h.pipe ++ l) same ∙ sym w.queue);
    }
Turn-InOrder {h} (reads killed n bs q e) o = elim (piperead_lem killed n h.pipe o.valid) [
  | inl (bs', q', e', c) ↦
      let same_b : bs' ≡ bs = ground arith in
      let same_q : q' ≡ q = ground arith in
      record {
        valid = subst IsValid same_q c.valid;
        stream =
            o.stream
            ∙ ap (λ l. h.received ++ l) (c.queue ∙ ap₂ (λ l r. l ++ contents r) same_b same_q)
            ∙ sym (append_assoc h.received bs (contents q));
      }
  | inr (empty, open_end, e') ↦ absurd (ground arith)
]

Turns-InOrder : {h g : History} → Turns h g → InOrder h → InOrder g
Turns-InOrder here o = o
Turns-InOrder (next t u) o = Turn-InOrder u (Turns-InOrder t o)

-- Whatever the readers and the writers, and however their calls interleave, a pipe that starts empty
-- delivers the bytes in the order in which they were written: at every point what has been read,
-- followed by what is in the pipe, is what has been written, and the pipe is valid.
pub pipe_in_order :
    {h g : History}
    → IsValid h.pipe
    → contents h.pipe ≡ []
    → h.written ≡ []
    → h.received ≡ []
    → Turns h g
    → (g.written ≡ g.received ++ contents g.pipe) × IsValid g.pipe
pipe_in_order {h} v c w r t =
    let start : InOrder h = record { valid = v; stream = ground arith } in
    let o = Turns-InOrder t start in (o.stream, o.valid)
