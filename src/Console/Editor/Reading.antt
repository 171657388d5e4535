-- ===== src/Console/Editor/Reading.antt =====
-- console.c: `consoleread` against the queue of keys, and what a reader gets of a typed line.
use tp2_so.Base.{
  ℕ, zero, suc, ◌≡◌, ◌≢◌, inl, inr, refl, sym, ◌∙◌, ap, subst, Bool, true, false, List, [], ◌∷◌,
  ◌==◌, if◌then◌else◌, ltb, add32, sub32, arith, Bool-cases,
}
use tp2_so.Console.{
  Console, Stop, returns, fails, sleeps, newline, control, next_key, took_key, read_key,
  consoleread,
}
use tp2_so.Console.Ring.{window}
use tp2_so.Console.Editor.{Line, View, Taken, and_read, take_line}

-- A stretch of `consoleread` ended as the abstract read did, and left its queue.
pub record Same (editing : List ℕ) (s : Stop) (t : Taken) : Type 0 where
  pub view : View s.console (record { ready = t.queue; editing = editing })
  pub dst : s.dst ≡ t.dst
  pub left : s.left ≡ t.left
  pub why : s.why ≡ t.why

abbrev later : Console → List ℕ
later s = window s.buf (add32 s.r 1) (sub32 s.w (add32 s.r 1))

ready_cons :
    (s : Console) (l : Line) → View s l → (s.r == s.w) ≡ false → l.ready ≡ next_key s ∷ later s
ready_cons s l v ne =
    let more : sub32 s.w s.r ≡ suc (sub32 s.w (add32 s.r 1)) = ground (arith, v) in
    v.queue ∙ ap (window s.buf s.r) more

ready_none : (s : Console) (l : Line) → View s l → (s.r == s.w) ≡ true → l.ready ≡ []
ready_none s l v eq =
    v.queue ∙ ap (window s.buf s.r) (let z : sub32 s.w s.r ≡ 0 = ground (arith, v) in z)

took_key-View :
    (s : Console) (l : Line)
    → View s l
    → (s.r == s.w) ≡ false
    → View (took_key s) (record l { ready = later s })
took_key-View s l v ne =
    let some_left : s.r ≢ s.w = ground arith in
    record {
      storage = v.storage;
      r_in = omega arith;
      w_in = v.w_in;
      e_in = v.e_in;
      in_line = omega (arith, v, some_left);
      fits = omega (arith, v, some_left);
      queue = refl;
      line = v.line;
    }

if-Same :
    (b : Bool) {e : List ℕ} {s s1 : Stop} {t t1 : Taken}
    → (b ≡ true → Same e s t)
    → (b ≡ false → Same e s1 t1)
    → Same e (if b then s else s1) (if b then t else t1)
if-Same true f g = f refl
if-Same false f g = g refl

and_read-Same :
    (c : ℕ) {e : List ℕ} {s : Stop} {t : Taken} → Same e s t → Same e (read_key c s) (and_read c t)
and_read-Same c h = record {
  view = h.view;
  dst = ap (λ d. c ∷ d) h.dst;
  left = h.left;
  why = h.why;
}

-- If the console holds a line, then a stretch of `consoleread` takes from the queue of its keys what
-- the abstract read takes: up to and with the first newline, up to a Control-D, which stays in the
-- queue if keys were read before it and goes if none were, or the number that is left to read. It
-- sleeps if and only if the queue runs out first and the process is not killed, and answers -1 if
-- it is killed. What can be edited does not change.
pub consoleread_refines :
    (killed : Bool) (target n : ℕ) (s : Console) (l : Line)
    → View s l
    → Same l.editing (consoleread killed target n s) (take_line killed target n l.ready)
unfolding consoleread
consoleread_refines killed target zero s l v = record {
  view = v;
  dst = refl;
  left = refl;
  why = refl;
}
consoleread_refines killed target (suc n) s l v = elim (Bool-cases (s.r == s.w)) [
  | inl eq ↦
      let none_left = ready_none s l v eq in
      rw eq (
        subst
          (λ q.
            Same l.editing
              (record {
                console = s;
                dst = [];
                left = suc n;
                why = if killed then fails else sleeps;
              })
              (take_line killed target (suc n) q))
          (sym none_left)
          (record {
            view = subst (λ q. View s (record l { ready = q })) none_left v;
            dst = refl;
            left = refl;
            why = refl;
          }))
  | inr ne ↦
      let c = next_key s in
      let q = later s in
      let cons = ready_cons s l v ne in
      let took = took_key-View s l v ne in
      let kept = subst (λ x. View s (record l { ready = x })) cons v in
      rw ne (
        subst
          (λ x.
            Same l.editing
              (if c == control 68
                then record {
                  console = if ltb (suc n) target then s else took_key s;
                  dst = [];
                  left = suc n;
                  why = returns;
                }
                else if c == newline
                then record { console = took_key s; dst = c ∷ []; left = n; why = returns }
                else read_key c (consoleread killed target n (took_key s)))
              (take_line killed target (suc n) x))
          (sym cons)
          (if-Same (c == control 68)
            (λ _. elim (Bool-cases (ltb (suc n) target)) [
              | inl some_read ↦
                  rw some_read (record { view = kept; dst = refl; left = refl; why = refl })
              | inr first ↦ rw first (record { view = took; dst = refl; left = refl; why = refl })
            ])
            (λ _.
              if-Same (c == newline)
                (λ _. record { view = took; dst = refl; left = refl; why = refl })
                (λ _. and_read-Same c (
                  consoleread_refines killed target n (took_key s) (record l { ready = q })
                    took)))))
]
