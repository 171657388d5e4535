-- ===== src/Console/Editor/Typing.antt =====
-- console.c: `consoleintr` against the line editor.
use tp2_so.Base.{
  ℕ, zero, suc, ◌+◌, ◌%◌, ◌<◌, ◌≡◌, ◌≢◌, inl, inr, refl, sym, ◌∙◌, ap, ap₂, subst, Bool, true,
  false, not, List, [], ◌∷◌, ◌++◌, ◌==◌, ◌&&◌, ◌||◌, if◌then◌else◌, ltb, get_or, set, get_or-set,
  length, length-set, add32, sub32, arith, Bool-cases,
}
use tp2_so.Console.{
  Console, newline, control, translate, rub_out, last_key, kill_line, stored, committed, ends_line,
  add_key, key, consoleintr,
}
use tp2_so.Console.Ring.{
  window, back, in_order, window-set, back-set, window-back, length-window, length-back,
}
use tp2_so.Console.Editor.{
  Line, View, till_newline, without_last, finish, held, add, type_key, type_keys,
}

editing_cons :
    (s : Console) (l : Line)
    → View s l
    → (s.e == s.w) ≡ false
    → l.editing ≡ last_key s ∷ back s.buf (sub32 s.e 1) (sub32 (sub32 s.e 1) s.w)
editing_cons s l v ne =
    let more : sub32 s.e s.w ≡ suc (sub32 (sub32 s.e 1) s.w) = ground (arith, v) in
    v.line ∙ ap (back s.buf s.e) more

editing_none : (s : Console) (l : Line) → View s l → (s.e == s.w) ≡ true → l.editing ≡ []
editing_none s l v eq =
    v.line ∙ ap (back s.buf s.e) (let z : sub32 s.e s.w ≡ 0 = ground (arith, v) in z)

rub_out-View :
    (s : Console) (l : Line)
    → View s l
    → (s.e == s.w) ≡ false
    → View (rub_out s) (record l { editing = without_last l.editing })
rub_out-View s l v ne =
    let some_left : s.e ≢ s.w = ground arith in
    record {
      storage = v.storage;
      r_in = v.r_in;
      w_in = v.w_in;
      e_in = omega arith;
      in_line = omega (arith, v, some_left);
      fits = omega (arith, v, some_left);
      queue = v.queue;
      line = ap without_last (editing_cons s l v ne);
    }

same_editing :
    (s : Console) (l : Line) (e : List ℕ)
    → e ≡ l.editing
    → View s l
    → View s (record l { editing = e })
same_editing s l e q v = subst (λ x. View s (record l { editing = x })) (sym q) v

kill_line-View :
    (n : ℕ) (s : Console) (l : Line)
    → View s l
    → n ≡ sub32 s.e s.w
    → View (kill_line n s) (record l { editing = till_newline l.editing })
unfolding kill_line
kill_line-View zero s l v q =
    let none_left : l.editing ≡ [] = v.line ∙ ap (back s.buf s.e) (sym q) in
    same_editing s l (till_newline l.editing) (ap till_newline none_left ∙ sym none_left) v
kill_line-View (suc n) s l v q = elim (Bool-cases (s.e == s.w)) [
  | inl eq ↦ absurd (ground (arith, v))
  | inr ne ↦
      let some_left : s.e ≢ s.w = ground arith in
      let cons = editing_cons s l v ne in
      elim (Bool-cases (last_key s == newline)) [
        | inl stop ↦
            let kept : till_newline l.editing ≡ l.editing = rw cons (rw stop refl) in
            subst (λ t. View t (record l { editing = till_newline l.editing }))
              (let z : s ≡ kill_line (suc n) s = rw (ne, stop) refl in z)
              (same_editing s l (till_newline l.editing) kept v)
        | inr go ↦
            let shorter : till_newline l.editing ≡ till_newline (without_last l.editing) =
              rw cons (rw go refl) in
            subst (λ t. View t (record l { editing = till_newline l.editing }))
              (let z : kill_line n (rub_out s) ≡ kill_line (suc n) s = rw (ne, go) refl in z)
              (subst (λ x. View (kill_line n (rub_out s)) (record l { editing = x })) (sym shorter)
                (kill_line-View n (rub_out s) (record l { editing = without_last l.editing })
                  (rub_out-View s l v ne) (omega (arith, some_left, v))))
      ]
]

stored-View :
    (c : ℕ) (s : Console) (l : Line)
    → View s l
    → sub32 s.e s.r < 128
    → View (stored c s) (record l { editing = c % 256 ∷ l.editing })
stored-View c s l v room =
    let i = s.e % 128 in
    let x = c % 256 in
    let bs = set s.buf i x in
    let back_one : sub32 (add32 s.e 1) 1 ≡ s.e = omega (arith, v) in
    let one_more : sub32 (add32 s.e 1) s.w ≡ suc (sub32 s.e s.w) = omega (arith, v) in
    let there : get_or bs (sub32 (add32 s.e 1) 1 % 128) 0 ≡ x =
      ap (λ j. get_or bs (j % 128) 0) back_one
      ∙ get_or-set s.buf i i x 0 (omega (arith, v.storage))
      ∙ ground arith in
    let others : back bs (sub32 (add32 s.e 1) 1) (sub32 s.e s.w) ≡ back s.buf s.e (sub32 s.e s.w) =
      ap (λ j. back bs j (sub32 s.e s.w)) back_one
      ∙ back-set s.buf x s.e (sub32 s.e s.w) 0 i v.storage v.e_in (omega (arith, v))
          (omega (arith, v)) in
    record {
      storage = length-set s.buf i x ∙ v.storage;
      r_in = v.r_in;
      w_in = v.w_in;
      e_in = omega arith;
      in_line = omega (arith, v, room);
      fits = omega (arith, v, room);
      queue =
          v.queue
          ∙ sym (
              window-set s.buf x s.r (sub32 s.w s.r) (sub32 s.e s.w) i v.storage v.r_in
                (omega (arith, v)) (omega (arith, v)));
      line = sym (ap (back bs (add32 s.e 1)) one_more ∙ ap₂ ◌∷◌ there (others ∙ sym v.line));
    }

committed-View : (s : Console) (l : Line) → View s l → View (committed s) (finish l)
committed-View s l v =
    let both : sub32 s.e s.r ≡ sub32 s.w s.r + sub32 s.e s.w = omega (arith, v) in
    let none_left : sub32 s.e s.e ≡ 0 = omega (arith, v) in
    record {
      storage = v.storage;
      r_in = v.r_in;
      w_in = v.e_in;
      e_in = v.e_in;
      in_line = omega arith;
      fits = v.fits;
      queue = sym (
          ap (window s.buf s.r) both
          ∙ window-back s.buf s.r s.e (sub32 s.w s.r) (sub32 s.e s.w) v.r_in (omega (arith, v))
          ∙ ap₂ (λ q e. q ++ in_order e) (sym v.queue) (sym v.line));
      line = sym (ap (back s.buf s.e) none_left);
    }

held_lem : (s : Console) (l : Line) → View s l → held l ≡ sub32 s.e s.r
held_lem s l v =
    ap₂ (λ q e. length q + length e) v.queue v.line
    ∙ ap₂ ◌+◌ (length-window s.buf s.r (sub32 s.w s.r)) (length-back s.buf s.e (sub32 s.e s.w))
    ∙ omega (arith, v)

same_end :
    (c : ℕ) (s : Console) (l : Line)
    → View s l
    → ends_line c s ≡ (c == newline || c == control 68 || held l == 128)
same_end c s l v =
    let full : (s.e == add32 s.r 128) ≡ (held l == 128) = ground (arith, v, held_lem s l v) in
    ap (λ b. c == newline || c == control 68 || b) full

add_key-View :
    (c : ℕ) (s : Console) (l : Line) → View s l → sub32 s.e s.r < 128 → View (add_key c s) (add c l)
unfolding add_key
add_key-View c s l v room =
    let t : Line = record l { editing = c % 256 ∷ l.editing } in
    let w = stored-View c s l v room in
    subst (λ b. View (add_key c s) (if b then finish t else t)) (same_end c (stored c s) t w)
      (elim (Bool-cases (ends_line c (stored c s))) [
        | inl ends ↦ rw ends (committed-View (stored c s) t w)
        | inr goes_on ↦ rw goes_on w
      ])

if-View :
    (b : Bool) {s t : Console} {l m : Line}
    → (b ≡ true → View s l)
    → (b ≡ false → View t m)
    → View (if b then s else t) (if b then l else m)
if-View true f g = f refl
if-View false f g = g refl

rub_out_one :
    (s : Console) (l : Line)
    → View s l
    → View
        (if not (s.e == s.w) then rub_out s else s)
        (record l { editing = without_last l.editing })
rub_out_one s l v = elim (Bool-cases (s.e == s.w)) [
  | inl eq ↦
      let none_left = editing_none s l v eq in
      rw eq
        (same_editing s l (without_last l.editing) (ap without_last none_left ∙ sym none_left) v)
  | inr ne ↦ rw ne (rub_out-View s l v ne)
]

key-View : (c : ℕ) (s : Console) (l : Line) → View s l → View (key c s) (type_key c l)
unfolding key
key-View c s l v =
    if-View (c == control 80) (λ _. v)
      (λ _.
        if-View (c == control 85) (λ _. kill_line-View (sub32 s.e s.w) s l v refl)
          (λ _.
            if-View (c == control 72 || c == 127) (λ _. rub_out_one s l v)
              (λ _.
                subst
                  (λ h.
                    View
                      (if not (c == 0) && ltb (sub32 s.e s.r) 128
                        then add_key (translate c) s
                        else s)
                      (if not (c == 0) && ltb h 128 then add (translate c) l else l))
                  (sym (held_lem s l v))
                  (if-View (not (c == 0) && ltb (sub32 s.e s.r) 128)
                    (λ e. add_key-View (translate c) s l v (ground arith)) (λ _. v)))))

abbrev pub lists_processes : List ℕ → Bool
lists_processes [] = false
lists_processes (c ∷ cs) = c == control 80 || lists_processes cs

-- If the console holds a line, then after `consoleintr` it holds the line that the editor makes of the
-- same keys: Control-U takes back the keys of this line, Backspace the last of them, and a newline,
-- a Control-D or the 128th key gives the line to the readers; a key that finds 128 keys held is lost.
-- `procdump` is called if and only if a key is Control-P.
pub consoleintr_refines :
    (keys : List ℕ) (s : Console) (l : Line)
    → View s l
    → View (consoleintr keys s).0 (type_keys keys l)
      × ((consoleintr keys s).1 ≡ lists_processes keys)
unfolding consoleintr
consoleintr_refines [] s l v = (v, refl)
consoleintr_refines (c ∷ cs) s l v =
    let (w, listed) = consoleintr_refines cs (key c s) (type_key c l) (key-View c s l v) in
    (w, ap (λ b. c == control 80 || b) listed)
