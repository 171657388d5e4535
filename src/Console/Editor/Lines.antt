-- ===== src/Console/Editor/Lines.antt =====
-- console.c: what a reader gets of a line that was typed.
use tp2_so.Base.{
  ℕ, zero, suc, ◌+◌, ◌-◌, ◌%◌, ◌<◌, ◌≡◌, ◌≢◌, refl, ◌∙◌, ap, subst, Bool, true, false, not, List,
  [], ◌∷◌, ◌++◌, ◌==◌, ◌&&◌, ◌||◌, ltb, length, arith, append_assoc,
}
use tp2_so.Console.{Console, returns, consoleintr, consoleread}
use tp2_so.Console.Ring.{in_order}
use tp2_so.Console.Editor.{View, and_read, type_key, type_keys, take_line}
use tp2_so.Console.Editor.Typing.{consoleintr_refines}
use tp2_so.Console.Editor.Reading.{consoleread_refines}

-- A byte that neither edits nor ends a line.
pub record IsPlain (c : ℕ) : Type 0 where
  pub byte : c < 256
  pub not_null : c ≢ 0
  pub not_end : c ≢ 4
  pub not_backspace : (c ≢ 8) × (c ≢ 127)
  pub not_newline : (c ≢ 10) × (c ≢ 13)
  pub not_listing : c ≢ 16
  pub not_kill : c ≢ 21

pub data Plain : List ℕ → Type 0 where
  empty : Plain []
  more : (c : ℕ) (cs : List ℕ) → IsPlain c → Plain cs → Plain (c ∷ cs)

type_plain :
    (c : ℕ) (e : List ℕ)
    → IsPlain c
    → suc (length e) < 128
    → type_key c (record { ready = []; editing = e }) ≡ record { ready = []; editing = c ∷ e }
type_plain c e p room =
    let (nb, nd) = p.not_backspace in
    let (nl, nr) = p.not_newline in
    let k1 : (c == 16) ≡ false = ground (arith, p) in
    let k2 : (c == 21) ≡ false = ground (arith, p) in
    let k3 : (c == 8 || c == 127) ≡ false = ground arith in
    let k4 : (not (c == 0) && ltb (0 + length e) 128) ≡ true = ground (arith, p) in
    let k5 : (c == 13) ≡ false = ground arith in
    let k6 : (c == 10 || c == 4 || 0 + suc (length e) == 128) ≡ false = ground (arith, p) in
    let k7 : c % 256 ≡ c = omega (arith, p) in rw (k1, k2, k3) (rw k4 (rw k5 (rw (k6, k7) refl)))

type_newline :
    (e : List ℕ)
    → length e < 128
    → type_key 10 (record { ready = []; editing = e })
      ≡ record { ready = in_order e ++ (10 ∷ []); editing = [] }
type_newline e room = let k : ltb (0 + length e) 128 ≡ true = ground arith in rw k refl

type_line :
    (cs e : List ℕ)
    → Plain cs
    → length e + length cs < 128
    → type_keys (cs ++ (10 ∷ [])) (record { ready = []; editing = e })
      ≡ record { ready = in_order e ++ (cs ++ (10 ∷ [])); editing = [] }
type_line [] e p room = type_newline e (omega arith)
type_line (c ∷ cs) e (more _ _ q p) room =
    ap (type_keys (cs ++ (10 ∷ []))) (type_plain c e q (omega arith))
    ∙ type_line cs (c ∷ e) p (omega arith)
    ∙ ap (λ r. record { ready = r; editing = [] })
        (append_assoc (in_order e) (c ∷ []) (cs ++ (10 ∷ [])))

take_plain :
    (killed : Bool) (target n : ℕ) (cs : List ℕ)
    → Plain cs
    → length cs < n
    → take_line killed target n (cs ++ (10 ∷ []))
      ≡ record { queue = []; dst = cs ++ (10 ∷ []); left = n - suc (length cs); why = returns }
take_plain killed target zero cs p h = absurd (omega arith)
take_plain killed target (suc n) [] p h =
    ap (λ k. record { queue = []; dst = 10 ∷ []; left = k; why = returns })
      (let z : n ≡ suc n - 1 = omega arith in z)
take_plain killed target (suc n) (c ∷ cs) (more _ _ q p) h =
    let (nl, nr) = q.not_newline in
    let k1 : (c == 4) ≡ false = ground (arith, q) in
    let k2 : (c == 10) ≡ false = ground (arith, q) in
    let k3 : n - suc (length cs) ≡ suc n - suc (suc (length cs)) = omega arith in
    rw (k1, k2)
      (ap (and_read c) (take_plain killed target n cs p (omega arith))
        ∙ ap (λ k. record { queue = []; dst = c ∷ (cs ++ (10 ∷ [])); left = k; why = returns }) k3)

-- At a console with no key to read or edit, type up to 127 plain bytes and a newline. A read of at
-- least that many bytes then returns the line with its newline and leaves no key behind.
pub typed-read :
    (killed : Bool) (n : ℕ) (cs : List ℕ) (s : Console)
    → View s (record { ready = []; editing = [] })
    → Plain cs
    → length cs < 128
    → length cs < n
    → let stop = consoleread killed n n (consoleintr (cs ++ (10 ∷ [])) s).0 in
      (stop.dst ≡ cs ++ (10 ∷ []))
      × (stop.left ≡ n - suc (length cs))
      × (stop.why ≡ returns)
      × View stop.console (record { ready = []; editing = [] })
typed-read killed n cs s v p short fits =
    let t = (consoleintr (cs ++ (10 ∷ [])) s).0 in
    let typed = type_line cs [] p (omega arith) in
    let view = subst (View t) typed (consoleintr_refines (cs ++ (10 ∷ [])) s _ v).0 in
    let same = consoleread_refines killed n n t _ view in
    let taken = take_plain killed n n cs p fits in
    (
      same.dst ∙ ap (λ t. t.dst) taken,
      same.left ∙ ap (λ t. t.left) taken,
      same.why ∙ ap (λ t. t.why) taken,
      subst (λ q. View (consoleread killed n n t).console (record { ready = q; editing = [] }))
          (ap (λ t. t.queue) taken) same.view,
    )
