-- ===== src/Console/Ring.antt =====
-- The ring of console.c as lists.
use tp2_so.Base.{
  ℕ, zero, suc, ◌+◌, ◌^◌, ◌%◌, ◌<◌, ◌≡◌, refl, sym, ◌∙◌, ap, ap₂, List, [], ◌∷◌, ◌++◌, arith,
  get_or, set, get_or-set, length, add32, sub32, append-nil, append_assoc,
}

-- The `n` keys from counter `r` on, oldest first.
abbrev pub window : List ℕ → ℕ → ℕ → List ℕ
window bs r zero = []
window bs r (suc n) = get_or bs (r % 128) 0 ∷ window bs (add32 r 1) n

-- The `n` keys before counter `e`, newest first.
abbrev pub back : List ℕ → ℕ → ℕ → List ℕ
back bs e zero = []
back bs e (suc n) = get_or bs (sub32 e 1 % 128) 0 ∷ back bs (sub32 e 1) n

-- Keys given newest first, in the order they were typed.
abbrev pub in_order : List ℕ → List ℕ
in_order [] = []
in_order (c ∷ cs) = in_order cs ++ (c ∷ [])

-- A write `d` places behind the window leaves it.
pub window-set :
    (bs : List ℕ) (x r n d i : ℕ)
    → length bs ≡ 128
    → r < 2 ^ 32
    → n + d < 128
    → i ≡ (r + n + d) % 2 ^ 32 % 128
    → window (set bs i x) r n ≡ window bs r n
window-set bs x r zero d i s hr hn e = refl
window-set bs x r (suc n) d i s hr hn e =
    ap₂ ◌∷◌ (get_or-set bs i (r % 128) x 0 (omega arith) ∙ ground arith)
      (window-set bs x (add32 r 1) n d i s (omega arith) (omega arith) (omega arith))

-- A write at `e` or beyond leaves the keys before `e`.
pub back-set :
    (bs : List ℕ) (x e n d i : ℕ)
    → length bs ≡ 128
    → e < 2 ^ 32
    → n + d < 128
    → i ≡ (e + d) % 2 ^ 32 % 128
    → back (set bs i x) e n ≡ back bs e n
back-set bs x e zero d i s he hn q = refl
back-set bs x e (suc n) d i s he hn q =
    ap₂ ◌∷◌ (get_or-set bs i (sub32 e 1 % 128) x 0 (omega arith) ∙ ground arith)
      (back-set bs x (sub32 e 1) n (suc d) i s (omega arith) (omega arith) (omega arith))

pub window-suc :
    (bs : List ℕ) (r n : ℕ)
    → r < 2 ^ 32
    → window bs r (suc n) ≡ window bs r n ++ (get_or bs (add32 r n % 128) 0 ∷ [])
window-suc bs r zero hr =
    ap (λ i. get_or bs (i % 128) 0 ∷ []) (let z : r ≡ add32 r 0 = omega arith in z)
window-suc bs r (suc n) hr =
    ap (λ l. get_or bs (r % 128) 0 ∷ l)
      (window-suc bs (add32 r 1) n (omega arith)
        ∙ ap (λ i. window bs (add32 r 1) n ++ (get_or bs (i % 128) 0 ∷ []))
            (let z : add32 (add32 r 1) n ≡ add32 r (suc n) = omega arith in z))

-- The window up to `e` is the window up to `w` and the keys after `w`.
pub window-back :
    (bs : List ℕ) (r e n m : ℕ)
    → r < 2 ^ 32
    → e ≡ add32 r (n + m)
    → window bs r (n + m) ≡ window bs r n ++ in_order (back bs e m)
window-back bs r e n zero hr q =
    ap (window bs r) (let z : n + 0 ≡ n = omega arith in z) ∙ sym (append-nil (window bs r n))
window-back bs r e n (suc m) hr q =
    let last : add32 r (n + m) ≡ sub32 e 1 = omega arith in
    ap (window bs r) (let z : n + suc m ≡ suc (n + m) = omega arith in z)
    ∙ window-suc bs r (n + m) hr
    ∙ ap₂ (λ l i. l ++ (get_or bs (i % 128) 0 ∷ []))
        (window-back bs r (sub32 e 1) n m hr (sym last)) last
    ∙ append_assoc (window bs r n) (in_order (back bs (sub32 e 1) m))
        (get_or bs (sub32 e 1 % 128) 0 ∷ [])

pub length-window : (bs : List ℕ) (r n : ℕ) → length (window bs r n) ≡ n
length-window bs r zero = refl
length-window bs r (suc n) = ap suc (length-window bs (add32 r 1) n)

pub length-back : (bs : List ℕ) (e n : ℕ) → length (back bs e n) ≡ n
length-back bs e zero = refl
length-back bs e (suc n) = ap suc (length-back bs (sub32 e 1) n)
