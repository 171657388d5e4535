-- ===== src/Log/Full.antt =====
-- log.c: a log of 30 blocks, one of them the header, and calls that use all that `begin_op` admits.
use tp2_so.Base.{
  ℕ, zero, suc, ◌+◌, ◌≤◌, ◌<◌, ◌≡◌, refl, ap, subst, true, false, none, List, [], ◌∷◌, ◌++◌, arith,
  length, ◌==◌,
}
use tp2_so.Log.{Log, begin_op, absorb, may_log, record_block, log_write}
use tp2_so.Log.Ops.{Op, outside}
use tp2_so.Log.Space.{Ops, begins, tests, records, OpSteps, here, next}

-- The blocks `b`, `b + 1` and so on, `n` of them.
abbrev pub blocks_from : ℕ → ℕ → List ℕ
blocks_from b zero = []
blocks_from b (suc n) = b ∷ blocks_from (b + 1) n

-- A log of the size that mkfs makes: 30 blocks, the header's among them.
abbrev pub log_of : ℕ → List ℕ → Log
log_of outstanding lh = record { size = 30; outstanding = outstanding; committing = false; lh = lh }

length-blocks_from : (b n : ℕ) → length (blocks_from b n) ≡ n
length-blocks_from b zero = refl
length-blocks_from b (suc n) = ap suc (length-blocks_from (b + 1) n)

absorb_next : (b k c : ℕ) → c ≡ b + k → absorb c (blocks_from b k) ≡ blocks_from b (suc k)
unfolding absorb
absorb_next b zero c e = ap (λ x. x ∷ []) (let z : c ≡ b = omega arith in z)
absorb_next b (suc k) c e =
    let other : (b == c) ≡ false = ground arith in
    rw other (ap (λ l. b ∷ l) (absorb_next (b + 1) k c (omega arith)))

may_log_more : (b k : ℕ) → k < 29 → may_log (log_of 3 (blocks_from b k)) ≡ true
unfolding may_log
may_log_more b k lt = ground (arith, length-blocks_from b k)

-- The operations between `before` and `after` write the next `n` blocks.
writes_on :
    (s : Ops) (before after : List Op) (b n k q m : ℕ)
    → q ≡ n + m
    → k + n ≤ 29
    → OpSteps s (record { log = log_of 3 (blocks_from b k); left = before ++ (outside q ∷ after) })
    → OpSteps s
        (record { log = log_of 3 (blocks_from b (k + n)); left = before ++ (outside m ∷ after) })
unfolding record_block
writes_on s before after b zero k q m e h us =
    let same : k ≡ k + 0 = omega arith in
    let none_used : q ≡ m = omega arith in
    subst
      (λ j.
        OpSteps s
          (record { log = log_of 3 (blocks_from b j); left = before ++ (outside m ∷ after) }))
      same
      (subst
        (λ j.
          OpSteps s
            (record { log = log_of 3 (blocks_from b k); left = before ++ (outside j ∷ after) }))
        none_used us)
writes_on s before after b (suc n) k q m e h us =
    let one_used : q ≡ suc (n + m) = omega arith in
    let us1 =
      subst
        (λ j.
          OpSteps s
            (record { log = log_of 3 (blocks_from b k); left = before ++ (outside j ∷ after) }))
        one_used us in
    let us2 = next us1 (tests before after (n + m) (b + k) refl (may_log_more b k (omega arith))) in
    let us3 = next us2 (records before after (n + m) (b + k) refl) in
    let us4 =
      subst
        (λ l. OpSteps s (record { log = log_of 3 l; left = before ++ (outside (n + m) ∷ after) }))
        (absorb_next b k (b + k) refl) us3 in
    let count : suc k + n ≡ k + suc n = omega arith in
    subst
      (λ j.
        OpSteps s
          (record { log = log_of 3 (blocks_from b j); left = before ++ (outside m ∷ after) }))
      count (writes_on s before after b n (suc k) (n + m) m refl (omega arith) us4)

abbrev pub idle_log : Ops
idle_log = record { log = log_of 0 []; left = [] }

three_begun :
    OpSteps idle_log
      (record { log = log_of 3 []; left = outside 10 ∷ outside 10 ∷ outside 10 ∷ [] })
unfolding begin_op
three_begun =
    next (next (next here (begins (log_of 1 []) refl)) (begins (log_of 2 []) refl))
      (begins (log_of 3 []) refl)

-- Two of three calls have written 10 blocks each, and the third `n`.
last_call :
    (b n m : ℕ)
    → 10 ≡ n + m
    → n ≤ 9
    → OpSteps idle_log (record {
      log = log_of 3 (blocks_from b (20 + n));
      left = outside 0 ∷ outside 0 ∷ outside m ∷ [];
    })
last_call b n m e h =
    writes_on idle_log (outside 0 ∷ outside 0 ∷ []) [] b n 20 10 m e (omega arith) (
      writes_on idle_log (outside 0 ∷ []) (outside 10 ∷ []) b 10 10 10 0 refl (omega arith) (
        writes_on idle_log [] (outside 10 ∷ outside 10 ∷ []) b 10 0 10 0 refl (omega arith)
          three_begun))

-- For any block `b`, three calls that `begin_op` admits to an idle log of 30 blocks can get to a state in
-- which the transaction has the 29 blocks from `b` on and the third call, which has written 9 of its 10
-- blocks, panics at any `log_write`.
pub log_write_panics :
    (b : ℕ)
    → (t : Ops) × OpSteps idle_log t
      × (t.left ≡ outside 0 ∷ outside 0 ∷ outside 1 ∷ [])
      × (t.log.lh ≡ blocks_from b 29)
      × ((c : ℕ) → log_write c t.log ≡ none)
unfolding log_write may_log
log_write_panics b = (
  record { log = log_of 3 (blocks_from b 29); left = outside 0 ∷ outside 0 ∷ outside 1 ∷ [] },
  last_call b 9 1 refl (omega arith),
  refl,
  refl,
  λ c. refl,
)
