-- ===== src/Log/Space.antt =====
-- The space of the log of log.c, in runs of operations between `begin_op` and `end_op`. `log_write` tests
-- the space before it takes the lock, so other operations may come between.
use tp2_so.Base.{
  ℕ, suc, ◌+◌, ◌≤◌, ◌≡◌, Bool, true, some, List, [], ◌∷◌, ◌++◌, arith, length, length-append,
}
use tp2_so.Log.{Log, begin_op, end_op, end_commit, absorb, may_log, record_block}
use tp2_so.Log.Ops.{
  Op, outside, tested, total, total-append, total-Small, Small, Small-append, split,
}

-- The log, and the operations that are under way.
pub record Ops : Type 0 where
  pub log : Log
  pub left : List Op

pub data OpStep (s : Ops) : Ops → Type 0 where
  begins :
      (l : Log)
      → begin_op s.log ≡ some l
      → OpStep s (record { log = l; left = outside 10 ∷ s.left })
  tests :
      (before after : List Op) (n b : ℕ)
      → s.left ≡ before ++ (outside (suc n) ∷ after)
      → may_log s.log ≡ true
      → OpStep s (record { log = s.log; left = before ++ (tested n b ∷ after) })
  records :
      (before after : List Op) (n b : ℕ)
      → s.left ≡ before ++ (tested n b ∷ after)
      → OpStep s (record { log = record_block b s.log; left = before ++ (outside n ∷ after) })
  ends :
      (before after : List Op) (n : ℕ) (c : Bool) (l : Log)
      → s.left ≡ before ++ (outside n ∷ after)
      → end_op s.log ≡ some (c, l)
      → OpStep s (record { log = l; left = before ++ after })
  commits : s.log.committing ≡ true → OpStep s (record { log = end_commit s.log; left = s.left })

pub data OpSteps (s : Ops) : Ops → Type 0 where
  here : OpSteps s s
  next : {t u : Ops} → OpSteps s t → OpStep t u → OpSteps s u

pub record Reserved (s : Ops) : Type 0 where
  pub space : length s.log.lh + total s.left ≤ 30
  pub bounded : Small s.left
  pub counted : s.log.outstanding ≡ length s.left
  pub few : length s.left ≤ 3
  pub alone : s.log.committing ≡ true → length s.left ≡ 0

length-absorb : (b : ℕ) (cs : List ℕ) → length (absorb b cs) ≤ length cs + 1
unfolding absorb
length-absorb b [] = omega arith
length-absorb b (c ∷ cs) = ground (arith, length-absorb b cs)

begins-Reserved :
    (s : Ops) (l : Log)
    → begin_op s.log ≡ some l
    → Reserved s
    → Reserved (record { log = l; left = outside 10 ∷ s.left })
unfolding begin_op
begins-Reserved s l e r =
    let most = total-Small s.left r.bounded in
    record {
      space = ground arith;
      bounded = (omega arith, r.bounded);
      counted = ground arith;
      few = ground arith;
      alone = λ c. ground arith;
    }

tests-Reserved :
    (s : Ops) (before after : List Op) (n b : ℕ)
    → s.left ≡ before ++ (outside (suc n) ∷ after)
    → Reserved s
    → Reserved (record { log = s.log; left = before ++ (tested n b ∷ after) })
tests-Reserved s before after n b e r =
    let sp = split s.left before after (outside (suc n)) r.bounded e in
    let sizes = total-append before (tested n b ∷ after) in
    let lengths = length-append before (tested n b ∷ after) in
    record {
      space = omega (arith, r.space, sp.totals, sizes);
      bounded =
          Small-append before (tested n b ∷ after) sp.small_before
            (sp.small_after.0, sp.small_after.1);
      counted = omega (arith, r.counted, sp.lengths, lengths);
      few = omega (arith, r.few, sp.lengths, lengths);
      alone = λ c. absurd (omega (arith, r.alone c, sp.lengths));
    }

records-Reserved :
    (s : Ops) (before after : List Op) (n b : ℕ)
    → s.left ≡ before ++ (tested n b ∷ after)
    → Reserved s
    → Reserved (record { log = record_block b s.log; left = before ++ (outside n ∷ after) })
unfolding record_block
records-Reserved s before after n b e r =
    let sp = split s.left before after (tested n b) r.bounded e in
    let grown = length-absorb b s.log.lh in
    let sizes = total-append before (outside n ∷ after) in
    let lengths = length-append before (outside n ∷ after) in
    record {
      space = omega (arith, r.space, sp.totals, sizes, grown);
      bounded =
          Small-append before (outside n ∷ after) sp.small_before
            (omega (arith, sp.small_after.0), sp.small_after.1);
      counted = omega (arith, r.counted, sp.lengths, lengths);
      few = omega (arith, r.few, sp.lengths, lengths);
      alone = λ c. absurd (omega (arith, r.alone c, sp.lengths));
    }

ends-Reserved :
    (s : Ops) (before after : List Op) (n : ℕ) (c : Bool) (l : Log)
    → s.left ≡ before ++ (outside n ∷ after)
    → end_op s.log ≡ some (c, l)
    → Reserved s
    → Reserved (record { log = l; left = before ++ after })
unfolding end_op
ends-Reserved s before after n c l e w r =
    let sp = split s.left before after (outside n) r.bounded e in
    let sizes = total-append before after in
    let lengths = length-append before after in
    record {
      space = ground arith;
      bounded = Small-append before after sp.small_before sp.small_after.1;
      counted = ground arith;
      few = ground arith;
      alone = λ c. ground arith;
    }

OpStep-Reserved : {s t : Ops} → OpStep s t → Reserved s → Reserved t
unfolding end_commit
OpStep-Reserved {s} (begins l e) r = begins-Reserved s l e r
OpStep-Reserved {s} (tests before after n b e m) r = tests-Reserved s before after n b e r
OpStep-Reserved {s} (records before after n b e) r = records-Reserved s before after n b e r
OpStep-Reserved {s} (ends before after n c l e w) r = ends-Reserved s before after n c l e w r
OpStep-Reserved {s} (commits c) r = record {
  space = omega (arith, r.space);
  bounded = r.bounded;
  counted = r.counted;
  few = r.few;
  alone = λ d. r.alone c;
}

pub OpSteps-Reserved : {s t : Ops} → OpSteps s t → Reserved s → Reserved t
OpSteps-Reserved here r = r
OpSteps-Reserved (next us u) r = OpStep-Reserved u (OpSteps-Reserved us r)
