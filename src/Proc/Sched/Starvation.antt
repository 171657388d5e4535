-- ===== src/Proc/Sched/Starvation.antt =====
-- What turns of the scheduler of proc.c do to a process that waits behind another.
use tp2_so.Base.{
  ◌∙◌, ap, ◌∙◌, ap, ℕ, zero, suc, ◌≡◌, inl, inr, ◌==◌, true, false, none, some, List, get_elem?,
  modify, get_elem?-map, get_elem?-modify, slt, arith, opt_map, Option-cases, if◌then◌else◌,
}
use tp2_so.Proc.{Proc, runnable}
use tp2_so.Proc.Sched.{
  account, account_one, choose, dispatch, switch_back, turn, turns, start_running,
}
use tp2_so.Proc.Sched.Choice.{IsBest, choose-IsBest}

-- The process after `start_running` and `yield`, as the pass finds it.
abbrev pub ran_and_yielded : Proc → Proc
ran_and_yielded p = record (start_running p) { state = runnable }

abbrev yielded : ℕ → List Proc → List Proc
yielded i ps = modify (modify ps i start_running) i (λ p. record p { state = runnable })

get_elem?-yielded :
    (i j : ℕ) (ps : List Proc) (p : Proc)
    → get_elem? ps i ≡ some p
    → get_elem? (yielded i ps) j ≡ (if i == j then some (ran_and_yielded p) else get_elem? ps j)
get_elem?-yielded i j ps p g = ground (
  arith,
  get_elem?-modify (modify ps i start_running) i j (λ q. record q { state = runnable }),
  get_elem?-modify ps i j start_running,
)

turn-eq :
    (from : ℕ) (ps : List Proc) (i : ℕ) (p : Proc)
    → choose from ps ≡ some i
    → get_elem? ps i ≡ some p
    → turn from ps ≡ (suc i, account p.pid (yielded i ps))
unfolding turn dispatch switch_back
turn-eq from ps i p c g = ground (arith, get_elem?-yielded i i ps p)

-- A turn, slot by slot: the process that ran has been charged, and the pass has gone over all.
pub turn_at :
    (from : ℕ) (ps : List Proc) (i : ℕ) (p : Proc) (j : ℕ)
    → choose from ps ≡ some i
    → get_elem? ps i ≡ some p
    → get_elem? (turn from ps).1 j
      ≡ opt_map (account_one p.pid) (if i == j then some (ran_and_yielded p) else get_elem? ps j)
unfolding account
turn_at from ps i p j c g = rw (turn-eq from ps i p c g) (
    get_elem?-map (account_one p.pid) (yielded i ps) j
    ∙ ap (opt_map (account_one p.pid)) (get_elem?-yielded i j ps p g))

-- The process `p` in slot `l` waits behind a runnable one of higher priority, and its `queue_time`
-- is below the limit for its priority.
pub record Behind (l a q r : ℕ) (ps : List Proc) : Type 0 where
  pub low : Proc
  pub at_l : get_elem? ps l ≡ some low
  pub low_ready : low.state ≡ runnable
  pub prio : low.priority ≡ a
  pub queue : low.queue_time ≡ q
  pub ran : low.rutime ≡ r
  pub h : ℕ
  pub high : Proc
  pub at_h : get_elem? ps h ≡ some high
  pub high_ready : high.state ≡ runnable
  pub above : slt a high.priority ≡ true

-- No promotion is due: `queue_time` is short of the limit of the priority.
abbrev pub NotDue : ℕ → ℕ → Type 0
NotDue a q = ((a ≡ 2 → slt q 100 ≡ true) × (a ≡ 1 → slt q 200 ≡ true))

-- The pass leaves a process that is not due its priority, `queue_time` and `rutime`.
account_one-keeps :
    (pid : ℕ) (p : Proc)
    → NotDue p.priority p.queue_time
    → let q = account_one pid p in
      (q.priority ≡ p.priority)
      × (q.queue_time ≡ p.queue_time)
      × (q.rutime ≡ p.rutime)
      × (q.state ≡ p.state)
unfolding account_one
account_one-keeps pid p d = ground (arith, d.0, d.1)

-- The pass never lowers a priority, and leaves the state.
account_one-raises :
    (pid a : ℕ) (p : Proc)
    → slt a p.priority ≡ true
    → let q = account_one pid p in (slt a q.priority ≡ true) × (q.state ≡ p.state)
unfolding account_one
account_one-raises pid a p h = ground arith

turn-Behind :
    {l a q r : ℕ} (from : ℕ) (ps : List Proc)
    → NotDue a q
    → Behind l a q r ps
    → (i : ℕ) (p : Proc) → choose from ps ≡ some i
    → IsBest ps i p
    → Behind l a q r (turn from ps).1
turn-Behind {l} {a} {q} {r} from ps d b i p c best = record {
  low = account_one p.pid b.low;
  at_l = turn_at from ps i p l c best.there ∙ ap (opt_map (account_one p.pid)) at_low;
  low_ready = kept.3 ∙ b.low_ready;
  prio = kept.0 ∙ b.prio;
  queue = kept.1 ∙ b.queue;
  ran = kept.2 ∙ b.ran;
  h = b.h;
  high = account_one p.pid high;
  at_h = turn_at from ps i p b.h c best.there ∙ ap (opt_map (account_one p.pid)) at_high;
  high_ready = raised.1 ∙ ready;
  above = raised.0;
}
  where
    not_low : (i == l) ≡ false
    not_low = ground (arith, best.top b.h b.high b.at_h, b.at_l, b.above)

    at_low : (if i == l then some (ran_and_yielded p) else get_elem? ps l) ≡ some b.low
    at_low = rw not_low b.at_l

    kept :
        let q' = account_one p.pid b.low in
        (q'.priority ≡ b.low.priority)
        × (q'.queue_time ≡ b.low.queue_time)
        × (q'.rutime ≡ b.low.rutime)
        × (q'.state ≡ b.low.state)
    kept = account_one-keeps p.pid b.low (rw (b.prio, b.queue) d)

    high : Proc
    high = if i == b.h then ran_and_yielded b.high else b.high

    at_high : (if i == b.h then some (ran_and_yielded p) else get_elem? ps b.h) ≡ some high
    at_high = ground (arith, best.there, b.at_h)

    ready : high.state ≡ runnable
    ready = ground arith

    raised : let q' = account_one p.pid high in (slt a q'.priority ≡ true) × (q'.state ≡ high.state)
    raised = account_one-raises p.pid a high (ground arith)

turn-idle : (from : ℕ) (ps : List Proc) → choose from ps ≡ none → turn from ps ≡ (0, ps)
unfolding turn dispatch
turn-idle from ps e = ground arith

turn-Behind_all :
    {l a q r : ℕ} (from : ℕ) (ps : List Proc)
    → NotDue a q
    → Behind l a q r ps
    → Behind l a q r (turn from ps).1
turn-Behind_all {l} {a} {q} {r} from ps d b = elim (Option-cases (choose from ps)) [
  | inl n ↦ rw (turn-idle from ps n) b
  | inr (i, e) ↦ let (p, best) = choose-IsBest from ps i e in turn-Behind from ps d b i p e best
]

-- Waiting never helps: as long as the processes that run give up the CPU by `yield`, a runnable
-- process behind a runnable one of higher priority, with its `queue_time` short of the limit, is not
-- put on the CPU in any number of turns. Its `rutime`, which counts the times that it is, its priority
-- and its `queue_time` stay what they were, and a process of higher priority stays runnable.
pub turns_starve :
    {l a q r : ℕ} (n from : ℕ) (ps : List Proc)
    → NotDue a q
    → Behind l a q r ps
    → Behind l a q r (turns n (from, ps)).1
unfolding turns
turns_starve zero from ps d b = b
turns_starve (suc n) from ps d b =
    turns_starve n (turn from ps).0 (turn from ps).1 d (turn-Behind_all from ps d b)
