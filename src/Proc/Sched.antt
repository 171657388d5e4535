-- ===== src/Proc/Sched.antt =====
-- proc.c: `scheduler` and `scheduler_original`. The `for` over the table is a state of its own: the
-- slot `from` that it looks at next. One turn finds a process, hands the CPU to it, and, after the
-- switch back, does the accounting.
pub mod Choice
pub mod Starvation
use tp2_so.Base.{
  zero, ℕ, suc, ◌+◌, Bool, not, Option, none, some, List, [], ◌∷◌, ◌==◌, ◌&&◌, if◌then◌else◌,
  get_elem?, modify, drop, map_list, find_index, opt_map, add32, slt,
}
use tp2_so.Proc.{runnable, Proc, running, is_runnable, is_sleeping, interv, p1_to_2, p2_to_3}

-- `highest_priority_p`: its slot and its priority.
pub record Best : Type 0 where
  pub slot : ℕ
  pub prio : ℕ

abbrev pub better : Proc → ℕ → Best → Best
better p i b =
    if is_runnable p.state && slt b.prio p.priority
    then record { slot = i; prio = p.priority }
    else b

-- The inner loop, over the slots from `i` on.
unfoldable pub highest : List Proc → ℕ → Best → Best
highest [] i b = b
highest (p ∷ ps) i b = highest ps (suc i) (better p i b)

-- The outer loop's search from slot `from`.
unfoldable pub first_runnable : ℕ → List Proc → Option ℕ
first_runnable from ps =
    opt_map (λ i. from + i) (find_index (λ p. is_runnable p.state) (drop from ps))

-- The process that the scheduler switches to; `none` when the `for` ends.
unfoldable pub choose : ℕ → List Proc → Option ℕ
choose from ps = elim (first_runnable from ps) [
  | none ↦ none
  | some i ↦ elim (get_elem? ps i) [
    | none ↦ none
    | some p ↦ some (highest ps 0 (record { slot = i; prio = p.priority })).slot
  ]
]

-- `p->state = RUNNING` up to `swtch`.
abbrev pub start_running : Proc → Proc
start_running p = record p {
  state = running;
  time_slice = interv;
  queue_time = add32 p.queue_time 1;
  rutime = add32 p.rutime 1;
}

-- `queue_time >= limit` of an `int`.
abbrev pub reached : ℕ → ℕ → Bool
reached limit q = not (slt q limit)

unfoldable pub promote : Proc → Proc
promote p =
    if p.priority == 2 && reached p2_to_3 p.queue_time
    then record p { queue_time = 0; priority = 3 }
    else if p.priority == 1 && reached p1_to_2 p.queue_time
    then record p { queue_time = 0; priority = 2 }
    else p

unfoldable pub count_time : ℕ → Proc → Proc
count_time ran p =
    let q = record p { ctime = add32 p.ctime 1 } in
    if q.pid == ran
    then q
    else if is_sleeping q.state
    then record q { stime = add32 q.stime 1 }
    else record q { retime = add32 q.retime 1 }

-- The body of the loop over the table after the switch back.
unfoldable pub account_one : ℕ → Proc → Proc
unfolding promote count_time
account_one ran p = promote (count_time ran p)

-- The pass over the table after the switch back, `ran` being the pid of the process that ran.
unfoldable pub account : ℕ → List Proc → List Proc
account ran = map_list (account_one ran)

-- Up to `swtch`: the slot that gets the CPU and the table, or the end of the `for`.
unfoldable pub dispatch : ℕ → List Proc → Option (ℕ × List Proc)
dispatch from ps = opt_map (λ i. (i, modify ps i start_running)) (choose from ps)

-- After `swtch`: the accounting, and the slot at which the `for` goes on.
unfoldable pub switch_back : ℕ → List Proc → ℕ × List Proc
switch_back i ps = elim (get_elem? ps i) [ none ↦ (suc i, ps) | some p ↦ (suc i, account p.pid ps) ]

-- `scheduler_original`: the first runnable process from the slot on.
unfoldable pub dispatch_original : ℕ → List Proc → Option (ℕ × List Proc)
dispatch_original from ps =
    opt_map (λ i. (i, modify ps i (λ p. record p { state = running }))) (first_runnable from ps)

-- A whole turn in which the process that gets the CPU gives it up by `yield`: the slot to go on
-- from, and the table. A `for` that ends starts again at slot 0.
unfoldable pub turn : ℕ → List Proc → ℕ × List Proc
turn from ps = elim (dispatch from ps) [
  | none ↦ (0, ps)
  | some (i, ps1) ↦ switch_back i (modify ps1 i (λ p. record p { state = runnable }))
]

unfoldable pub turns : ℕ → ℕ × List Proc → ℕ × List Proc
turns zero s = s
turns (suc n) s = turns n (turn s.0 s.1)
