-- ===== src/Logs/Writer/Count/Whole.antt =====
-- logs/store.go: no line is lost without being counted, and no number is given twice, over all the
-- orders in which the goroutines may come.
use hostd.Base.{
  ℕ, ◌+◌, ◌-◌, ◌≡◌, ◌≤◌, ◌<◌, ◌⊎◌, inl, inr, refl, Bool, true, false, List, [], ◌∷◌, ◌++◌, arith,
  length, Text, Bool-cases, leb, if◌then◌else◌,
}
use hostd.State.{u64}
use hostd.Logs.{Record, batch_size}
use hostd.Logs.Writer.{Row, LogStore, flush, take_queue, sweep, report_dropped, watch, unwatch}
use hostd.Logs.Writer.Steps.{
  Op, number, deliver_one, enqueue_one, take_one, tick, sweep_tick, flush_all, close_log,
  add_watcher, remove_watcher, receive, step, run_log, take_from, drain, sweep_round,
}
use hostd.Logs.Writer.Count.{held, everything, pick-IsSplit, count-everything, count-append}
use hostd.Logs.Writer.Count.Moves.{
  IsAccounted, untouched-IsAccounted, in_turn-IsAccounted, flush-IsAccounted,
  take_queue-IsAccounted, number_one-IsAccounted, deliver_picked-IsAccounted,
  enqueue_picked-IsAccounted, sweep-IsAccounted, report_dropped-IsAccounted,
}

-- The rows that a sweep deletes, at one step.
abbrev pub deleted_by : Op → LogStore → ℕ
deleted_by (sweep_tick now refused no_age no_rows) s =
    if s.closed
    then 0
    else length (flush refused s).table - length (sweep now no_age no_rows (flush refused s)).table
deleted_by op s = 0

-- The rows that sweeps delete in a sequence of steps.
abbrev pub deleted_in : (ℕ → Text) → List Op → LogStore → ℕ
deleted_in prose [] s = 0
deleted_in prose (op ∷ ops) s = deleted_by op s + deleted_in prose ops (step prose op s)

-- At most one number is handed out.
abbrev pub Accounted : LogStore → LogStore → ℕ → Type 0
Accounted s s' deleted = (IsAccounted s s' 0 deleted) ⊎ (IsAccounted s s' 1 deleted)

-- What holds no line has changed.
aside-IsAccounted :
    (s s' : LogStore)
    → s'.seq ≡ s.seq
    → s'.dropped ≡ s.dropped
    → ((p : ℕ → Bool) → held p s' ≡ held p s)
    → IsAccounted s s' 0 0
aside-IsAccounted s s' same lost h = record {
  moves = λ k. omega arith;
  within = λ p k. omega (arith, h p);
  exact = λ k l. omega (arith, h everything);
}

take_from-IsAccounted :
    (refused : Bool) (queue : List Record) (s : LogStore)
    → s.queue ≡ queue
    → IsAccounted s (take_from refused queue s) 0 0
take_from-IsAccounted refused [] s e = untouched-IsAccounted s
take_from-IsAccounted refused (r ∷ rest) s e =
    let taken : LogStore = record s { queue = rest; batch = s.batch ++ r ∷ [] } in
    let first : IsAccounted s taken 0 0 =
      aside-IsAccounted s taken refl refl
        λ p. rw e (omega (arith, count-append (λ (r : Record). r.seq) p s.batch (r ∷ []))) in
    elim (Bool-cases (leb batch_size (length taken.batch))) [
      | inl full ↦ rw full (in_turn-IsAccounted first (flush-IsAccounted refused taken))
      | inr room ↦ rw room first
    ]

drain-IsAccounted : (refused : Bool) (s : LogStore) → IsAccounted s (drain refused s) 0 0
unfolding drain
drain-IsAccounted refused s =
    in_turn-IsAccounted (take_queue-IsAccounted s) (flush-IsAccounted refused (take_queue s))

after_kept :
    (a b c : LogStore) (deleted : ℕ)
    → IsAccounted a b 0 (0 + deleted)
    → Accounted b c 0
    → Accounted a c deleted
after_kept a b c deleted f (inl g) =
    let e : 0 + deleted + 0 ≡ deleted = omega arith in inl (rw (← e) (in_turn-IsAccounted f g))
after_kept a b c deleted f (inr g) =
    let e : 0 + deleted + 0 ≡ deleted = omega arith in inr (rw (← e) (in_turn-IsAccounted f g))

sweep_round-Accounted :
    (prose : ℕ → Text) (now : ℕ) (refused no_age no_rows : Bool) (s : LogStore)
    → Accounted s
        (sweep_round prose now refused no_age no_rows s)
        (length (flush refused s).table - length (sweep now no_age no_rows (flush refused s)).table)
unfolding sweep_round
sweep_round-Accounted prose now refused no_age no_rows s =
    let f = flush refused s in
    let w = sweep now no_age no_rows f in
    after_kept s w (report_dropped prose now w) (length f.table - length w.table)
      (in_turn-IsAccounted (flush-IsAccounted refused s) (sweep-IsAccounted now no_age no_rows f))
      (report_dropped-IsAccounted prose now w)

while_open-Accounted :
    (s s' : LogStore) (deleted : ℕ) (closed : Bool)
    → Accounted s s' deleted
    → Accounted s (if closed then s else s') (if closed then 0 else deleted)
while_open-Accounted s s' deleted true h = inl (untouched-IsAccounted s)
while_open-Accounted s s' deleted false h = h

kept_while_open :
    (s s' : LogStore) (closed : Bool)
    → IsAccounted s s' 0 0
    → Accounted s (if closed then s else s') 0
kept_while_open s s' true h = inl (untouched-IsAccounted s)
kept_while_open s s' false h = inl h

pub step-Accounted :
    (prose : ℕ → Text) (op : Op) (s : LogStore) → Accounted s (step prose op s) (deleted_by op s)
unfolding step unwatch watch
step-Accounted prose (number now r) s = inr (number_one-IsAccounted now r s)
step-Accounted prose (deliver_one k) s =
    inl (deliver_picked-IsAccounted _ s λ p. pick-IsSplit (λ r. r.seq) p k s.numbered)
step-Accounted prose (enqueue_one k) s =
    inl (enqueue_picked-IsAccounted _ s λ p. pick-IsSplit (λ r. r.seq) p k s.told)
step-Accounted prose (take_one refused) s =
    kept_while_open s _ s.closed (take_from-IsAccounted refused s.queue s refl)
step-Accounted prose (tick refused) s = kept_while_open s _ s.closed (flush-IsAccounted refused s)
step-Accounted prose (sweep_tick now refused no_age no_rows) s =
    while_open-Accounted s _ _ s.closed (sweep_round-Accounted prose now refused no_age no_rows s)
step-Accounted prose (flush_all refused) s =
    kept_while_open s _ s.closed (drain-IsAccounted refused s)
step-Accounted prose (close_log refused) s = kept_while_open s _ s.closed (
    in_turn-IsAccounted (drain-IsAccounted refused s)
      (aside-IsAccounted (drain refused s) _ refl refl λ p. refl))
step-Accounted prose (add_watcher size) s = inl (aside-IsAccounted s _ refl refl λ p. refl)
step-Accounted prose (remove_watcher id) s = inl (aside-IsAccounted s _ refl refl λ p. refl)
step-Accounted prose (receive id) s = inl (aside-IsAccounted s _ refl refl λ p. refl)

-- The lines on their way, and those in the table.
abbrev pub line_count : LogStore → ℕ
line_count s = length s.numbered + length s.told + length s.queue + length s.batch + length s.table

held-everything : (s : LogStore) → held everything s ≡ line_count s
held-everything s = omega (
  arith,
  count-everything (λ (r : Record). r.seq) s.numbered,
  count-everything (λ (r : Record). r.seq) s.told,
  count-everything (λ (r : Record). r.seq) s.queue,
  count-everything (λ (r : Record). r.seq) s.batch,
  count-everything (λ (r : Row). r.seq) s.table,
)

step-counts :
    (prose : ℕ → Text) (op : Op) (s : LogStore)
    → s.seq + 1 < u64
    → line_count s + s.dropped + 1 < u64
    → (line_count (step prose op s) + (step prose op s).dropped + deleted_by op s + s.seq
        ≡ line_count s + s.dropped + (step prose op s).seq)
      × (s.seq ≤ (step prose op s).seq)
      × ((step prose op s).seq ≤ s.seq + 1)
step-counts prose op s room below =
    let before = held-everything s in
    let after = held-everything (step prose op s) in
    elim (step-Accounted prose op s) [
      | inl a ↦
          let m = a.moves (omega arith) in
          let x = a.exact (omega arith) (omega arith) in (omega arith, omega arith, omega arith)
      | inr a ↦
          let m = a.moves (omega arith) in
          let x = a.exact (omega arith) (omega arith) in (omega arith, omega arith, omega arith)
    ]

-- After any steps, in any order and whatever SQLite refuses, while the counters are below 2^64, the
-- lines that are held, those that were counted as lost and the rows that sweeps deleted are
-- together the lines at first and the numbers that were handed out since.
pub run_log-counts :
    (prose : ℕ → Text) (ops : List Op) (s : LogStore)
    → s.seq + length ops < u64
    → line_count s + s.dropped + length ops < u64
    → line_count (run_log prose ops s)
        + (run_log prose ops s).dropped
        + deleted_in prose ops s
        + s.seq
      ≡ line_count s + s.dropped + (run_log prose ops s).seq
unfolding run_log
run_log-counts prose [] s room below = omega arith
run_log-counts prose (op ∷ ops) s room below =
    let (exact, up, once) = step-counts prose op s (omega arith) (omega arith) in
    omega (arith, run_log-counts prose ops (step prose op s) (omega arith) (omega arith))
