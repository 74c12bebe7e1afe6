-- ===== src/Logs/Writer/Steps.antt =====
-- logs/store.go: the goroutines that share the store, as steps that may come in any order.
use hostd.Base.{
  ℕ, zero, suc, Bool, true, Option, none, some, List, [], ◌∷◌, ◌++◌, map, Text, leb, ◌+◌, ◌%◌, ◌==◌,
  length, drop, if◌then◌else◌, ℤ,
}
use hostd.State.{u64}
use hostd.Logs.{Record, batch_size}
use hostd.Logs.Writer.{
  LogStore, Watcher, numbered_line, deliver, enqueue, flush, take_queue, sweep, report_dropped,
  watch, unwatch,
}

abbrev pub beside {ℓ} : {A : Type ℓ} → A → Option (A × List A) → Option (A × List A)
beside x none = none
beside x (some (y, ys)) = some (y, x ∷ ys)

-- One of the lines of the calls that have come so far, and the others.
abbrev pub pick {ℓ} : {A : Type ℓ} → ℕ → List A → Option (A × List A)
pick n [] = none
pick zero (x ∷ xs) = some (x, xs)
pick (suc n) (x ∷ xs) = beside x (pick n xs)

-- `Append` is `number`, `deliver` and `enqueue`, each of one call among those under way. The
-- others are the cases of the writer's `select`, and what readers do.
pub data Op : Type 0 where
  number : ℕ → Record → Op
  deliver_one : ℕ → Op
  enqueue_one : ℕ → Op
  take_one : Bool → Op
  tick : Bool → Op
  sweep_tick : ℕ → Bool → Bool → Bool → Op
  flush_all : Bool → Op
  close_log : Bool → Op
  add_watcher : ℤ → Op
  remove_watcher : ℕ → Op
  receive : ℕ → Op

unfoldable pub number_one : ℕ → Record → LogStore → LogStore
unfolding numbered_line
number_one now r s = record s {
  seq = (s.seq + 1) % u64;
  numbered = s.numbered ++ numbered_line now r s ∷ [];
}

abbrev pub deliver_picked : Option (Record × List Record) → LogStore → LogStore
deliver_picked none s = s
deliver_picked (some (r, rest)) s =
    deliver r (record s { numbered = rest; told = s.told ++ r ∷ [] })

abbrev pub enqueue_picked : Option (Record × List Record) → LogStore → LogStore
enqueue_picked none s = s
enqueue_picked (some (r, rest)) s = enqueue r (record s { told = rest })

-- `case r := <-s.queue`
abbrev pub take_from : Bool → List Record → LogStore → LogStore
take_from refused [] s = s
take_from refused (r ∷ rest) s =
    let taken : LogStore = record s { queue = rest; batch = s.batch ++ r ∷ [] } in
    if leb batch_size (length taken.batch) then flush refused taken else taken

-- `case <-sweep.C`; the flags: the batch, the first and the second statement fail.
unfoldable pub sweep_round : (ℕ → Text) → ℕ → Bool → Bool → Bool → LogStore → LogStore
unfolding flush sweep report_dropped
sweep_round prose now refused no_age no_rows s =
    report_dropped prose now (sweep now no_age no_rows (flush refused s))

-- `case waiter := <-s.flushed`, which is also what a close does first.
unfoldable pub drain : Bool → LogStore → LogStore
unfolding take_queue flush
drain refused s = flush refused (take_queue s)

-- The reader of a channel takes the line that has waited longest.
unfoldable pub received : ℕ → Watcher → Watcher
received id w = if w.id == id then record w { waiting = drop 1 w.waiting } else w

abbrev pub while_open : LogStore → LogStore → LogStore
while_open s s' = if s.closed then s else s'

unfoldable pub step : (ℕ → Text) → Op → LogStore → LogStore
unfolding number_one sweep_round drain watch unwatch received
step prose (number now r) s = number_one now r s
step prose (deliver_one k) s = deliver_picked (pick k s.numbered) s
step prose (enqueue_one k) s = enqueue_picked (pick k s.told) s
step prose (take_one refused) s = while_open s (take_from refused s.queue s)
step prose (tick refused) s = while_open s (flush refused s)
step prose (sweep_tick now refused no_age no_rows) s =
    while_open s (sweep_round prose now refused no_age no_rows s)
step prose (flush_all refused) s = while_open s (drain refused s)
step prose (close_log refused) s = while_open s (record (drain refused s) { closed = true })
step prose (add_watcher size) s = (watch size s).1
step prose (remove_watcher id) s = unwatch id s
step prose (receive id) s = record s { watchers = map (received id) s.watchers }

unfoldable pub run_log : (ℕ → Text) → List Op → LogStore → LogStore
unfolding step
run_log prose [] s = s
run_log prose (op ∷ ops) s = run_log prose ops (step prose op s)
