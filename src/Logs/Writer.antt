-- ===== src/Logs/Writer.antt =====
-- logs/store.go: the lines on their way to the disk.
--
-- `Append` numbers a line, delivers it to the watchers and puts it into the queue, and calls of
-- several goroutines may interleave between these; `numbered` and `told` hold the lines of calls
-- that have come so far. The writer goroutine moves lines from the queue to its batch and from
-- there to the table, one transaction for a batch. What SQLite refuses is an argument; a table is
-- a list of rows, and `seq` is its primary key.
pub mod Steps
pub mod Count
pub mod Ceiling
use hostd.Base.{
  ℕ, zero, suc, ◌+◌, ◌-◌, ◌/◌, ◌%◌, Bool, true, false, not, Option, none, some, List, [], ◌∷◌, ◌++◌,
  map, Text, codes, ltb, ◌==◌, length, any, keep_if, if◌then◌else◌, ℤ, pos_part, is_positive, sort,
}
use hostd.Strings.{is_empty}
use hostd.State.{u64}
use hostd.Logs.{
  Record, Options, with_defaults, batch_size, queue_depth, stream_event, event_log_dropped,
}

-- A row of `entries`; the time is in milliseconds.
pub record Row : Type 0 where
  pub seq : ℕ
  pub time_ms : ℕ
  pub service : Text
  pub stream : Text
  pub kind : Text
  pub run : Text
  pub text : Text

-- What a row keeps of a line, `r.Time.UnixMilli()`.
unfoldable pub row_of : Record → Row
row_of r = record {
  seq = r.seq;
  time_ms = r.time / 1000000;
  service = r.service;
  stream = r.stream;
  kind = r.kind;
  run = r.run;
  text = r.text;
}

-- A channel of `Watch` with the lines that wait in it.
pub record Watcher : Type 0 where
  pub id : ℕ
  pub capacity : ℕ
  pub waiting : List Record

pub record LogStore : Type 0 where
  pub opts : Options
  pub seq : ℕ
  pub numbered : List Record
  pub told : List Record
  pub queue : List Record
  pub batch : List Record
  pub table : List Row
  pub dropped : ℕ
  pub reported : ℕ
  pub watchers : List Watcher
  pub next_id : ℕ
  pub closed : Bool

-- `COALESCE(MAX(seq), 0)`
unfoldable pub highest : List Row → ℕ
highest [] = 0
highest (r ∷ rows) = let rest = highest rows in if ltb rest r.seq then r.seq else rest

-- `Open`, with the rows that are on disk.
unfoldable pub open_log : Options → List Row → LogStore
unfolding highest with_defaults
open_log o rows = record {
  opts = with_defaults o;
  seq = highest rows;
  numbered = [];
  told = [];
  queue = [];
  batch = [];
  table = rows;
  dropped = 0;
  reported = 0;
  watchers = [];
  next_id = 0;
  closed = false;
}

-- The line with its time and its number.
unfoldable pub numbered_line : ℕ → Record → LogStore → Record
numbered_line now r s = record r {
  time = if r.time == 0 then now else r.time;
  seq = (s.seq + 1) % u64;
}

-- A send that never blocks.
unfoldable pub offer : Record → Watcher → Watcher
offer r w =
    if ltb (length w.waiting) w.capacity then record w { waiting = w.waiting ++ r ∷ [] } else w

unfoldable pub deliver : Record → LogStore → LogStore
unfolding offer
deliver r s = record s { watchers = map (offer r) s.watchers }

-- Into the queue, or counted as lost.
unfoldable pub enqueue : Record → LogStore → LogStore
enqueue r s =
    if ltb (length s.queue) queue_depth
    then record s { queue = s.queue ++ r ∷ [] }
    else record s { dropped = (s.dropped + 1) % u64 }

-- `Append`, where no other call comes between.
unfoldable pub append : ℕ → Record → LogStore → Record × LogStore
unfolding numbered_line deliver enqueue
append now r s =
    let r' = numbered_line now r s in
    (r', enqueue r' (deliver r' (record s { seq = (s.seq + 1) % u64 })))

-- The rows with the batch inserted, unless a number is there already.
unfoldable pub insert_rows : List Row → List Record → Option (List Row)
unfolding row_of
insert_rows table [] = some table
insert_rows table (r ∷ rs) =
    let rest = insert_rows (table ++ row_of r ∷ []) rs in
    if any (λ (row : Row). row.seq == r.seq) table then none else rest

-- `writeBatch`: all of it, or nothing. `refused`: some statement of the transaction fails.
unfoldable pub write_batch : Bool → List Row → List Record → Option (List Row)
unfolding insert_rows
write_batch refused table batch = if refused then none else insert_rows table batch

abbrev pub flushed : Option (List Row) → LogStore → LogStore
flushed none s = record s { batch = []; dropped = (s.dropped + length s.batch) % u64 }
flushed (some table) s = record s { batch = []; table = table }

unfoldable pub flush : Bool → LogStore → LogStore
unfolding write_batch
flush refused s = if is_empty s.batch then s else flushed (write_batch refused s.table s.batch) s

-- The loop that takes all of the queue.
unfoldable pub take_queue : LogStore → LogStore
take_queue s = record s { batch = s.batch ++ s.queue; queue = [] }

-- The row at an offset.
abbrev pub row_at : ℕ → List Row → Option Row
row_at n [] = none
row_at zero (r ∷ rows) = some r
row_at (suc n) (r ∷ rows) = row_at n rows

abbrev pub newer_le : Row → Row → Bool
newer_le a b = not (ltb a.seq b.seq)

-- `ORDER BY seq DESC`
unfoldable pub newest_first : List Row → List Row
newest_first rows = sort newer_le rows

-- `DELETE FROM entries WHERE time_ms < cutoff`
unfoldable pub drop_old : ℕ → List Row → List Row
drop_old cutoff rows = keep_if (λ (r : Row). not (ltb r.time_ms cutoff)) rows

-- `DELETE FROM entries WHERE seq <= (...)`, which deletes nothing where there is no such row.
abbrev pub drop_upto : Option Row → List Row → List Row
drop_upto none rows = rows
drop_upto (some last) rows = keep_if (λ (r : Row). ltb last.seq r.seq) rows

unfoldable pub drop_beyond : ℕ → List Row → List Row
unfolding newest_first
drop_beyond max_rows rows = drop_upto (row_at max_rows (newest_first rows)) rows

-- The instant before which rows are deleted, in milliseconds.
unfoldable pub cutoff : ℕ → Options → ℕ
cutoff now o = (now - pos_part o.retention) / 1000000

-- `sweep`; the flags: the first, or the second statement fails.
unfoldable pub sweep : ℕ → Bool → Bool → LogStore → LogStore
unfolding drop_old drop_beyond cutoff
sweep now no_age no_rows s =
    if no_age
    then s
    else let rows = drop_old (cutoff now s.opts) s.table in
      record s { table = if no_rows then rows else drop_beyond (pos_part s.opts.max_rows) rows }

-- The event of `reportDropped`; its prose with the number is an argument.
abbrev pub dropped_event : (ℕ → Text) → ℕ → Record
dropped_event prose lost = record {
  seq = 0;
  time = 0;
  service = codes "hostd";
  stream = stream_event;
  kind = event_log_dropped;
  run = [];
  text = prose lost;
}

-- `reportDropped`; uint64 subtraction wraps.
unfoldable pub report_dropped : (ℕ → Text) → ℕ → LogStore → LogStore
unfolding append
report_dropped prose now s =
    if s.dropped == s.reported
    then s
    else let lost = (s.dropped + (u64 - s.reported)) % u64 in
      (append now (dropped_event prose lost) (record s { reported = s.dropped })).1

-- `Watch`: at least one place.
unfoldable pub watch : ℤ → LogStore → ℕ × LogStore
watch size s =
    let w : Watcher = record {
      id = s.next_id;
      capacity = if is_positive size then pos_part size else 1;
      waiting = [];
    } in
    (s.next_id, record s { watchers = w ∷ s.watchers; next_id = s.next_id + 1 })

-- The function that `Watch` returns.
unfoldable pub unwatch : ℕ → LogStore → LogStore
unwatch id s = record s { watchers = keep_if (λ (w : Watcher). not (w.id == id)) s.watchers }
