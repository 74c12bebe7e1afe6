-- ===== src/Tests/Timeline.antt =====
-- The theorems on the log, each at one store.
use hostd.Base.{
  ℕ, ◌+◌, ◌*◌, ◌≤◌, ◌<◌, ◌⊎◌, ◌≡◌, refl, Bool, true, false, some, List, [], ◌∷◌, ◌++◌, map, Text,
  codes, arith, length, take_last, keep_if, All, pos, pos_part,
}
use hostd.Logs.{Record, Query, matches, stream_out}
use hostd.Logs.Writer.{LogStore, Row, row_of, sweep, cutoff, drop_old}
use hostd.Logs.Writer.Steps.{
  Op, number, deliver_one, enqueue_one, tick, sweep_tick, flush_all, take_one, run_log, drain,
}
use hostd.Logs.Writer.Count.Whole.{line_count, deleted_in, run_log-counts}
use hostd.Logs.Writer.Count.Distinct.{IsDistinct, run_log-IsDistinct, drain-table}
use hostd.Logs.Writer.Ceiling.{is_among_newest, sweep-bounds}
use hostd.Logs.Search.{search, limit_of, record_of}
use hostd.Logs.Search.Order.{oldest_first}
use hostd.Logs.Search.Rule.{search-matches}

abbrev line : ℕ → Record
line n = record {
  seq = n;
  time = 1000000 * n;
  service = codes "web";
  stream = stream_out;
  kind = [];
  run = [];
  text = codes "hello";
}

abbrev row : ℕ → Row
row n = record {
  seq = n;
  time_ms = n;
  service = codes "web";
  stream = stream_out;
  kind = [];
  run = [];
  text = codes "hello";
}

abbrev log : LogStore
log = record {
  opts = record { retention = pos 5000000; max_rows = pos 1 };
  seq = 4;
  numbered = [];
  told = [];
  queue = line 4 ∷ [];
  batch = line 3 ∷ [];
  table = row 1 ∷ row 2 ∷ [];
  dropped = 0;
  reported = 0;
  watchers = [];
  next_id = 0;
  closed = false;
}

log-IsDistinct : IsDistinct log
log-IsDistinct = record { once = λ n. ground arith; given = λ n. ground arith }

abbrev prose : ℕ → Text
prose n = codes "lost"

abbrev ops : List Op
ops =
    number 7 (line 0)
    ∷ deliver_one 0
    ∷ number 8 (line 0)
    ∷ enqueue_one 0
    ∷ take_one false
    ∷ tick true
    ∷ sweep_tick 9000000 false false false
    ∷ flush_all false
    ∷ []

abbrev asked : Query
asked = record {
  service = codes "web";
  stream = [];
  kind = [];
  run = [];
  match = [];
  limit = pos 2;
  since = 1;
}

abbrev never : Text → Text → Bool
never match text = false

abbrev same_case : Text → Text
same_case t = t

run_log-counts_example :
    line_count (run_log prose ops log)
      + (run_log prose ops log).dropped
      + deleted_in prose ops log
      + 4
    ≡ 4 + 0 + (run_log prose ops log).seq
run_log-counts_example = run_log-counts prose ops log (omega arith) (omega arith)

run_log-IsDistinct_example : IsDistinct (run_log prose ops log)
run_log-IsDistinct_example = run_log-IsDistinct prose ops log (omega arith) log-IsDistinct

drain-table_example : drain false log ≡ record log {
  queue = [];
  batch = [];
  table = (row 1 ∷ row 2 ∷ []) ++ map row_of ((line 3 ∷ []) ++ line 4 ∷ []);
}
drain-table_example = drain-table log log-IsDistinct

search-matches_example :
    (search never false false asked log).0
    ≡ some (
        take_last (limit_of asked) (
          map record_of (
            oldest_first (
              keep_if
                (λ r. matches same_case asked (record_of r))
                (log.table ++ map row_of (log.batch ++ log.queue))))))
search-matches_example =
    search-matches never same_case asked log log-IsDistinct refl refl (omega arith)

sweep-bounds_example :
    (length (sweep 6000000 false false log).table ≤ pos_part log.opts.max_rows)
    × All (λ r. cutoff 6000000 log.opts ≤ r.time_ms) (sweep 6000000 false false log).table
    × ((pos_part log.opts.max_rows < length (drop_old (cutoff 6000000 log.opts) log.table))
        ⊎ ((sweep 6000000 false false log).table ≡ drop_old (cutoff 6000000 log.opts) log.table))
    × ((sweep 6000000 false false log).table
        ≡ keep_if
            (is_among_newest
              (pos_part log.opts.max_rows)
              (drop_old (cutoff 6000000 log.opts) log.table))
            (drop_old (cutoff 6000000 log.opts) log.table))
sweep-bounds_example = sweep-bounds 6000000 log
