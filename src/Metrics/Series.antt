-- ===== src/Metrics/Series.antt =====
-- metrics/store.go: the series, in two resolutions.
--
-- The table is a list of rows. What SQLite refuses is an argument. The options and their defaults
-- are the same, field by field, as those of the log.
pub mod Fold
pub mod Forgets
pub mod Answer
use hostd.Base.{
  ℕ, zero, suc, ◌+◌, ◌-◌, ◌*◌, ◌/◌, Bool, true, false, not, ◌&&◌, ◌||◌, Option, none, some, List,
  [], ◌∷◌, ◌++◌, map, Text, beq, ltb, leb, ◌==◌, keep_if, if◌then◌else◌, ℤ, pos, is_positive,
  pos_part, sort,
}
use hostd.Logs.{Options, with_defaults}
use hostd.Metrics.{Float, Sample, second, sample_interval}

-- Milliseconds.
abbrev pub raw_step : ℕ
raw_step = sample_interval / 1000000

abbrev pub minute_step : ℕ
minute_step = 60 * second / 1000000

abbrev pub raw_retention : ℕ
raw_retention = 6 * 3600 * second

abbrev pub sweep_interval : ℕ
sweep_interval = 60 * second

-- A row of `samples`.
pub record Reading (f : Float) : Type 0 where
  pub step_ms : ℕ
  pub metric : Text
  pub scope : Text
  pub name : Text
  pub time_ms : ℕ
  pub value : f.Value

-- `lastSweep` is none for Go's zero time.
pub record SeriesStore (f : Float) : Type 0 where
  pub opts : Options
  pub table : List (Reading f)
  pub last_sweep : Option ℕ

module _ {f : Float} where
  unfoldable pub open_series : Options → List (Reading f) → SeriesStore f
  open_series o rows = record { opts = with_defaults o; table = rows; last_sweep = none }

  -- Of one series.
  unfoldable pub same_series : Reading f → Reading f → Bool
  same_series a b = beq a.metric b.metric && beq a.scope b.scope && beq a.name b.name

  -- The primary key.
  unfoldable pub same_key : Reading f → Reading f → Bool
  same_key a b = a.step_ms == b.step_ms && same_series a b && a.time_ms == b.time_ms

  -- `INSERT OR REPLACE`
  unfoldable pub replace : Reading f → List (Reading f) → List (Reading f)
  replace r rows = r ∷ keep_if (λ row. not (same_key r row)) rows

  unfoldable pub replace_all : List (Reading f) → List (Reading f) → List (Reading f)
  replace_all [] rows = rows
  replace_all (r ∷ rs) rows = replace_all rs (replace r rows)

  unfoldable pub reading_of : Sample f → Reading f
  reading_of s = record {
    step_ms = raw_step;
    metric = s.metric;
    scope = s.scope;
    name = s.name;
    time_ms = s.time / 1000000;
    value = s.value;
  }

  -- `AVG`'s GROUP BY: of one series, and in one minute.
  unfoldable pub same_minute : Reading f → Reading f → Bool
  same_minute a b = same_series a b && a.time_ms / minute_step == b.time_ms / minute_step

  -- A full resolution row that the sweep folds.
  unfoldable pub is_old_raw : ℕ → Reading f → Bool
  is_old_raw fold r = r.step_ms == raw_step && ltb r.time_ms fold

  -- One row of each group.
  unfoldable pub groups : List (Reading f) → List (Reading f)
  groups [] = []
  groups (r ∷ rs) = r ∷ keep_if (λ row. not (same_minute r row)) (groups rs)

  -- The minute's row for a group of what is folded.
  unfoldable pub minute_row : List (Reading f) → Reading f → Reading f
  minute_row folded r = record r {
    step_ms = minute_step;
    time_ms = r.time_ms / minute_step * minute_step;
    value = f.average (map (λ (row : Reading f). row.value) (keep_if (same_minute r) folded));
  }

  -- The first statement of `Sweep`.
  unfoldable pub fold_rows : ℕ → List (Reading f) → List (Reading f)
  fold_rows fold rows =
      let folded = keep_if (is_old_raw fold) rows in
      replace_all (map (minute_row folded) (groups folded)) rows

  -- The second.
  unfoldable pub drop_folded : ℕ → List (Reading f) → List (Reading f)
  drop_folded fold rows = keep_if (λ r. not (is_old_raw fold r)) rows

  -- The third: what is past its retention.
  unfoldable pub drop_expired : ℕ → List (Reading f) → List (Reading f)
  drop_expired expire rows = keep_if (λ r. not (ltb r.time_ms expire)) rows

  abbrev pub reading_at : ℕ → List (Reading f) → Option (Reading f)
  reading_at n [] = none
  reading_at zero (r ∷ rows) = some r
  reading_at (suc n) (r ∷ rows) = reading_at n rows

  abbrev pub later_le : Reading f → Reading f → Bool
  later_le a b = not (ltb a.time_ms b.time_ms)

  abbrev pub drop_before : Option (Reading f) → List (Reading f) → List (Reading f)
  drop_before none rows = rows
  drop_before (some last) rows = keep_if (λ r. not (ltb r.time_ms last.time_ms)) rows

  -- The fourth: too many rows.
  unfoldable pub drop_excess : ℕ → List (Reading f) → List (Reading f)
  drop_excess max_rows rows = drop_before (reading_at max_rows (sort later_le rows)) rows

-- The statements of a sweep that SQLite refuses.
pub record SweepFaults : Type 0 where
  pub fold : Bool
  pub drop : Bool
  pub expire : Bool
  pub excess : Bool

abbrev pub no_sweep_faults : SweepFaults
no_sweep_faults = record { fold = false; drop = false; expire = false; excess = false }

abbrev pub fold_before : ℕ → ℕ
fold_before now = (now - raw_retention) / 1000000

abbrev pub expire_before : ℕ → Options → ℕ
expire_before now o = (now - pos_part o.retention) / 1000000

-- Whether a sweep is due, `now.Sub(s.lastSweep) >= sweepInterval`.
abbrev pub is_due : Option ℕ → ℕ → Bool
is_due none now = true
is_due (some last) now = leb sweep_interval (now - last)

module _ {f : Float} where
  -- `Sweep`: the table, and whether it ended without an error.
  unfoldable pub sweep_series :
      SweepFaults → ℕ → Options → List (Reading f) → List (Reading f) × Bool
  sweep_series faults now o rows =
      let folded = fold_rows (fold_before now) rows in
      let short = drop_folded (fold_before now) folded in
      let young = drop_expired (expire_before now o) short in
      if faults.fold
      then (rows, false)
      else if faults.drop
      then (folded, false)
      else if faults.expire
      then (short, false)
      else if faults.excess
      then (young, false)
      else (drop_excess (pos_part o.max_rows) young, true)

  unfoldable pub maintain : SweepFaults → ℕ → SeriesStore f → SeriesStore f × Bool
  maintain faults now s =
      let (rows, done) = sweep_series faults now s.opts s.table in
      if is_due s.last_sweep now
      then (record s { last_sweep = some now; table = rows }, done)
      else (s, true)

  -- The latest time of the samples, from the first one's.
  unfoldable pub latest_time : ℕ → List (Sample f) → ℕ
  latest_time latest [] = latest
  latest_time latest (s ∷ ss) = latest_time (if ltb latest s.time then s.time else latest) ss

  -- `Append`; the flag: some statement of the transaction fails.
  unfoldable pub append_samples :
      Bool → SweepFaults → List (Sample f) → SeriesStore f → SeriesStore f × Bool
  append_samples refused faults [] s = (s, true)
  append_samples refused faults (first ∷ rest) s =
      let written = record s { table = replace_all (map reading_of (first ∷ rest)) s.table } in
      if refused
      then (s, false)
      else maintain faults (latest_time first.time (first ∷ rest)) written
