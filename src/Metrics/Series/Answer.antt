-- ===== src/Metrics/Series/Answer.antt =====
-- metrics/store.go: `Query`, a window of the series.
--
-- Where rows share a time SQLite may give them in any order; here it is the table's.
use mathlib.Core.List.{reverse}
use hostd.Base.{
  ℕ, ◌/◌, Bool, not, ◌&&◌, ◌||◌, List, [], ◌∷◌, ◌++◌, map, Text, beq, ltb, leb, ◌==◌, take, keep_if,
  if◌then◌else◌, ℤ, is_positive, pos_part, sort, compare_text, not_gt,
}
use hostd.Logs.Search.{is_asked}
use hostd.Metrics.{Float}
use hostd.Metrics.Series.{Reading, fold_before, raw_step, minute_step, later_le}

abbrev pub default_points : ℕ
default_points = 720

abbrev pub max_points : ℕ
max_points = 20000

-- `From` and `To` are 0 for Go's zero time.
pub record SeriesQuery : Type 0 where
  pub scope : Text
  pub name : Text
  pub metric : Text
  pub from : ℕ
  pub to : ℕ
  pub step_ms : ℤ
  pub limit : ℤ

pub record Point (f : Float) : Type 0 where
  pub time_ms : ℕ
  pub value : f.Value

pub record Series (f : Float) : Type 0 where
  pub scope : Text
  pub name : Text
  pub metric : Text
  pub step_ms : ℕ
  pub points : List (Point f)

-- `step`
unfoldable pub step_of : SeriesQuery → ℕ
step_of q = if is_positive q.step_ms then pos_part q.step_ms else raw_step

unfoldable pub point_limit : SeriesQuery → ℕ
point_limit q =
    let asked = if is_positive q.limit then pos_part q.limit else default_points in
    if ltb max_points asked then max_points else asked

module _ {f : Float} where
  -- `stepPredicate`
  unfoldable pub in_step : ℕ → SeriesQuery → Reading f → Bool
  in_step now q r =
      if is_positive q.step_ms
      then r.step_ms == pos_part q.step_ms
      else (r.step_ms == raw_step && leb (fold_before now) r.time_ms)
        || (r.step_ms == minute_step && ltb r.time_ms (fold_before now))

  -- The statement's WHERE.
  unfoldable pub in_window : ℕ → SeriesQuery → Reading f → Bool
  in_window now q r =
      in_step now q r
      && is_asked q.scope r.scope
      && is_asked q.name r.name
      && is_asked q.metric r.metric
      && (q.from == 0 || leb (q.from / 1000000) r.time_ms)
      && (q.to == 0 || leb r.time_ms (q.to / 1000000))

  -- `ORDER BY time_ms DESC LIMIT ?`
  unfoldable pub window_rows : ℕ → SeriesQuery → List (Reading f) → List (Reading f)
  window_rows now q rows = take (point_limit q) (sort later_le (keep_if (in_window now q) rows))

  unfoldable pub point_of : Reading f → Point f
  point_of r = record { time_ms = r.time_ms; value = r.value }

  -- Whether a row is of a series, by the key of `index`.
  unfoldable pub belongs : Reading f → Series f → Bool
  belongs r c = beq c.scope r.scope && beq c.name r.name && beq c.metric r.metric

  -- The row's point, in its series or in a new one.
  unfoldable pub add_point : ℕ → Reading f → List (Series f) → List (Series f)
  add_point step r [] =
      record {
        scope = r.scope;
        name = r.name;
        metric = r.metric;
        step_ms = step;
        points = point_of r ∷ [];
      }
      ∷ []
  add_point step r (c ∷ cs) =
      let rest = add_point step r cs in
      if belongs r c then record c { points = c.points ++ point_of r ∷ [] } ∷ cs else c ∷ rest

  -- The loop over the rows.
  unfoldable pub add_points : ℕ → List (Reading f) → List (Series f) → List (Series f)
  add_points step [] cs = cs
  add_points step (r ∷ rows) cs = add_points step rows (add_point step r cs)

  abbrev pub oldest_point_first : Series f → Series f
  oldest_point_first c = record c { points = reverse c.points }

  -- The order of the answer, `cmp.Or` of three comparisons.
  unfoldable pub series_le : Series f → Series f → Bool
  series_le a b =
      if not (beq a.scope b.scope)
      then not_gt (compare_text a.scope b.scope)
      else if not (beq a.name b.name)
      then not_gt (compare_text a.name b.name)
      else not_gt (compare_text a.metric b.metric)

  -- `Query` of an open database.
  unfoldable pub query_series : ℕ → SeriesQuery → List (Reading f) → List (Series f)
  query_series now q rows =
      sort series_le (map oldest_point_first (add_points (step_of q) (window_rows now q rows) []))
