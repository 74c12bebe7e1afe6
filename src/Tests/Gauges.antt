-- ===== src/Tests/Gauges.antt =====
-- The theorems on the metrics, each at one input, with natural numbers for float64.
use hostd.Base.{
  ℕ, ◌+◌, ◌-◌, ◌*◌, ◌/◌, ◌≡◌, refl, false, some, List, [], ◌∷◌, codes, beq, length, ltb, pos,
}
use hostd.Metrics.{Float}
use hostd.Metrics.Series.{Reading, fold_rows, raw_step, same_series, same_minute, is_old_raw}
use hostd.Metrics.Series.Fold.{minute_key}
use hostd.Metrics.Series.Forgets.{fold_rows-forgets}
use hostd.Metrics.Series.Answer.{SeriesQuery}
use hostd.Metrics.Proc.{ProcCounters}
use hostd.Metrics.Sampler.{Source, unread}

abbrev naturals : Float
naturals = record {
  Value = ℕ;
  of_nat = λ n. n;
  add = λ a b. a + b;
  sub = λ a b. a - b;
  mul = λ a b. a * b;
  div = λ a b. a / b;
  is_above_zero = λ a. ltb 0 a;
  is_below_zero = λ a. false;
  parse_float = λ t. some (length t);
  average = λ vs. length vs;
}

abbrev reading : ℕ → Reading naturals
reading t = record {
  step_ms = raw_step;
  metric = codes "load-1";
  scope = codes "host";
  name = [];
  time_ms = t;
  value = t;
}

abbrev readings : List (Reading naturals)
readings = reading 61000 ∷ reading 71000 ∷ reading 125000 ∷ []

fold_rows-forgets_example :
    fold_rows 100000 (record (minute_key (reading 71000)) { value = 5 } ∷ readings)
    ≡ fold_rows 100000 (record (minute_key (reading 71000)) { value = 6 } ∷ readings)
unfolding is_old_raw same_minute same_series beq
fold_rows-forgets_example = fold_rows-forgets 100000 (reading 71000) 5 6 readings refl

abbrev window : SeriesQuery
window = record {
  scope = codes "host";
  name = [];
  metric = [];
  from = 0;
  to = 0;
  step_ms = pos 10000;
  limit = pos 2;
}

abbrev counters : ProcCounters naturals
counters = record { cpu_ticks = 9; rss_bytes = 10 }

abbrev source : Source naturals
source = record { host = unread; process = λ pid. some counters }
