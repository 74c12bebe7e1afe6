-- ===== src/Metrics.antt =====
-- metrics/: what is sampled of a machine and its services.
--
-- Numbers that Go keeps as float64 are of an engine, the parameter `Float`. Times are nanoseconds
-- since 1970.
pub mod Proc
pub mod Sampler
pub mod Series
use hostd.Base.{ℕ, ◌*◌, Bool, Option, List, Text, codes}

-- What the code uses of float64, of `strconv.ParseFloat`, and of SQLite's AVG.
pub record Float : Type 1 where
  pub Value : Type 0
  pub of_nat : ℕ → Value
  pub add : Value → Value → Value
  pub sub : Value → Value → Value
  pub mul : Value → Value → Value
  pub div : Value → Value → Value
  pub is_above_zero : Value → Bool
  pub is_below_zero : Value → Bool
  pub parse_float : Text → Option Value
  pub average : List Value → Value

abbrev pub scope_host : Text
scope_host = codes "host"

abbrev pub scope_service : Text
scope_service = codes "service"

abbrev pub metric_cpu_percent : Text
metric_cpu_percent = codes "cpu-percent"

abbrev pub metric_memory_bytes : Text
metric_memory_bytes = codes "memory-bytes"

abbrev pub metric_memory_total : Text
metric_memory_total = codes "memory-total-bytes"

abbrev pub metric_disk_bytes : Text
metric_disk_bytes = codes "disk-bytes"

abbrev pub metric_disk_total : Text
metric_disk_total = codes "disk-total-bytes"

abbrev pub metric_net_rx : Text
metric_net_rx = codes "net-rx-bytes-per-second"

abbrev pub metric_net_tx : Text
metric_net_tx = codes "net-tx-bytes-per-second"

abbrev pub metric_load1 : Text
metric_load1 = codes "load-1"

abbrev pub second : ℕ
second = 1000000000

abbrev pub sample_interval : ℕ
sample_interval = 10 * second

pub record Sample (f : Float) : Type 0 where
  pub time : ℕ
  pub scope : Text
  pub name : Text
  pub metric : Text
  pub value : f.Value
