-- ===== src/Supervisor/Ticks.antt =====
-- supervisor/supervisor.go: how long the rounds took, and what `-debug` says of it.
--
-- The ring holds the last rounds; a percentile's `int(float64(n) * p)` is the parameter `scaled`,
-- since the model has no floating point numbers. A duration is a number of nanoseconds, and an
-- index outside the samples, at which Go panics, gives no value.
pub mod Kept
use Prim.Native.Nat.{◌%◌, ◌-◌}
use hostd.Base.{
  ℕ, zero, suc, ◌+◌, ◌^◌, Bool, true, false, Option, none, some, List, [], ◌∷◌, Map, beq, codes,
  ltb, leb, take, length, sort, if◌then◌else◌,
}
use hostd.Service.{state_running}
use hostd.Supervisor.Status.{Status}

-- `tickSamples`
abbrev pub tick_samples : ℕ
tick_samples = 256

-- A write outside the list changes nothing; the ring's index is never outside.
unfoldable pub set : List ℕ → ℕ → ℕ → List ℕ
set [] i v = []
set (x ∷ xs) zero v = v ∷ xs
set (x ∷ xs) (suc i) v = x ∷ set xs i v

abbrev pub get_elem? : List ℕ → ℕ → Option ℕ
get_elem? [] i = none
get_elem? (x ∷ xs) zero = some x
get_elem? (x ∷ xs) (suc i) = get_elem? xs i

-- The counters of a supervisor: rounds, a `uint64`, and samples in the ring.
pub record Ticks : Type 0 where
  pub ticks : ℕ
  pub sampled : ℕ
  pub ring : List ℕ

abbrev pub zeros : ℕ → List ℕ
zeros zero = []
zeros (suc n) = 0 ∷ zeros n

-- The counters of `New`.
unfoldable pub no_ticks : Ticks
no_ticks = record { ticks = 0; sampled = 0; ring = zeros tick_samples }

-- `sample`
unfoldable pub sample_tick : ℕ → Ticks → Ticks
unfolding set
sample_tick d t = record {
  ticks = (t.ticks + 1) % 2 ^ 64;
  sampled = if ltb t.sampled tick_samples then t.sampled + 1 else t.sampled;
  ring = set t.ring (t.ticks % tick_samples) d;
}

unfoldable pub sample_each : List ℕ → Ticks → Ticks
unfolding sample_tick
sample_each [] t = t
sample_each (d ∷ ds) t = sample_each ds (sample_tick d t)

-- The samples that `Stats` copies.
unfoldable pub samples_of : Ticks → List ℕ
samples_of t = take t.sampled t.ring

-- `percentile`
unfoldable pub percentile : (ℕ → ℕ) → List ℕ → Option ℕ
percentile scaled [] = some 0
percentile scaled (x ∷ xs) = get_elem? (x ∷ xs) (scaled (length xs))

pub record Stats : Type 0 where
  pub services : ℕ
  pub running : ℕ
  pub ticks : ℕ
  pub tick_p50 : Option ℕ
  pub tick_p95 : Option ℕ
  pub tick_max : Option ℕ

unfoldable pub count_running : List Status → ℕ
count_running [] = 0
count_running (s ∷ ss) =
    let more = count_running ss in if beq s.state state_running then suc more else more

-- `Stats`, of the declared services, what `Status` answers and the counters.
unfoldable pub stats : (ℕ → ℕ) → (ℕ → ℕ) → (ℕ → ℕ) → ℕ → List Status → Ticks → Stats
unfolding samples_of percentile count_running
stats half most whole declared statuses t =
    let sorted = sort leb (samples_of t) in
    record {
      services = declared;
      running = count_running statuses;
      ticks = t.ticks;
      tick_p50 = percentile half sorted;
      tick_p95 = percentile most sorted;
      tick_max = percentile whole sorted;
    }
