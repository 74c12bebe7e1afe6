-- ===== src/Logs.antt =====
-- logs/record.go, and what logs/store.go keeps: the lines of a machine's log, the rule that a
-- follower filters with, and the ceilings of the store.
--
-- Times are nanoseconds since 1970, with 0 for Go's zero time. Lower case is a parameter.
pub mod Writer
pub mod Search
use hostd.Base.{
  ℕ, ◌*◌, ◌^◌, Bool, true, false, not, ◌&&◌, ◌||◌, List, [], ◌∷◌, ◌++◌, Text, codes, beq, leb, ltb,
  ◌==◌, if◌then◌else◌, ℤ, pos, is_positive,
}
use hostd.Strings.{has_prefix}

abbrev pub stream_out : Text
stream_out = codes "stdout"

abbrev pub stream_err : Text
stream_err = codes "stderr"

abbrev pub stream_event : Text
stream_event = codes "event"

abbrev pub event_log_dropped : Text
event_log_dropped = codes "logs.dropped"

pub record Record : Type 0 where
  pub seq : ℕ
  pub time : ℕ
  pub service : Text
  pub stream : Text
  pub kind : Text
  pub run : Text
  pub text : Text

-- `Limit` is an `int`, `Since` an `uint64`.
pub record Query : Type 0 where
  pub service : Text
  pub stream : Text
  pub kind : Text
  pub run : Text
  pub match : Text
  pub limit : ℤ
  pub since : ℕ

-- `a != "" && b != a`: the field is asked for and differs.
unfoldable pub differs : Text → Text → Bool
differs asked field = not (beq asked []) && not (beq field asked)

-- `strings.Contains`
unfoldable pub contains : Text → Text → Bool
unfolding has_prefix
contains [] part = has_prefix [] part
contains (a ∷ s) part = has_prefix (a ∷ s) part || contains s part

-- `Matches`; `lower` is `strings.ToLower`.
unfoldable pub matches : (Text → Text) → Query → Record → Bool
matches lower q r =
    if differs q.service r.service
    then false
    else if differs q.stream r.stream
    then false
    else if differs q.kind r.kind
    then false
    else if differs q.run r.run
    then false
    else if ltb 0 q.since && leb r.seq q.since
    then false
    else if not (beq q.match []) && not (contains (lower r.text) (lower q.match))
    then false
    else true

-- Durations in nanoseconds.
abbrev pub default_retention : ℤ
default_retention = pos (14 * 24 * 3600 * 1000000000)

abbrev pub default_max_rows : ℤ
default_max_rows = pos 2000000

abbrev pub batch_size : ℕ
batch_size = 256

abbrev pub queue_depth : ℕ
queue_depth = 8192

pub record Options : Type 0 where
  pub retention : ℤ
  pub max_rows : ℤ

unfoldable pub with_defaults : Options → Options
with_defaults o = record {
  retention = if is_positive o.retention then o.retention else default_retention;
  max_rows = if is_positive o.max_rows then o.max_rows else default_max_rows;
}
