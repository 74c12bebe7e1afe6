-- ===== src/Service.antt =====
-- service/service.go: what a service is, and how a declaration is checked and completed.
--
-- A number of a declaration is a float64 in the source and a signed number of thousandths here;
-- a duration is in nanoseconds. A message is not modelled, the reason for it is: `Problem`.
pub mod Tree
pub mod Duration
pub mod Address
pub mod Normalize
pub mod Names
use hostd.Base.{
  ℕ, ◌*◌, ◌/◌, ◌%◌, ◌≤◌, Bool, true, false, not, ◌&&◌, ◌||◌, Option, none, some, List, [], ◌∷◌,
  ◌++◌, Text, codes, beq, ◌==◌, leb, ltb, length, if◌then◌else◌, ℤ, pos, negsuc, is_negative,
  is_positive, is_zero, pos_part,
}
use hostd.Strings.{is_empty}
use Duration.{parse_duration, second}

abbrev pub state_running : Text
state_running = codes "running"

abbrev pub state_stopped : Text
state_stopped = codes "stopped"

abbrev pub restart_always : Text
restart_always = codes "always"

abbrev pub restart_on_failure : Text
restart_on_failure = codes "on-failure"

abbrev pub restart_never : Text
restart_never = codes "never"

abbrev pub overlap_allow : Text
overlap_allow = codes "overlap"

abbrev pub overlap_skip : Text
overlap_skip = codes "skip"

abbrev pub minimum_every : ℕ
minimum_every = second

abbrev pub default_max_parallel : ℕ
default_max_parallel = 10

abbrev pub default_stop_timeout : ℕ
default_stop_timeout = 30 * second

abbrev pub extension : Text
extension = codes ".filo"

pub record Service : Type 0 where
  pub name : Text
  pub args : List Text
  pub dir : Text
  pub env : List Text
  pub state : Text
  pub restart : Text
  pub stop_timeout : ℤ
  pub image : Text
  pub ports : List Text
  pub volumes : List Text
  pub domain : List Text
  pub upstream_port : ℤ
  pub memory : ℤ
  pub cpus : ℤ
  pub every : Text
  pub overlap : Text
  pub max_parallel : ℤ
  pub run_timeout : Text
  pub config_hash : Text

-- `Service{}`
abbrev pub empty_service : Service
empty_service = record {
  name = [];
  args = [];
  dir = [];
  env = [];
  state = [];
  restart = [];
  stop_timeout = pos 0;
  image = [];
  ports = [];
  volumes = [];
  domain = [];
  upstream_port = pos 0;
  memory = pos 0;
  cpus = pos 0;
  every = [];
  overlap = [];
  max_parallel = pos 0;
  run_timeout = [];
  config_hash = [];
}

-- `StopGrace`; a thousandth of a second is a million nanoseconds.
unfoldable pub stop_grace : Service → ℕ
stop_grace s =
    if is_positive s.stop_timeout then pos_part s.stop_timeout * 1_000_000 else default_stop_timeout

unfoldable pub want_running : Service → Bool
want_running s = beq s.state state_running

unfoldable pub is_job : Service → Bool
is_job s = not (is_empty s.every)

-- `Interval`
unfoldable pub interval : Service → ℤ
interval s = elim (parse_duration s.every) [ none ↦ pos 0 | some d ↦ d ]

-- `RunLimit`
unfoldable pub run_limit : Service → ℤ
run_limit s = elim (parse_duration s.run_timeout) [ none ↦ pos 0 | some d ↦ d ]

-- `Parallel`; `int` cuts the fraction off.
unfoldable pub parallel : Service → ℕ
parallel s =
    if is_positive s.max_parallel then pos_part s.max_parallel / 1000 else default_max_parallel

is_letter_or_digit : ℕ → Bool
is_letter_or_digit c = (leb b'a' c && leb c b'z') || (leb b'0' c && leb c b'9')

is_dash : ℕ → Bool
is_dash c = c == b'-' || c == b'_'

-- The loop of `ValidName`, at the first byte or a later one.
valid_from : Bool → Text → Bool
valid_from first [] = true
valid_from first (c ∷ cs) =
    let rest = valid_from false cs in
    if is_letter_or_digit c
    then rest
    else if is_dash c
    then (if first || is_empty cs then false else rest)
    else false

-- `ValidName`
unfoldable pub valid_name : Text → Bool
unfolding valid_from is_letter_or_digit is_dash
valid_name name = if is_empty name || ltb 64 (length name) then false else valid_from true name
