-- ===== src/Service/Normalize.antt =====
-- `normalize` and its parts, in the order in which the source runs them.
pub mod Complete
pub mod Bounded
use hostd.Base.{
  ℕ, ◌%◌, Bool, true, false, not, ◌&&◌, ◌||◌, Option, none, some, List, [], ◌∷◌, ◌++◌, Text, codes,
  beq, ◌==◌, leb, ltb, any, if◌then◌else◌, is_some, ℤ, pos, negsuc, is_negative, is_positive,
  is_zero, pos_part,
}
use hostd.Strings.{trim_space, trim_prefix, contains_any, contains_byte, has_prefix, is_empty}
use hostd.Service.{
  Service, state_running, state_stopped, restart_always, restart_on_failure, restart_never,
  overlap_allow, overlap_skip, minimum_every, is_job, valid_name,
}
use hostd.Service.Duration.{parse_duration}
use hostd.Service.Address.{mounts, published_ports}

-- Why a declaration is refused.
pub data Problem : Type 0 where
  bad_name no_image relative_dir bad_port bad_volume empty_domain bad_domain : Problem
  port_without_domain bad_upstream_port job_fields_on_service bad_every every_too_short : Problem
  bad_overlap negative_parallel bad_run_timeout run_timeout_not_positive job_restarts : Problem
  job_publishes negative_limits bad_env unknown_state unknown_restart : Problem
  negative_stop_timeout not_decoded name_is_not_file not_read : Problem

pub data Result {ℓ} (A : Type ℓ) : Type ℓ where
  ok : A → Result A
  err : Problem → Result A

-- What comes next is done unless the step before it was refused.
infixl 5 ◌>>=◌
abbrev pub ◌>>=◌ {ℓ} : {A B : Type ℓ} (step : Result A) (rest : A → Result B) → Result B
err problem >>= rest = err problem
ok value >>= rest = rest value

infixl 5 ◌>>◌
abbrev pub ◌>>◌ : {B : Type 0} (step : Result (Unit {0})) (rest : Result B) → Result B
step >> rest = step >>= λ done. rest

-- `if b { return invalid(...) }`
abbrev pub refuse_if : Bool → Problem → Result (Unit {0})
refuse_if true e = err e
refuse_if false e = ok tt

-- What is wrong with one domain.
unfoldable pub check_domain : Text → Option Problem
check_domain domain =
    let bare = trim_prefix (trim_prefix domain (codes "https://")) (codes "http://") in
    if is_empty domain
    then some empty_domain
    else if is_empty bare || contains_any bare (b' ' ∷ 9 ∷ codes "/{}")
    then some bad_domain
    else none

unfoldable pub check_domains : List Text → Option Problem
check_domains [] = none
check_domains (d ∷ ds) =
    let rest = check_domains ds in elim (check_domain d) [ none ↦ rest | some e ↦ some e ]

-- A whole number from 1 to 65535, in thousandths.
unfoldable pub is_port : ℤ → Bool
is_port (pos n) = n % 1000 == 0 && (leb 1000 n && leb n 65_535_000)
is_port (negsuc n) = false

-- `normalizeProxy`, which completes nothing
unfoldable pub normalize_proxy : Service → Option Problem
normalize_proxy s = elim (check_domains s.domain) [
  | some e ↦ some e
  | none ↦
      if is_zero s.upstream_port
      then none
      else if is_empty s.domain
      then some port_without_domain
      else if is_port s.upstream_port
      then none
      else some bad_upstream_port
]

abbrev pub or_else : Text → Text → Text
or_else default value = if is_empty value then default else value

-- What is wrong with the run-timeout of a job.
unfoldable pub check_run_timeout : Text → Option Problem
check_run_timeout text = if is_empty text then none else elim (parse_duration text) [
  | none ↦ some bad_run_timeout
  | some limit ↦ if is_positive limit then none else some run_timeout_not_positive
]

-- What is wrong with the interval of a job.
unfoldable pub check_every : Text → Option Problem
check_every text = elim (parse_duration text) [
  | none ↦ some bad_every
  | some (pos n) ↦ if ltb n minimum_every then some every_too_short else none
  | some (negsuc n) ↦ some every_too_short
]

abbrev pub pass : Option Problem → Result (Unit {0})
pass none = ok tt
pass (some e) = err e

-- The job's half of `normalizeSchedule`.
unfoldable pub normalize_job : Service → Result Service
normalize_job s = do
  pass (check_every s.every)
  let overlap = or_else overlap_allow s.overlap
  refuse_if (not (beq overlap overlap_allow || beq overlap overlap_skip)) bad_overlap
  refuse_if (is_negative s.max_parallel) negative_parallel
  pass (check_run_timeout s.run_timeout)
  refuse_if (not (is_empty s.restart) && not (beq s.restart restart_never)) job_restarts
  refuse_if (not (is_empty s.ports)) job_publishes
  ok (record s { overlap = overlap; restart = restart_never })

-- `normalizeSchedule`
unfoldable pub normalize_schedule : Service → Result Service
normalize_schedule s =
    if is_job s
    then normalize_job s
    else if not (is_empty s.overlap)
        || (not (is_zero s.max_parallel) || not (is_empty s.run_timeout))
    then err job_fields_on_service
    else ok s

-- What `normalize` does behind the container: the environment, the state and the restart.
unfoldable pub normalize_rest : Service → Result Service
normalize_rest s = do
  refuse_if (any (λ e. not (contains_byte b'=' e)) s.env) bad_env
  let state = or_else state_running s.state
  refuse_if (not (beq state state_running) && not (beq state state_stopped)) unknown_state
  let restart = or_else restart_always s.restart
  refuse_if
      (not (
        beq restart restart_always
        || (beq restart restart_on_failure || beq restart restart_never)))
      unknown_restart
  refuse_if (is_negative s.stop_timeout) negative_stop_timeout
  ok (record s { state = state; restart = restart })

module _ (is_ip : Text → Bool) where
  -- `normalizeContainer`
  unfoldable pub normalize_container : Service → Result Service
  normalize_container s = do
    refuse_if (is_empty s.image) no_image
    refuse_if (not (is_empty s.dir) && not (has_prefix s.dir (codes "/"))) relative_dir
    refuse_if (not (is_some (published_ports is_ip s))) bad_port
    refuse_if (not (is_some (mounts s))) bad_volume
    pass (normalize_proxy s)
    t ← normalize_schedule s
    refuse_if (is_negative t.memory || is_negative t.cpus) negative_limits
    ok t

  -- `normalize`
  unfoldable pub normalize : Service → Result Service
  normalize s = do
    let named = record s { name = trim_space s.name }
    refuse_if (not (valid_name named.name)) bad_name
    t ← normalize_container named
    normalize_rest t
