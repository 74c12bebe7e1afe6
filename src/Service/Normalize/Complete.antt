-- ===== src/Service/Normalize/Complete.antt =====
-- A declaration that passes is complete, and passes again unchanged.
use hostd.Base.{
  ℕ, ◌≤◌, ◌≡◌, refl, ap, ◌⊎◌, inl, inr, Bool, true, false, not, ◌||◌, none, Text, codes, arith, beq,
  beq_iff, beq_refl, any, Bool-cases, Option-cases, pos, negsuc, is_some, is_negative, is_zero,
}
use hostd.Strings.{has_prefix, contains_byte, is_empty, trim_space}
use hostd.Service.{
  Service, state_running, state_stopped, restart_always, restart_on_failure, restart_never,
  overlap_allow, overlap_skip, minimum_every, is_job, interval, valid_name,
}
use hostd.Service.Names.{trim_space-valid_name}
use hostd.Service.Duration.{parse_duration}
use hostd.Service.Address.{mounts, published_ports}
use hostd.Service.Normalize.{
  Result, ok, err, or_else, check_every, check_run_timeout, normalize_proxy, normalize_job,
  normalize_schedule, normalize_container, normalize_rest, normalize,
}

pub record IsNormalJob (s : Service) : Type 0 where
  pub every : check_every s.every ≡ none
  pub overlap : (beq s.overlap overlap_allow || beq s.overlap overlap_skip) ≡ true
  pub parallel : is_negative s.max_parallel ≡ false
  pub run_timeout : check_run_timeout s.run_timeout ≡ none
  pub restart : beq s.restart restart_never ≡ true
  pub ports : is_empty s.ports ≡ true

pub record IsNormalService (s : Service) : Type 0 where
  pub overlap : is_empty s.overlap ≡ true
  pub parallel : is_zero s.max_parallel ≡ true
  pub run_timeout : is_empty s.run_timeout ≡ true

-- A job that is complete, or a service that has nothing of a job.
abbrev pub IsScheduled : Service → Type 0
IsScheduled s = ((is_job s ≡ true) × IsNormalJob s) ⊎ ((is_job s ≡ false) × IsNormalService s)

pub record IsNormal (is_ip : Text → Bool) (s : Service) : Type 0 where
  pub name : valid_name s.name ≡ true
  pub image : is_empty s.image ≡ false
  pub dir : (is_empty s.dir || has_prefix s.dir (codes "/")) ≡ true
  pub ports : is_some (published_ports is_ip s) ≡ true
  pub volumes : is_some (mounts s) ≡ true
  pub proxy : normalize_proxy s ≡ none
  pub schedule : IsScheduled s
  pub memory : is_negative s.memory ≡ false
  pub cpus : is_negative s.cpus ≡ false
  pub env : any (λ e. not (contains_byte b'=' e)) s.env ≡ false
  pub state : (beq s.state state_running || beq s.state state_stopped) ≡ true
  pub restart :
      (beq s.restart restart_always
        || (beq s.restart restart_on_failure || beq s.restart restart_never))
      ≡ true
  pub stop_timeout : is_negative s.stop_timeout ≡ false

normalize_job-IsNormalJob :
    (s t : Service)
    → normalize_job s ≡ ok t
    → (t ≡ record s { overlap = or_else overlap_allow s.overlap; restart = restart_never })
      × IsNormalJob
          (record s { overlap = or_else overlap_allow s.overlap; restart = restart_never })
unfolding normalize_job
normalize_job-IsNormalJob s t h = ground (arith, beq_refl restart_never)

normalize_schedule-IsScheduled :
    (s t : Service)
    → normalize_schedule s ≡ ok t
    → (t ≡ record s { overlap = t.overlap; restart = t.restart }) × IsScheduled t
unfolding normalize_schedule is_job
normalize_schedule-IsScheduled s t h = elim (Bool-cases (is_job s)) [
  | inl job ↦ ground (arith, normalize_job-IsNormalJob s t)
  | inr not_job ↦ ground arith
]

-- What does not read the schedule or the restart policy is the same for the completed service.
unscheduled_eq :
    (is_ip : Text → Bool) (s t : Service)
    → t ≡ record s { overlap = t.overlap; restart = t.restart }
    → (published_ports is_ip t ≡ published_ports is_ip s)
      × (mounts t ≡ mounts s)
      × (normalize_proxy t ≡ normalize_proxy s)
unfolding published_ports mounts normalize_proxy
unscheduled_eq is_ip s t e =
    (ap (λ (u : Service). published_ports is_ip u) e, ap mounts e, ap normalize_proxy e)

record IsContainer (is_ip : Text → Bool) (s : Service) : Type 0 where
  image : is_empty s.image ≡ false
  dir : (is_empty s.dir || has_prefix s.dir (codes "/")) ≡ true
  ports : is_some (published_ports is_ip s) ≡ true
  volumes : is_some (mounts s) ≡ true
  proxy : normalize_proxy s ≡ none
  schedule : IsScheduled s
  memory : is_negative s.memory ≡ false
  cpus : is_negative s.cpus ≡ false

normalize_container-IsContainer :
    (is_ip : Text → Bool) (s t : Service)
    → normalize_container is_ip s ≡ ok t
    → (t ≡ record s { overlap = t.overlap; restart = t.restart }) × IsContainer is_ip t
normalize_container-IsContainer is_ip s t h =
    let scheduled : normalize_schedule s ≡ ok t = (unfold normalize_container in ground arith) in
    let (e, k) = normalize_schedule-IsScheduled s t scheduled in
    let same = unscheduled_eq is_ip s t e in
    (
      e,
      record {
        image = unfold normalize_container in ground arith;
        dir = unfold normalize_container in ground arith;
        ports = rw same.0 (unfold normalize_container in ground arith);
        volumes = rw same.1 (unfold normalize_container in ground arith);
        proxy = rw same.2 (unfold normalize_container in ground arith);
        schedule = k;
        memory = unfold normalize_container in ground arith;
        cpus = unfold normalize_container in ground arith;
      },
    )

-- Completing the state and the restart policy keeps the schedule.
normalize_rest-IsScheduled :
    (s t : Service) → normalize_rest s ≡ ok t → IsScheduled s → IsScheduled t
unfolding normalize_rest is_job
normalize_rest-IsScheduled s t h k = ground (arith, beq_iff s.restart restart_never)

normalize_rest-eq :
    (s t : Service)
    → normalize_rest s ≡ ok t
    → (t ≡ record s { state = t.state; restart = t.restart })
      × (any (λ e. not (contains_byte b'=' e)) t.env ≡ false)
      × ((beq t.state state_running || beq t.state state_stopped) ≡ true)
      × ((beq t.restart restart_always
            || (beq t.restart restart_on_failure || beq t.restart restart_never))
          ≡ true)
      × (is_negative t.stop_timeout ≡ false)
unfolding normalize_rest
normalize_rest-eq s t h = ground arith

-- What does not read the state or the restart policy is the same behind `normalize_rest`.
rest_eq :
    (is_ip : Text → Bool) (s t : Service)
    → t ≡ record s { state = t.state; restart = t.restart }
    → (published_ports is_ip t ≡ published_ports is_ip s)
      × (mounts t ≡ mounts s)
      × (normalize_proxy t ≡ normalize_proxy s)
unfolding published_ports mounts normalize_proxy
rest_eq is_ip s t e =
    (ap (λ (u : Service). published_ports is_ip u) e, ap mounts e, ap normalize_proxy e)

-- A declaration that is accepted has become a service that passes each check again, as a job or as
-- a service with none of a job's fields.
pub normalize-IsNormal :
    (is_ip : Text → Bool) (s t : Service) → normalize is_ip s ≡ ok t → IsNormal is_ip t
normalize-IsNormal is_ip s t h =
    let named = record s { name = trim_space s.name } in
    let (valid, u, contained, rested) = parts (normalize_container is_ip named) refl h in
    let (e, c) = normalize_container-IsContainer is_ip named u contained in
    let (f, env, state, restart, stop) = normalize_rest-eq u t rested in
    let same = rest_eq is_ip u t f in
    record {
      name = rw (f, e) valid;
      image = rw f c.image;
      dir = rw f c.dir;
      ports = rw same.0 c.ports;
      volumes = rw same.1 c.volumes;
      proxy = rw same.2 c.proxy;
      schedule = normalize_rest-IsScheduled u t rested c.schedule;
      memory = rw f c.memory;
      cpus = rw f c.cpus;
      env = env;
      state = state;
      restart = restart;
      stop_timeout = stop;
    }
  where
    parts :
        (r : Result Service)
        → normalize_container is_ip (record s { name = trim_space s.name }) ≡ r
        → normalize is_ip s ≡ ok t
        → (valid_name (trim_space s.name) ≡ true)
          × (u : Service) × (normalize_container is_ip (record s { name = trim_space s.name })
              ≡ ok u)
          × (normalize_rest u ≡ ok t)
    parts (err p) e h = absurd (unfold normalize in ground arith)
    parts (ok u) e h = (unfold normalize in ground arith, u, e, unfold normalize in ground arith)

normalize_job_self : (s : Service) → IsNormalJob s → normalize_job s ≡ ok s
unfolding normalize_job
normalize_job_self s n = ground (
  arith,
  beq_iff s.overlap overlap_allow,
  beq_iff s.overlap overlap_skip,
  beq_iff s.restart restart_never,
)

normalize_schedule_self : (s : Service) → IsScheduled s → normalize_schedule s ≡ ok s
unfolding normalize_schedule
normalize_schedule_self s (inl (job, n)) = rw job (normalize_job_self s n)
normalize_schedule_self s (inr (not_job, n)) = rw not_job (ground (arith, n))

normalize_container_self :
    (is_ip : Text → Bool) (s : Service) → IsNormal is_ip s → normalize_container is_ip s ≡ ok s
unfolding normalize_container
normalize_container_self is_ip s n = ground (arith, n, normalize_schedule_self s n.schedule)

normalize_rest_self :
    (is_ip : Text → Bool) (s : Service) → IsNormal is_ip s → normalize_rest s ≡ ok s
unfolding normalize_rest
normalize_rest_self is_ip s n = ground (
  arith,
  n,
  beq_iff s.state state_running,
  beq_iff s.state state_stopped,
  beq_iff s.restart restart_always,
  beq_iff s.restart restart_on_failure,
  beq_iff s.restart restart_never,
)

normalize_self : (is_ip : Text → Bool) (s : Service) → IsNormal is_ip s → normalize is_ip s ≡ ok s
unfolding normalize
normalize_self is_ip s n = ground (
  arith,
  n,
  trim_space-valid_name s.name n.name,
  normalize_container_self is_ip s n,
  normalize_rest_self is_ip s n,
)

-- An accepted declaration, given again as it was completed, is accepted and is not changed: the
-- defaults are applied once.
pub normalize_idem :
    (is_ip : Text → Bool) (s t : Service) → normalize is_ip s ≡ ok t → normalize is_ip t ≡ ok t
normalize_idem is_ip s t h = normalize_self is_ip t (normalize-IsNormal is_ip s t h)

check_every-interval :
    (s : Service)
    → check_every s.every ≡ none
    → (n : ℕ) × (interval s ≡ pos n) × (minimum_every ≤ n)
unfolding check_every interval
check_every-interval s h = elim (Option-cases (parse_duration s.every)) [
  | inl e ↦ absurd (ground arith)
  | inr (pos n, e) ↦ (n, ground arith, ground arith)
  | inr (negsuc n, e) ↦ absurd (ground arith)
]

-- An accepted job has an interval that the scheduler can use, of at least a second.
pub interval-normalize :
    (is_ip : Text → Bool) (s t : Service)
    → normalize is_ip s ≡ ok t
    → is_job t ≡ true
    → (n : ℕ) × (interval t ≡ pos n) × (minimum_every ≤ n)
interval-normalize is_ip s t h job = check_every-interval t (every (normalize-IsNormal is_ip s t h))
  where
    every : IsNormal is_ip t → check_every t.every ≡ none
    every n = ground (arith, n)
