-- ===== src/Metrics/Sampler.antt =====
-- metrics/metrics.go: one tick of the sampler.
--
-- What the kernel answers at a tick is an argument, `Source`. The clock is nanoseconds since 1970,
-- with 0 for Go's zero time, and a clock that went back gives no time elapsed.
use hostd.Base.{
  ℕ, ◌-◌, ◌*◌, ◌/◌, ◌%◌, Bool, true, false, not, ◌&&◌, ◌||◌, Option, none, some, List, [], ◌∷◌,
  ◌++◌, Text, beq, ltb, any, keep_if, if◌then◌else◌, Map, lookup, insert,
}
use hostd.Strings.{is_empty}
use hostd.Metrics.{
  Float, Sample, second, scope_host, scope_service, metric_cpu_percent, metric_memory_bytes,
  metric_memory_total, metric_disk_bytes, metric_disk_total, metric_net_rx, metric_net_tx,
  metric_load1,
}
use hostd.Metrics.Proc.{ProcCounters}
use hostd.Metrics.Series.{SeriesStore, SweepFaults, append_samples}

abbrev pub clock_ticks : ℕ
clock_ticks = 100

abbrev pub repeat_problem : ℕ
repeat_problem = 600 * second

pub record Process : Type 0 where
  pub name : Text
  pub pid : ℕ

pub record HostCounters (f : Float) : Type 0 where
  pub cpu_total : f.Value
  pub cpu_idle : f.Value
  pub memory_used : f.Value
  pub memory_total : f.Value
  pub disk_used : f.Value
  pub disk_total : f.Value
  pub net_rx : f.Value
  pub net_tx : f.Value
  pub load1 : f.Value

-- What reading the machine's counters gives: `ErrUnsupported`, another error, or the counters.
pub data HostRead (f : Float) : Type 0 where
  unsupported : HostRead f
  unread : HostRead f
  counted : HostCounters f → HostRead f

pub record Source (f : Float) : Type 0 where
  pub host : HostRead f
  pub process : ℕ → Option (ProcCounters f)

-- The errors that a tick joins.
pub data Problem : Type 0 where
  not_supported : Problem
  host_unread : Problem
  process_unread : Text → ℕ → Problem

-- `last_host` is none until `haveHost`.
pub record Sampler (f : Float) : Type 0 where
  pub last_at : ℕ
  pub last_host : Option (HostCounters f)
  pub last_proc : Map (ProcCounters f)
  pub last_problem : Text
  pub last_problem_at : ℕ

module _ (f : Float) where
  -- `Duration.Seconds`
  unfoldable pub seconds : ℕ → f.Value
  seconds ns = f.add (f.of_nat (ns / second)) (f.div (f.of_nat (ns % second)) (f.of_nat second))

  unfoldable pub sample : ℕ → Text → Text → Text → f.Value → Sample f
  sample now scope name metric value = record {
    time = now;
    scope = scope;
    name = name;
    metric = metric;
    value = value;
  }

  -- `cpuPercent`
  unfoldable pub cpu_percent : f.Value → f.Value → f.Value
  cpu_percent ticks elapsed =
      if f.is_below_zero ticks || not (f.is_above_zero elapsed)
      then f.of_nat 0
      else f.mul (f.div (f.div ticks (f.of_nat clock_ticks)) elapsed) (f.of_nat 100)

  unfoldable pub host_rates : ℕ → HostCounters f → HostCounters f → f.Value → List (Sample f)
  host_rates now last current elapsed =
      let total = f.sub current.cpu_total last.cpu_total in
      let idle = f.sub current.cpu_idle last.cpu_idle in
      let rx = f.sub current.net_rx last.net_rx in
      let tx = f.sub current.net_tx last.net_tx in
      (if f.is_above_zero total
        then sample now scope_host [] metric_cpu_percent
            (f.mul (f.sub (f.of_nat 1) (f.div idle total)) (f.of_nat 100))
          ∷ []
        else [])
      ++ (if not (f.is_below_zero rx) && not (f.is_below_zero tx)
          then sample now scope_host [] metric_net_rx (f.div rx elapsed)
            ∷ sample now scope_host [] metric_net_tx (f.div tx elapsed)
            ∷ []
          else [])

  abbrev pub rates_since : ℕ → Option (HostCounters f) → HostCounters f → f.Value → List (Sample f)
  rates_since now none current elapsed = []
  rates_since now (some last) current elapsed =
      if f.is_above_zero elapsed then host_rates now last current elapsed else []

  unfoldable pub host_samples :
      ℕ → Option (HostCounters f) → HostCounters f → f.Value → List (Sample f)
  host_samples now last current elapsed =
      sample now scope_host [] metric_memory_bytes current.memory_used
      ∷ sample now scope_host [] metric_memory_total current.memory_total
      ∷ sample now scope_host [] metric_disk_bytes current.disk_used
      ∷ sample now scope_host [] metric_disk_total current.disk_total
      ∷ sample now scope_host [] metric_load1 current.load1
      ∷ rates_since now last current elapsed

  -- The rate of a service, where it was read before.
  abbrev pub cpu_since :
      ℕ → Text → Option (ProcCounters f) → ProcCounters f → f.Value → List (Sample f)
  cpu_since now name none counters elapsed = []
  cpu_since now name (some previous) counters elapsed =
      if f.is_above_zero elapsed
      then sample now scope_service name metric_cpu_percent
          (cpu_percent (f.sub counters.cpu_ticks previous.cpu_ticks) elapsed)
        ∷ []
      else []

  -- What the loop over the processes has gathered.
  pub record Gathered : Type 0 where
    pub procs : Map (ProcCounters f)
    pub samples : List (Sample f)
    pub problems : List Problem

  abbrev pub gather_read : ℕ → f.Value → Process → Option (ProcCounters f) → Gathered → Gathered
  gather_read now elapsed p none g = record g {
    problems = g.problems ++ process_unread p.name p.pid ∷ [];
  }
  gather_read now elapsed p (some counters) g = record g {
    procs = insert p.name counters g.procs;
    samples =
        g.samples
        ++ (sample now scope_service p.name metric_memory_bytes counters.rss_bytes
            ∷ cpu_since now p.name (lookup p.name g.procs) counters elapsed);
  }

  -- The loop over the processes.
  unfoldable pub gather :
      ℕ → f.Value → (ℕ → Option (ProcCounters f)) → List Process → Gathered → Gathered
  gather now elapsed read [] g = g
  gather now elapsed read (p ∷ ps) g =
      gather now elapsed read ps (gather_read now elapsed p (read p.pid) g)

  -- The entries of the processes that are there.
  unfoldable pub only_live : List Process → Map (ProcCounters f) → Map (ProcCounters f)
  only_live procs = keep_if λ e. any (λ (p : Process). beq p.name e.0) procs

  abbrev pub host_part :
      ℕ
      → f.Value
      → HostRead f
      → Option (HostCounters f)
      → List (Sample f) × List Problem × Option (HostCounters f)
  host_part now elapsed (counted current) last =
      (host_samples now last current elapsed, [], some current)
  host_part now elapsed unread last = ([], host_unread ∷ [], last)
  host_part now elapsed unsupported last = ([], not_supported ∷ [], last)

  abbrev pub is_unsupported : HostRead f → Bool
  is_unsupported unsupported = true
  is_unsupported unread = false
  is_unsupported (counted current) = false

  -- `collect`
  unfoldable pub collect :
      ℕ → Source f → List Process → Sampler f → List (Sample f) × List Problem × Sampler f
  collect now src procs s =
      let elapsed = seconds (now - s.last_at) in
      let (samples, problems, host) = host_part now elapsed src.host s.last_host in
      let g =
        gather now elapsed src.process procs
          (record { procs = s.last_proc; samples = samples; problems = problems }) in
      if is_unsupported src.host then ([], not_supported ∷ [], s) else (
        g.samples,
        g.problems,
        record s { last_at = now; last_host = host; last_proc = only_live procs g.procs },
      )

  -- `Tick`: the problems, and whether what was sampled was stored.
  unfoldable pub tick_sampler :
      Bool
      → SweepFaults
      → ℕ
      → Source f
      → List Process
      → Sampler f × SeriesStore f
      → (List Problem × Bool) × Sampler f × SeriesStore f
  tick_sampler refused faults now src procs (s, store) =
      let (samples, problems, s') = collect now src procs s in
      let (store', stored) = append_samples refused faults samples store in
      if is_empty samples then ((problems, true), s', store) else ((problems, stored), s', store')

  -- `notify`: whether the text is reported; the flag: the same text as the last.
  unfoldable pub notify : Text → ℕ → Sampler f → Bool × Sampler f
  notify text now s =
      if beq text s.last_problem && ltb (now - s.last_problem_at) repeat_problem
      then (false, s)
      else (true, record s { last_problem = text; last_problem_at = now })
