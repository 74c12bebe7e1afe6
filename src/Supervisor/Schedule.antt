-- ===== src/Supervisor/Schedule.antt =====
-- supervisor/schedule.go: when a job runs, and how many runs it may have.
--
-- An instant is the nanoseconds since the year 1, which is what Go's `Truncate` counts from.
pub mod Ceiling
pub mod Clock
pub mod Digits
pub mod Quiet
pub mod Turns
use Prim.Native.Nat.{◌%◌, ◌-◌}
use hostd.Base.{
  ℕ, zero, suc, ◌+◌, ◌*◌, ◌/◌, Bool, true, false, not, ◌&&◌, ◌||◌, Option, none, some, List, [],
  ◌∷◌, ◌++◌, Text, codes, beq, ltb, leb, length, if◌then◌else◌, Map, lookup, insert, keep_if, ℤ,
  pos_part, is_positive,
}
use hostd.Strings.{trim_prefix, cut}
use hostd.Service.{Service, overlap_skip, want_running, is_job, interval, run_limit, parallel}
use hostd.Supervisor.{
  Runtime, World, Error, Spec, DockerMount, Held, containers, label_service, label_run, add_event,
  event, report_once, clear_report, unknown_service, not_a_job, no_runtime, runtime_error,
  run_skipped, run_ceiling,
}
use hostd.Supervisor.Act.{
  Outcome, ok, err, Act, ◌>>=◌, ◌>>◌, pure, fail, expect, ask, change, stop_if, tell, need_runtime,
}
use hostd.Supervisor.Containers.{
  Host, network_name, container_name, config_mount, memory_bytes, nano_cpu, prepare_mounts,
  start_created,
}

-- Milliseconds between the year 1 and 1970; an instant before 1970 is not told from 1970.
abbrev pub unix_epoch : ℕ
unix_epoch = 62_135_596_800_000

unfoldable pub unix_milli : ℕ → ℕ
unix_milli t = t / 1_000_000 - unix_epoch

-- `strconv.FormatInt` of a number that fits an `int64`, which has 19 digits at most.
unfoldable pub digits : ℕ → ℕ → Text → Text
digits zero n rest = rest
digits (suc fuel) n rest =
    let d = (48 + n % 10) ∷ rest in
    let more = digits fuel (n / 10) d in if ltb n 10 then d else more

-- `runID`
unfoldable pub run_id : ℕ → Text
unfolding digits unix_milli
run_id slot = digits 19 (unix_milli slot) []

-- `runName`
unfoldable pub run_name : Text → ℕ → Text
run_name service slot = container_name service ++ (codes "-" ++ run_id slot)

-- `runOf`, of a container's name and service.
unfoldable pub run_of : Text → Text → Text
run_of name service =
    let (before, run, found) = cut 45 (trim_prefix name (container_name service)) in
    if not found then [] else run

-- `slotOf`
unfoldable pub slot_of : ℕ → ℕ → ℕ
slot_of now every = now - now % every

-- `killAfter`
unfoldable pub kill_after : ℕ → ℕ → ℕ → ℕ
kill_after started now limit = if ltb (limit + started) now then 0 else limit + started - now

-- `runLimitOf`
unfoldable pub run_limit_of : Map Service → Text → ℕ
unfolding lookup
run_limit_of declared name = elim (lookup name declared) [
  | none ↦ 0
  | some s ↦ pos_part (run_limit s)
]

unfoldable pub is_run_of : Text → Held → Bool
is_run_of name h = beq h.service name && h.container.running

-- `runsOf`, from what the runtime answered.
unfoldable pub runs_of : Text → List Held → List Held
runs_of name = keep_if (is_run_of name)

-- `docker.Spec` of one run.
unfoldable pub run_spec : Service → ℕ → List DockerMount → Spec
unfolding run_name memory_bytes nano_cpu
run_spec s slot ms = record {
  name = run_name s.name slot;
  image = s.image;
  args = s.args;
  env = s.env;
  dir = s.dir;
  ports = [];
  mounts = ms;
  labels = (label_service, s.name) ∷ (label_run, run_id slot) ∷ [];
  memory = memory_bytes s;
  nano_cpu = nano_cpu s;
  network = network_name;
  alias = s.name ++ (codes "-" ++ run_id slot);
  restart = codes "no";
}

module _ {r : Runtime} where
  open r use {create as create_container, remove as remove_container, ensure_network}

  -- `createRun`
  unfoldable pub create_run : Host → Service → ℕ → Act r Text
  create_run host s slot = do
    ms ← prepare_mounts s
    tell (ensure_network network_name)
    tell (remove_container (run_name s.name slot))
    id ← ask (create_container (run_spec s slot (ms ++ config_mount host s)))
    start_created id
    pure id

  -- `refuseRun`
  unfoldable pub refuse_run : Text → Error → Act r Text
  refuse_run name e = do change (event (codes "job.skipped") name); fail e

  unfoldable pub await : Text → World r → World r
  await id w = record w { awaiting = insert id true w.awaiting }

  -- The end of `startRun`: what is said of the run that was created, or was not.
  unfoldable pub created : Service → ℕ → Outcome Text → Act r Text
  unfolding await
  created s slot (err e) = do change (report_once s.name (codes "cannot start a run")); fail e
  created s slot (ok id) = do
    change (clear_report s.name)
    change (add_event (codes "job.started") s.name (run_id slot))
    change (await id)
    pure (run_id slot)

  unfoldable pub begin_run : Host → Service → ℕ → Act r Text
  begin_run host s slot w = let (o, w') = create_run host s slot w in created s slot o w'

  -- `startRun`, once it is known which containers there are.
  unfoldable pub start_among : Host → Service → ℕ → Option (List Held) → Act r Text
  unfolding runs_of
  start_among host s slot none = do
    change (report_once s.name (codes "cannot tell what is already running"))
    fail runtime_error
  start_among host s slot (some found) =
      let live = length (runs_of s.name found) in
      if beq s.overlap overlap_skip && ltb 0 live
      then refuse_run s.name run_skipped
      else if leb (parallel s) live
      then refuse_run s.name run_ceiling
      else begin_run host s slot

  -- `startRun`
  unfoldable pub start_run : Host → Service → ℕ → Act r Text
  start_run host s slot w = start_among host s slot (containers w) w

  -- `RunNow`
  unfoldable pub run_now : Host → Text → ℕ → Act r Text
  run_now host name now = do
    s ← (λ w. expect (unknown_service name) (lookup name w.declared) w)
    stop_if (not (is_job s)) (not_a_job name)
    need_runtime
    start_run host s now

  unfoldable pub set_fired : Text → ℕ → World r → World r
  set_fired name slot w = record w { fired = insert name slot w.fired }

  -- A job whose turn may have come, by the slot that was last fired.
  unfoldable pub take_turn : Host → Service → Text → ℕ → Option ℕ → World r → World r
  unfolding set_fired
  take_turn host s name slot none w = set_fired name slot w
  take_turn host s name slot (some last) w =
      if leb slot last then w else (start_run host s slot (set_fired name slot w)).1

  -- One declaration of `fireDue`.
  unfoldable pub fire_one : Host → ℕ → Text × Service → World r → World r
  unfolding take_turn
  fire_one host now (name, s) w =
      if not (is_job s) || not (want_running s)
      then w
      else if not (is_positive (interval s))
      then w
      else take_turn host s name (slot_of now (pos_part (interval s))) (lookup name w.fired) w

  unfoldable pub fire_each : Host → ℕ → Map Service → World r → World r
  fire_each host now [] w = w
  fire_each host now (e ∷ es) w = fire_each host now es (fire_one host now e w)

  -- `fireDue`
  unfoldable pub fire_due : Host → ℕ → World r → World r
  unfolding fire_each
  fire_due host now w = if w.has_runtime then fire_each host now w.declared w else w
