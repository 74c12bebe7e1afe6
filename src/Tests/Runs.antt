-- ===== src/Tests/Runs.antt =====
-- The theorems about one run, one backup, the rounds' durations and the runtime's events.
use mathlib.Core.List.{Perm}
use hostd.Base.{
  any, List, ℕ, ◌≡◌, refl, true, false, some, [], ◌∷◌, ◌++◌, Text, codes, beq, lookup, take_last,
  arith, ◌/◌,
}
use hostd.Supervisor.{Held, World, Runtime, containers, found, not_found, label_service, label_run}
use hostd.Supervisor.Act.{ok, ◌>>=◌, ◌>>◌, expect, need_runtime, stop_if, ask, change, pure, tell}
use hostd.Service.Address.{mounts}
use hostd.Supervisor.Containers.{
  prepare_mounts, prepare_each, after_start, config_dir, config_mount, container_name, memory_bytes,
  nano_cpu, start_created,
}
use hostd.Supervisor.Schedule.{run_id, create_run, run_name, run_spec}
use hostd.Supervisor.Drift.{observe, adopt_runs}
use hostd.Supervisor.Await.{WaitPhase, exited, Waiter, begin_wait, judge}
use hostd.Supervisor.Backup.{BackupRun, backup, backup_target, finish_backup, run_backup, scripted}
use hostd.Supervisor.Backup.Recorded.{IsBacked, backup-IsBacked}
use hostd.Supervisor.Backup.Dropped.{backup_is_dropped}
use hostd.Supervisor.Act.Holds.{IsKept, On}
use hostd.Supervisor.Ticks.{tick_samples, no_ticks, sample_each, samples_of, stats}
use hostd.Supervisor.Ticks.Kept.{stats-window}
use hostd.Supervisor.Watch.{Announced, due, Watching, watch_runtime}
use hostd.Supervisor.Watch.Resumed.{watch_runtime-resumes}
use hostd.Tests.{machine, host, world, tick, container_of}

-- The waiter of a run of `tick`, when the runtime has answered and that was written down, and a
-- drift round has then found its container.
abbrev awaiting_world : World machine
awaiting_world = record world { awaiting = (codes "id", true) ∷ [] }

abbrev waiting_run : Waiter machine
waiting_run = begin_wait (codes "tick") awaiting_world

abbrev answered_run : Waiter machine
answered_run = record waiting_run { phase = WaitPhase.answered (exited 0) }

abbrev judged_run : Waiter machine
judged_run = judge (codes "tick") (codes "5") (exited 0) false answered_run

abbrev own_container : Held
own_container = record {
  container = record (container_of (codes "tick")) {
    id = codes "id";
    running = false;
    labels = (label_service, codes "tick") ∷ (label_run, codes "5") ∷ [];
  };
  service = codes "tick";
}

abbrev seen_run : Waiter machine
seen_run = record judged_run { world = adopt_runs (own_container ∷ []) judged_run.world }

abbrev stamp : ℕ → Text
stamp slot = codes "20260101T000000"

backup-IsBacked_example :
    IsBacked host
      (lookup (codes "old") world.declared)
      true
      true
      (codes "old")
      0
      (backup_target stamp (codes "old") 0)
      (λ id. some 0)
      world
      (backup host (λ t. true) stamp (codes "old") 0 (λ id. some 0) world)
backup-IsBacked_example =
    backup-IsBacked host (λ t. true) stamp (codes "old") 0 (λ id. some 0) world

abbrev backed_up : BackupRun
backed_up = record {
  run = run_id 0;
  container = codes "hostd-tick-" ++ run_id 0;
  path = codes "/tmp/tick_20260101T000000.backup";
  exit = 0;
}

-- The container of that backup, when its script has ended.
abbrev ended_backup : Held
ended_backup = record {
  container = record (container_of (codes "tick")) {
    id = backed_up.container;
    running = false;
    labels = (label_service, codes "tick") ∷ (label_run, run_id 0) ∷ [];
  };
  service = codes "tick";
}

-- A machine on which that container is all there is, and that remembers what it was asked to remove.
abbrev remembering : Runtime
remembering = record {
  State = List Text;
  list = λ label asked. some (ended_backup.container ∷ []);
  inspect = λ name asked. not_found;
  image = λ name asked. found name;
  create = λ spec asked. (some spec.name, asked);
  start = λ name asked. (true, asked);
  stop = λ name grace asked. (true, asked);
  remove = λ name asked. (true, name ∷ asked);
  update_restart = λ name policy asked. (true, asked);
  ensure_network = λ name asked. (true, asked);
  ensure_volume = λ name labels asked. (true, asked);
}

abbrev remembered : World remembering
remembered = record {
  declared = (codes "tick", tick) ∷ [];
  has_runtime = true;
  machine = [];
  reported = [];
  fired = [];
  awaiting = [];
  woken = false;
  events = [];
}

abbrev WasAsked : List Text → Type 0
WasAsked asked = any (λ name. beq name backed_up.container) asked ≡ true

WasAsked-IsKept : IsKept remembering WasAsked
WasAsked-IsKept = record {
  create = λ spec s p. p;
  start = λ id s p. p;
  stop = λ id grace s p. p;
  remove = λ id s p. ground (arith, p);
  update_restart = λ id policy s p. p;
  ensure_network = λ name s p. p;
  ensure_volume = λ name labels s p. p;
}

abbrev after_backup : World remembering
after_backup = (backup host (λ t. true) stamp (codes "tick") 0 (λ id. some 0) remembered).1

backed_up_ok :
    (backup host (λ t. true) stamp (codes "tick") 0 (λ id. some 0) remembered).0 ≡ ok backed_up
unfolding backup ◌>>=◌ ◌>>◌ expect lookup beq need_runtime stop_if create_run prepare_mounts mounts
    prepare_each ask change pure tell backup_target finish_backup run_backup scripted after_start
    config_dir config_mount container_name memory_bytes nano_cpu start_created run_name run_spec
backed_up_ok = refl

after_backup_there : after_backup.has_runtime ≡ true
unfolding backup ◌>>=◌ ◌>>◌ expect lookup beq need_runtime stop_if create_run prepare_mounts mounts
    prepare_each ask change pure tell backup_target finish_backup run_backup scripted after_start
    config_dir config_mount container_name memory_bytes nano_cpu start_created run_name run_spec
after_backup_there = refl

after_backup_listed : containers after_backup ≡ some ([] ++ ended_backup ∷ [])
unfolding containers lookup beq
after_backup_listed = rw after_backup_there refl

backup_is_dropped_example : On remembering WasAsked (observe host after_backup)
unfolding lookup beq run_id
backup_is_dropped_example =
    backup_is_dropped remembering WasAsked WasAsked-IsKept host (λ t. true) stamp (codes "tick") 0
      (λ id. some 0) remembered backed_up ended_backup [] [] backed_up_ok refl refl refl refl tt
      after_backup_there after_backup_listed (λ m. refl)

abbrev rounds : List ℕ
rounds = 30 ∷ 10 ∷ 20 ∷ []

stats-window_example :
    let t = sample_each rounds no_ticks in
    let st = stats (λ n. n / 2) (λ n. n / 2) (λ n. n) 1 [] t in
    Perm (samples_of t) (take_last tick_samples rounds)
    × ((v : ℕ) × (st.tick_p50 ≡ some v))
    × ((v : ℕ) × (st.tick_p95 ≡ some v))
    × ((v : ℕ) × (st.tick_max ≡ some v))
stats-window_example =
    stats-window rounds 1 [] (λ n. n / 2) (λ n. n / 2) (λ n. n) (omega arith) (λ n. omega arith)
      (λ n. omega arith) (λ n. omega arith)

abbrev announced : ℕ → Announced
announced at = record {
  action = codes "oom";
  id = codes "c";
  at = at;
  attributes = (label_service, codes "old") ∷ [];
}

abbrev event_log : List Announced
event_log = announced 5 ∷ announced 7 ∷ announced 9 ∷ []

abbrev watching : Watching machine
watching = record { since = 5; world = world; seen = [] }

watch_runtime-resumes_example :
    (watch_runtime event_log ((1, true) ∷ (1, false) ∷ []) watching).seen
      ++ due (watch_runtime event_log ((1, true) ∷ (1, false) ∷ []) watching).since event_log
    ≡ watching.seen ++ due watching.since event_log
watch_runtime-resumes_example =
    watch_runtime-resumes event_log ((1, true) ∷ (1, false) ∷ []) watching (omega arith)
