-- ===== src/Supervisor.antt =====
-- supervisor/: the containers a machine declares, kept in the state the files ask for.
--
-- The container runtime is a daemon that the repository talks to over a socket: it is the
-- parameter `Runtime`, with one field for each call of `docker.Client` that the supervisor makes.
-- `World` is the supervisor's guarded state with the machine's: each operation takes a world and
-- returns the next. An event keeps its code, its service and its run; its prose and its time are
-- left out, and so are the timeouts of a call.
pub mod Plan
pub mod Act
pub mod Containers
pub mod Commands
pub mod Apply
pub mod Schedule
pub mod Drift
pub mod Status
pub mod Kept
pub mod Await
pub mod Backup
pub mod Ticks
pub mod Watch
use hostd.Base.{
  ℕ, ◌≤◌, Bool, true, false, not, ◌&&◌, ◌||◌, Option, none, some, List, [], ◌∷◌, ◌++◌, Text, codes,
  beq, if◌then◌else◌, Map, lookup, insert, delete, get_or,
}
use hostd.Service.{Service}

-- `docker.Container`
pub record Container : Type 0 where
  pub id : Text
  pub name : Text
  pub image : Text
  pub digest : Text
  pub running : Bool
  pub pid : ℕ
  pub started : Option ℕ
  pub exit : ℕ
  pub status : Text
  pub restarts : ℕ
  pub error : Text
  pub restart : Text
  pub labels : Map Text

pub record DockerMount : Type 0 where
  pub source : Text
  pub target : Text
  pub read_only : Bool
  pub named : Bool

pub record DockerPort : Type 0 where
  pub host_ip : Text
  pub host_port : ℕ
  pub container_port : ℕ
  pub protocol : Text

-- `docker.Spec`
pub record Spec : Type 0 where
  pub name : Text
  pub image : Text
  pub args : List Text
  pub env : List Text
  pub dir : Text
  pub ports : List DockerPort
  pub mounts : List DockerMount
  pub labels : Map Text
  pub memory : ℕ
  pub nano_cpu : ℕ
  pub network : Text
  pub alias : Text
  pub restart : Text

-- An answer about one thing that may not be there.
pub data Found {ℓ} (A : Type ℓ) : Type ℓ where
  found : A → Found A
  not_found : Found A
  refused : Found A

-- The runtime: what it is asked and what it is told, each with its answer. `none`, `refused` and
-- `false` are the errors of the call.
pub record Runtime : Type 1 where
  pub State : Type 0
  pub list : Text → State → Option (List Container)
  pub inspect : Text → State → Found Container
  pub image : Text → State → Found Text
  pub create : Spec → State → Option Text × State
  pub start : Text → State → Bool × State
  pub stop : Text → ℕ → State → Bool × State
  pub remove : Text → State → Bool × State
  pub update_restart : Text → Text → State → Bool × State
  pub ensure_network : Text → State → Bool × State
  pub ensure_volume : Text → Map Text → State → Bool × State

pub record Event : Type 0 where
  pub kind : Text
  pub service : Text
  pub run : Text

pub data Error : Type 0 where
  unknown_service not_a_job no_backup : Text → Error
  no_runtime runtime_error bad_declaration image_missing : Error
  run_skipped run_ceiling : Error

-- The label that says which service a container is of, and the one for a run of a job.
abbrev pub label_service : Text
label_service = codes "hostd.service"

abbrev pub label_run : Text
label_run = codes "hostd.run"

pub record World (r : Runtime) : Type 0 where
  pub declared : Map Service
  pub has_runtime : Bool
  pub machine : r.State
  pub reported : Map Text
  pub fired : Map ℕ
  pub awaiting : Map Bool
  pub woken : Bool
  pub events : List Event

-- `held`
pub record Held : Type 0 where
  pub container : Container
  pub service : Text

abbrev pub hold : List Container → List Held
hold [] = []
hold (c ∷ cs) =
    record { container = c; service = get_or [] (lookup label_service c.labels) } ∷ hold cs

module _ {r : Runtime} where
  -- `containers`; an error is `none`.
  unfoldable pub containers : World r → Option (List Held)
  unfolding lookup
  containers w =
      if w.has_runtime
      then elim (r.list label_service w.machine) [ none ↦ none | some cs ↦ some (hold cs) ]
      else none

  abbrev pub add_event : Text → Text → Text → World r → World r
  add_event kind service run w = record w {
    events = w.events ++ record { kind = kind; service = service; run = run } ∷ [];
  }

  -- `event`
  abbrev pub event : Text → Text → World r → World r
  event kind service = add_event kind service []

  -- `nudge`
  abbrev pub nudge : World r → World r
  nudge w = record w { woken = true }

  abbrev pub declare : Text → Service → World r → World r
  declare name s w = record w { declared = insert name s w.declared }

  -- `reportOnce`
  unfoldable pub report_once : Text → Text → World r → World r
  report_once name text w =
      let w' = record w { reported = insert name text w.reported } in
      if beq (get_or [] (lookup name w.reported)) text
      then w'
      else event (codes "hostd.problem") name w'

  -- `clearReport`
  unfoldable pub clear_report : Text → World r → World r
  clear_report name w = record w { reported = delete name w.reported }
