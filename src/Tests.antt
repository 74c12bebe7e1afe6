-- ===== src/Tests.antt =====
-- The data on which the theorems are tried: a small machine, and some declarations.
mod Requests
mod Stores
mod Timeline
mod Trees
mod Gauges
mod Declarations
mod Machines
mod Engines
mod Runs
mod Received
use hostd.Base.{
  ℕ, Bool, true, false, not, Option, none, some, List, [], ◌∷◌, ◌++◌, Text, codes, beq,
  if◌then◌else◌, pos, any, keep_if,
}
use hostd.Service.{Service, empty_service, state_running, restart_never, overlap_skip}
use hostd.Supervisor.{Container, Found, found, not_found, Runtime, Spec, World, label_service}
use hostd.Supervisor.Containers.{Host}

-- A machine that never refuses: the containers it has, by name.
abbrev find : Text → List Container → Found Container
find name [] = not_found
find name (c ∷ cs) = if beq c.name name then found c else find name cs

abbrev without : Text → List Container → List Container
without name = keep_if (λ c. not (beq c.name name))

abbrev built : Spec → Container
built spec = record {
  id = spec.name;
  name = spec.name;
  image = spec.image;
  digest = [];
  running = true;
  pid = 1;
  started = none;
  exit = 0;
  status = [];
  restarts = 0;
  error = [];
  restart = spec.restart;
  labels = spec.labels;
}

abbrev machine : Runtime
machine = record {
  State = List Container;
  list = λ label cs. some cs;
  inspect = find;
  image = λ name cs. found name;
  create = λ spec cs. (some spec.name, built spec ∷ cs);
  start = λ name cs. (true, cs);
  stop = λ name grace cs. (true, cs);
  remove = λ name cs. (true, without name cs);
  update_restart = λ name policy cs. (true, cs);
  ensure_network = λ name cs. (true, cs);
  ensure_volume = λ name labels cs. (true, cs);
}

abbrev host : Host
host = record { is_ip = λ s. true; services = codes "/srv"; has_artifacts = λ s. false }

abbrev web : Service
web = record empty_service {
  name = codes "web";
  image = codes "img";
  state = state_running;
  restart = codes "always";
  ports = codes "80:8080" ∷ [];
  volumes = codes "data:/var/data" ∷ [];
}

abbrev tick : Service
tick = record empty_service {
  name = codes "tick";
  image = codes "img";
  state = state_running;
  restart = restart_never;
  every = codes "2m";
  overlap = overlap_skip;
}

abbrev old : Service
old = record web { name = codes "old" }

abbrev container_of : Text → Container
container_of service = record {
  id = codes "hostd-" ++ service;
  name = codes "hostd-" ++ service;
  image = codes "img";
  digest = [];
  running = true;
  pid = 7;
  started = none;
  exit = 0;
  status = [];
  restarts = 0;
  error = [];
  restart = codes "always";
  labels = (label_service, service) ∷ [];
}

-- `old` is declared and runs; `tick` is declared.
abbrev world : World machine
world = record {
  declared = (codes "old", old) ∷ (codes "tick", tick) ∷ [];
  has_runtime = true;
  machine = container_of (codes "old") ∷ [];
  reported = [];
  fired = (codes "tick", 0) ∷ [];
  awaiting = [];
  woken = false;
  events = [];
}
