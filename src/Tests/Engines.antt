-- ===== src/Tests/Engines.antt =====
-- The theorems about the client of the container daemon, each on a small daemon.
use hostd.Base.{
  ◌≢◌, beq_iff, Bool-cases, inr, map, is_some, ℕ, ◌≡◌, refl, Bool, true, false, none, some, List,
  [], ◌∷◌, ◌++◌, Text, codes, beq, lookup, get_or, All, arith, inl, if◌then◌else◌,
}
use hostd.Supervisor.{World, Spec}
use hostd.Supervisor.Act.Holds.{On}
use hostd.Supervisor.Kept.{here, then_step, removed}
use hostd.Docker.{Method, get, post, delete_method, HttpRequest, replied, Engine}
use hostd.Strings.{is_empty}
use hostd.Supervisor.Commands.{remove}
use hostd.Docker.Frames.{Line, spent, logs, read_header, offer_lines}
use hostd.Docker.Frames.Delivered.{stream_bytes, frames_lines, settle, logs-deliver, logs-ends}
use hostd.Docker.Create.{bind_ports, expose_ports, binding_of}
use hostd.Docker.Create.Bindings.{of_key, bound, ports-of_key}
use hostd.Docker.Pull.{Decoded, line, pull}
use hostd.Docker.Pull.Said.{ended, last_of, errors_of, Spaced, pull-last_of}
use hostd.Docker.Attached.{runtime_of}
use hostd.Docker.Attached.Harmless.{is_harmless, Reach-harmless}
use hostd.Tests.{host}

-- A daemon that keeps the number of its volumes and takes them away when it is asked to.
abbrev wipes : HttpRequest → Bool
wipes q = beq (get_or [] (lookup (codes "v") q.query)) (codes "true")

abbrev volumes_after : Method → HttpRequest → ℕ → ℕ
volumes_after get q n = n
volumes_after post q n = n
volumes_after delete_method q n = if wipes q then 0 else n

abbrev small : Engine
small = record {
  State = ℕ;
  ask = λ q n. replied (record { status = 404; body = [] });
  tell = λ q n. (replied (record { status = 201; body = [] }), volumes_after q.method q n);
  path_escape = λ t. t;
  quote = λ t. t;
  parse_time = λ t. none;
  message_field = λ t. none;
  id_field = λ t. some (codes "c1");
  mountpoint_field = λ t. none;
  wait_result = λ t. none;
  raw_container = λ t. none;
  raw_list = λ t. some [];
  raw_image = λ t. none;
  raw_images = λ t. none;
  raw_version = λ t. none;
}

abbrev stored : World (runtime_of small)
stored = record {
  declared = [];
  has_runtime = true;
  machine = 3;
  reported = [];
  fired = [];
  awaiting = [];
  woken = false;
  events = [];
}

kept_three :
    (m : Method) (q : HttpRequest) (n : ℕ)
    → is_harmless m q.path q.query q.body ≡ true
    → n ≡ 3
    → volumes_after m q n ≡ 3
unfolding is_harmless
kept_three get q n h e = e
kept_three post q n h e = e
kept_three delete_method q n h e =
    let v = get_or [] (lookup (codes "v") q.query) in
    elim (Bool-cases (beq v (codes "true"))) [
      | inl wiped ↦ absurd (ground (arith, beq_iff v (codes "true"), beq_iff v (codes "false")))
      | inr whole ↦ rw whole e
    ]

Reach-harmless_example : On (runtime_of small) (λ n. n ≡ 3) (remove (codes "web") stored).1
Reach-harmless_example =
    Reach-harmless small (λ n. n ≡ 3) (λ q n h e. kept_three q.method q n h e) host stored
      (remove (codes "web") stored).1 (then_step here (removed (codes "web") stored))
      (record { at = refl })

-- `ok\n` on the second stream, and a header that is cut off.
abbrev ok_frame : List (ℕ × Text)
ok_frame = (2, codes "ok" ++ 10 ∷ []) ∷ []

abbrev collect_lines : Line → List Line → Bool × List Line
collect_lines l ls = (true, ls ++ l ∷ [])

logs-deliver_example :
    logs (λ t. none) collect_lines true (stream_bytes ok_frame ++ (1 ∷ 0 ∷ [])) []
    ≡ settle (offer_lines collect_lines (frames_lines (λ t. none) ok_frame) [])
unfolding read_header
logs-deliver_example =
    logs-deliver (λ t. none) collect_lines ok_frame (1 ∷ 0 ∷ []) [] (omega arith, tt) refl

logs-ends_example : (logs (λ t. none) collect_lines false (1 ∷ 2 ∷ 3 ∷ []) []).0 ≢ spent
logs-ends_example = logs-ends (λ t. none) collect_lines false (1 ∷ 2 ∷ 3 ∷ []) []

abbrev two_ports : Spec
two_ports = record {
  name = codes "hostd-web";
  image = codes "img";
  args = [];
  env = [];
  dir = [];
  ports =
      record { host_ip = []; host_port = 80; container_port = 8080; protocol = [] }
      ∷ record {
        host_ip = codes "10.0.0.1";
        host_port = 81;
        container_port = 8080;
        protocol = codes "tcp";
      }
      ∷ [];
  mounts = [];
  labels = [];
  memory = 0;
  nano_cpu = 0;
  network = codes "hostd";
  alias = codes "web";
  restart = [];
}

ports-of_key_example :
    (bound (codes "8080/tcp") (bind_ports two_ports.ports [])
      ≡ map binding_of (of_key (codes "8080/tcp") two_ports.ports))
    × (is_some (lookup (codes "8080/tcp") (expose_ports two_ports.ports []))
        ≡ is_some (lookup (codes "8080/tcp") (bind_ports two_ports.ports [])))
    × All (λ b. is_empty b.0 ≡ false) (bound (codes "8080/tcp") (bind_ports two_ports.ports []))
ports-of_key_example = ports-of_key two_ports (codes "8080/tcp")

abbrev pulled : List Decoded
pulled =
    line 5_000_000_000
      (record { status = codes "Pulling"; id = codes "a"; progress = []; error = [] })
    ∷ line 6_000_000_000 (record { status = []; id = []; progress = []; error = codes "denied" })
    ∷ []

pull-last_of_example :
    ((pull true pulled).0 ≡ ended (last_of [] (errors_of pulled)))
    × ((b : ℕ) × Spaced 0 (pull true pulled).1 b)
pull-last_of_example = pull-last_of true pulled (tt, (tt, tt))
