-- ===== src/Supervisor/Containers.antt =====
-- supervisor/container.go: from a declaration to a container, and back off the machine.
use hostd.Base.{
  ℕ, ◌*◌, ◌/◌, Bool, true, false, List, [], ◌∷◌, ◌++◌, Text, codes, beq, if◌then◌else◌, pos_part,
}
use hostd.Service.{Service, restart_on_failure, restart_never, stop_grace}
use hostd.Service.Address.{Mount, mounts, Port, published_ports}
use hostd.Supervisor.{
  Runtime, World, Spec, DockerMount, DockerPort, Found, found, not_found, refused, runtime_error,
  bad_declaration, image_missing, label_service, event, nudge,
}
use hostd.Supervisor.Act.{
  Act, ◌>>=◌, ◌>>◌, pure, fail, expect, ignore, ask, change, tell, need_runtime,
}

-- What the supervisor asks of its own machine: Go's address parser, the services directory, and
-- whether a service has files beside its declaration there.
pub record Host : Type 0 where
  pub is_ip : Text → Bool
  pub services : Text
  pub has_artifacts : Text → Bool

abbrev pub network_name : Text
network_name = codes "hostd"

unfoldable pub container_name : Text → Text
container_name service = codes "hostd-" ++ service

unfoldable pub volume_name : Text → Text → Text
volume_name service volume = codes "hostd-" ++ (service ++ (codes "-" ++ volume))

-- `service.ConfigDir`
unfoldable pub config_dir : Text → Text
config_dir name = codes "/etc/hostd/" ++ name

-- `restartPolicy`
unfoldable pub restart_policy : Service → Text
restart_policy s =
    if beq s.restart restart_on_failure
    then codes "on-failure"
    else if beq s.restart restart_never
    then codes "no"
    else codes "unless-stopped"

-- `toDockerPorts`
unfoldable pub to_docker_ports : List Port → List DockerPort
to_docker_ports [] = []
to_docker_ports (p ∷ ps) =
    record {
      host_ip = p.host_ip;
      host_port = p.host_port;
      container_port = p.container_port;
      protocol = p.protocol;
    }
    ∷ to_docker_ports ps

-- `configMount`
unfoldable pub config_mount : Host → Service → List DockerMount
unfolding config_dir
config_mount host s =
    if host.has_artifacts s.name
    then record {
      source = host.services ++ (codes "/" ++ (s.name ++ codes ".d"));
      target = config_dir s.name;
      read_only = true;
      named = false;
    }
      ∷ []
    else []

-- Whole mebibytes and billionths of a core, as `int64(...)` cuts them.
unfoldable pub memory_bytes : Service → ℕ
memory_bytes s = pos_part s.memory / 1000 * (1024 * 1024)

unfoldable pub nano_cpu : Service → ℕ
nano_cpu s = pos_part s.cpus * 1_000_000

-- `docker.Spec` of a service's own container.
unfoldable pub spec_of : Service → List Port → List DockerMount → Spec
unfolding container_name restart_policy to_docker_ports memory_bytes nano_cpu
spec_of s ports ms = record {
  name = container_name s.name;
  image = s.image;
  args = s.args;
  env = s.env;
  dir = s.dir;
  ports = to_docker_ports ports;
  mounts = ms;
  labels = (label_service, s.name) ∷ [];
  memory = memory_bytes s;
  nano_cpu = nano_cpu s;
  network = network_name;
  alias = s.name;
  restart = restart_policy s;
}

module _ {r : Runtime} where
  open r use {
    image as find_image, create as create_container, start as start_container,
    stop as stop_container, remove as remove_container, ensure_network, ensure_volume,
  }

  -- One mount of `prepareMounts`: named storage is created if it is not there.
  unfoldable pub prepare_mount : Text → Mount → Act r DockerMount
  unfolding volume_name
  prepare_mount service m =
      if m.named
      then (do
        tell (ensure_volume (volume_name service m.source) ((label_service, service) ∷ []))
        pure (record {
          source = volume_name service m.source;
          target = m.target;
          read_only = m.read_only;
          named = true;
        }))
      else pure
          (record { source = m.source; target = m.target; read_only = m.read_only; named = false })

  unfoldable pub prepare_each : Text → List Mount → Act r (List DockerMount)
  prepare_each service [] = pure []
  prepare_each service (m ∷ ms) = do
    d ← prepare_mount service m
    ds ← prepare_each service ms
    pure (d ∷ ds)

  -- `prepareMounts`
  unfoldable pub prepare_mounts : Service → Act r (List DockerMount)
  prepare_mounts s = do ms ← expect bad_declaration (mounts s); prepare_each s.name ms

  -- The image a declaration names, as this machine has it.
  unfoldable pub need_image : Found Text → Act r Text
  need_image (found digest) = pure digest
  need_image not_found = fail image_missing
  need_image refused = fail runtime_error

  -- A container that cannot be started is removed again.
  unfoldable pub after_start : Text → Bool → Act r (Unit {0})
  after_start id true = pure tt
  after_start id false = do ignore (tell (remove_container id)); fail runtime_error

  unfoldable pub start_created : Text → Act r (Unit {0})
  start_created id w =
      let (started, m) = start_container id w.machine in
      after_start id started (record w { machine = m })

  -- `create`
  unfoldable pub create : Host → Service → Bool → Act r (Unit {0})
  create host s start = do
    need_runtime
    ports ← expect bad_declaration (published_ports host.is_ip s)
    ms ← prepare_mounts s
    tell (ensure_network network_name)
    digest ← (λ w. need_image (find_image s.image w.machine) w)
    tell (remove_container (container_name s.name))
    id ← ask (create_container (spec_of s ports (ms ++ config_mount host s)))
    if start
        then (do start_created id; change (event (codes "service.started") s.name); change nudge)
        else change (event (codes "service.started") s.name)

  -- `sayStopping`
  abbrev pub say_stopping : Service → World r → World r
  say_stopping s = event (codes "service.stopped") s.name

  -- `retire`: the answers of the runtime are not looked at.
  unfoldable pub retire_container : Service → Act r (Unit {0})
  retire_container s = do
    change (say_stopping s)
    ignore (tell (stop_container (container_name s.name) (stop_grace s)))
    ignore (tell (remove_container (container_name s.name)))

  unfoldable pub retire : Service → Act r (Unit {0})
  retire s w = (if w.has_runtime then retire_container s else pure tt) w
