-- ===== src/Docker/Create.antt =====
-- docker/docker.go: what `Create` declares to the runtime.
pub mod Bindings
use hostd.Base.{
  ℕ, zero, suc, Bool, true, false, Option, none, some, List, [], ◌∷◌, ◌++◌, map, Text, codes,
  if◌then◌else◌, Map, lookup, insert, get_or,
}
use hostd.Strings.{is_empty}
use hostd.Supervisor.{DockerMount, DockerPort, Spec}
use hostd.Supervisor.Schedule.{digits}
use hostd.Docker.{
  Json, text, number, flag, items, object, Items, nil, cons, Fields, end, field, HttpRequest,
  Engine, Answer, texts, text_fields,
}
use hostd.Docker.Transport.{on_answer, decoded, with_body, tell_call}

-- `restartPolicy`
unfoldable pub policy_name : Spec → Text
policy_name spec = if is_empty spec.restart then codes "no" else spec.restart

-- `protocol`
unfoldable pub port_protocol : DockerPort → Text
port_protocol p = if is_empty p.protocol then codes "tcp" else p.protocol

-- `hostIP`
unfoldable pub bound_ip : DockerPort → Text
bound_ip p = if is_empty p.host_ip then codes "127.0.0.1" else p.host_ip

-- `kind`
unfoldable pub mount_kind : DockerMount → Text
mount_kind m = if m.named then codes "volume" else codes "bind"

-- A port's key: `%d/%s`.
unfoldable pub port_key : DockerPort → Text
unfolding digits port_protocol
port_key p = digits 19 p.container_port (codes "/" ++ port_protocol p)

-- The host's side of a port: its address and its number.
abbrev pub Binding : Type 0
Binding = Text × Text

unfoldable pub binding_of : DockerPort → Binding
unfolding digits bound_ip
binding_of p = (bound_ip p, digits 19 p.host_port [])

-- The loop over the ports: the host's side under each key.
unfoldable pub bind_ports : List DockerPort → Map (List Binding) → Map (List Binding)
bind_ports [] bindings = bindings
bind_ports (p ∷ ps) bindings =
    bind_ports ps
      (insert (port_key p) (get_or [] (lookup (port_key p) bindings) ++ binding_of p ∷ []) bindings)

unfoldable pub expose_ports : List DockerPort → Map (Unit {0}) → Map (Unit {0})
expose_ports [] exposed = exposed
expose_ports (p ∷ ps) exposed = expose_ports ps (insert (port_key p) tt exposed)

abbrev pub binding_items : List Binding → Items
binding_items [] = nil
binding_items ((ip, port) ∷ bs) =
    cons (object (field (codes "HostIp") (text ip) (field (codes "HostPort") (text port) end)))
      (binding_items bs)

abbrev pub binding_fields : Map (List Binding) → Fields
binding_fields [] = end
binding_fields ((key, bs) ∷ m) = field key (items (binding_items bs)) (binding_fields m)

abbrev pub exposed_fields : Map (Unit {0}) → Fields
exposed_fields [] = end
exposed_fields ((key, u) ∷ m) = field key (object end) (exposed_fields m)

abbrev pub mount_items : List DockerMount → Items
mount_items [] = nil
mount_items (m ∷ ms) =
    cons
      (object (
        field (codes "Type") (text (mount_kind m)) (
          field (codes "Source") (text m.source) (
            field (codes "Target") (text m.target)
              (field (codes "ReadOnly") (flag m.read_only) end)))))
      (mount_items ms)

unfoldable pub host_config : Spec → Fields
unfolding bind_ports port_key binding_of policy_name mount_kind
host_config spec =
    field (codes "PortBindings") (object (binding_fields (bind_ports spec.ports []))) (
      field (codes "Mounts") (items (mount_items spec.mounts)) (
        field (codes "RestartPolicy") (object (field (codes "Name") (text (policy_name spec)) end))
          (field (codes "Memory") (number spec.memory) (
            field (codes "NanoCpus") (number spec.nano_cpu) (
              field (codes "Privileged") (flag false) (
                field (codes "Init") (flag true) (
                  field (codes "NetworkMode") (text (codes "bridge")) (
                    field (codes "PidMode") (text []) (
                      field (codes "CapAdd") (items nil) (
                        field (codes "SecurityOpt") (items (texts (codes "no-new-privileges" ∷ [])))
                          end))))))))))

-- `body["WorkingDir"]`, which is there if the declaration names one.
abbrev pub dir_fields : Text → Fields → Fields
dir_fields dir rest = if is_empty dir then rest else field (codes "WorkingDir") (text dir) rest

abbrev pub network_fields : Text → Text → Fields → Fields
network_fields network alias rest =
    if is_empty network
    then rest
    else field (codes "NetworkingConfig")
        (object (
          field (codes "EndpointsConfig")
            (object (
              field network (object (field (codes "Aliases") (items (texts (alias ∷ []))) end))
                end))
            end))
        rest

unfoldable pub create_body : Spec → Fields
unfolding host_config expose_ports port_key
create_body spec = field (codes "Image") (text spec.image) (
    field (codes "Cmd") (items (texts spec.args)) (
      field (codes "Env") (items (texts spec.env)) (
        field (codes "Labels") (object (text_fields spec.labels)) (
          field (codes "ExposedPorts") (object (exposed_fields (expose_ports spec.ports []))) (
            field (codes "HostConfig") (object (host_config spec))
              (dir_fields spec.dir (network_fields spec.network spec.alias end)))))))

module _ (k : Engine) where
  -- `Create`
  unfoldable pub create_container : Spec → k.State → Answer Text × k.State
  unfolding create_body
  create_container spec s =
      let (answer, s') =
        tell_call k
          (with_body (codes "/containers/create") ((codes "name", spec.name) ∷ [])
            (object (create_body spec)))
          s in
      (on_answer answer (λ body. decoded (k.id_field body)), s')
