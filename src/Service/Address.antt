-- ===== src/Service/Address.antt =====
-- Volumes and published ports: `parseMount`, `parsePort`, and the lists of them.
pub mod Bounds
use hostd.Base.{
  ℕ, Bool, false, not, ◌&&◌, ◌||◌, Option, none, some, List, [], ◌∷◌, ◌++◌, Text, codes, beq, ltb,
  any, if◌then◌else◌, pos, negsuc,
}
use hostd.Strings.{split, cut, has_prefix, contains_byte, is_empty}
use hostd.Service.{Service}
use hostd.Service.Duration.{atoi}

pub record Mount : Type 0 where
  pub source : Text
  pub target : Text
  pub read_only : Bool
  pub named : Bool

abbrev pub forbidden_mounts : List Text
forbidden_mounts =
    codes "/var/run/docker.sock" ∷ codes "/run/docker.sock" ∷ codes "/run/podman/podman.sock" ∷ []

above : List Text → List Text
above [] = []
above (x ∷ xs) = xs

enter : List Text → Text → List Text
enter up e =
    if is_empty e || beq e (codes ".") then up else if beq e (codes "..") then above up else e ∷ up

-- The elements of an absolute path with `.`, `..` and doubled slashes resolved, last one first.
resolve : List Text → List Text → List Text
resolve up [] = up
resolve up (e ∷ es) = resolve (enter up e) es

join_up : List Text → Text
join_up [] = []
join_up (e ∷ es) = join_up es ++ b'/' ∷ e

-- `filepath.Clean` of an absolute path
unfoldable pub clean : Text → Text
unfolding resolve enter above join_up
clean path =
    let out = join_up (resolve [] (split b'/' path)) in if is_empty out then codes "/" else out

-- The source, the target and the third field.
check_mount : Text → Text → Bool → Option Mount
check_mount source target read_only =
    let named = not (contains_byte b'/' source) in
    if is_empty source || not (has_prefix target (codes "/"))
    then none
    else if not named && not (has_prefix source (codes "/"))
    then none
    else if not named && any (λ m. beq m (clean source)) forbidden_mounts
    then none
    else some (record { source = source; target = target; read_only = read_only; named = named })

mount_fields : List Text → Option Mount
mount_fields (source ∷ target ∷ mode ∷ []) =
    if not (beq mode (codes "ro")) && not (beq mode (codes "rw"))
    then none
    else check_mount source target (beq mode (codes "ro"))
mount_fields (source ∷ target ∷ []) = check_mount source target false
mount_fields _ = none

-- `parseMount`
unfoldable pub parse_mount : Text → Option Mount
unfolding mount_fields check_mount
parse_mount spec = mount_fields (split b':' spec)

parse_each {ℓ} : {A : Type ℓ} → (Text → Option A) → List Text → Option (List A)
parse_each parse [] = some []
parse_each parse (spec ∷ specs) =
    let rest = parse_each parse specs in
    elim (parse spec) [
      | none ↦ none
      | some a ↦ elim rest [ none ↦ none | some as' ↦ some (a ∷ as') ]
    ]

-- `Mounts`
unfoldable pub mounts : Service → Option (List Mount)
unfolding parse_each
mounts s = parse_each parse_mount s.volumes

pub record Port : Type 0 where
  pub host_ip : Text
  pub host_port : ℕ
  pub container_port : ℕ
  pub protocol : Text

-- A number that `parsePort` takes for a port.
unfoldable pub port_number : Text → Option ℕ
port_number field = elim (atoi field) [
  | none ↦ none
  | some (pos n) ↦ if ltb n 1 || ltb 65535 n then none else some n
  | some (negsuc n) ↦ none
]

-- The address test is `net.ParseIP`, of Go's library: a parameter.
module _ (is_ip : Text → Bool) where
  check_port : Text → Text → Text → Text → Option Port
  check_port protocol address host inside = elim (port_number host) [
    | none ↦ none
    | some h ↦ elim (port_number inside) [
      | none ↦ none
      | some i ↦
          if not (is_empty address) && not (is_ip address)
          then none
          else some
              (record { host_ip = address; host_port = h; container_port = i; protocol = protocol })
    ]
  ]

  port_fields : Text → List Text → Option Port
  port_fields protocol (host ∷ inside ∷ []) = check_port protocol [] host inside
  port_fields protocol (address ∷ host ∷ inside ∷ []) = check_port protocol address host inside
  port_fields protocol _ = none

  -- `parsePort`
  unfoldable pub parse_port : Text → Option Port
  unfolding port_fields check_port port_number
  parse_port spec =
      let (rest, after, found) = cut b'/' spec in
      let protocol = if found then after else codes "tcp" in
      if not (beq protocol (codes "tcp")) && not (beq protocol (codes "udp"))
      then none
      else port_fields protocol (split b':' rest)

  -- `PublishedPorts`
  unfoldable pub published_ports : Service → Option (List Port)
  unfolding parse_each
  published_ports s = parse_each parse_port s.ports
