-- ===== src/Service/Address/Bounds.antt =====
-- What an accepted port and an accepted volume are.
use mathlib.Core.Path.{subst}
use hostd.Base.{
  ℕ, ◌≤◌, ◌≡◌, refl, ◌⊎◌, inl, inr, Bool, true, false, not, ◌||◌, Option, some, List, [], ◌∷◌, Text,
  codes, arith, beq, beq_iff, any, All, Bool-cases, Option-cases, if◌then◌else◌,
}
use hostd.Strings.{split, cut, has_prefix, contains_byte, is_empty}
use hostd.Service.{Service}
use hostd.Service.Address.{
  Mount, forbidden_mounts, clean, check_mount, mount_fields, parse_mount, parse_each, mounts, Port,
  port_number, check_port, port_fields, parse_port, published_ports,
}

port_number_bounds : (field : Text) (n : ℕ) → port_number field ≡ some n → (1 ≤ n) × (n ≤ 65535)
unfolding port_number
port_number_bounds field n h = ground arith

-- Every published port names two ports from 1 to 65535, tcp or udp, and no address or one that
-- the address parser takes.
pub record IsPublishable (is_ip : Text → Bool) (p : Port) : Type 0 where
  pub host_from : 1 ≤ p.host_port
  pub host_to : p.host_port ≤ 65535
  pub container_from : 1 ≤ p.container_port
  pub container_to : p.container_port ≤ 65535
  pub protocol : (p.protocol ≡ codes "tcp") ⊎ (p.protocol ≡ codes "udp")
  pub address : (p.host_ip ≡ []) ⊎ (is_ip p.host_ip ≡ true)

is_empty-eq-nil : (s : Text) → is_empty s ≡ true → s ≡ []
is_empty-eq-nil [] h = refl
is_empty-eq-nil (c ∷ s) h = cc

module _ (is_ip : Text → Bool) where
  check_port-IsPublishable :
      (protocol address host inside : Text) (p : Port)
      → (protocol ≡ codes "tcp") ⊎ (protocol ≡ codes "udp")
      → check_port is_ip protocol address host inside ≡ some p
      → IsPublishable is_ip p
  unfolding check_port
  check_port-IsPublishable protocol address host inside p known h =
      elim (Option-cases (port_number host)) [
        | inl e ↦ ground arith
        | inr (a, ea) ↦ elim (Option-cases (port_number inside)) [
          | inl e ↦ ground arith
          | inr (b, eb) ↦ ground (
            arith,
            port_number_bounds host a ea,
            port_number_bounds inside b eb,
            is_empty-eq-nil address,
          )
        ]
      ]

  port_fields-IsPublishable :
      (protocol : Text) (fields : List Text) (p : Port)
      → (protocol ≡ codes "tcp") ⊎ (protocol ≡ codes "udp")
      → port_fields is_ip protocol fields ≡ some p
      → IsPublishable is_ip p
  unfolding port_fields
  port_fields-IsPublishable protocol [] p known h = cc
  port_fields-IsPublishable protocol (a ∷ []) p known h = cc
  port_fields-IsPublishable protocol (a ∷ b ∷ []) p known h =
      check_port-IsPublishable protocol [] a b p known h
  port_fields-IsPublishable protocol (a ∷ b ∷ c ∷ []) p known h =
      check_port-IsPublishable protocol a b c p known h
  port_fields-IsPublishable protocol (a ∷ b ∷ c ∷ d ∷ r) p known h = cc

  pub parse_port-IsPublishable :
      (spec : Text) (p : Port) → parse_port is_ip spec ≡ some p → IsPublishable is_ip p
  parse_port-IsPublishable spec p h =
      let protocol = if (cut b'/' spec).2 then (cut b'/' spec).1 else codes "tcp" in
      elim (Bool-cases (beq protocol (codes "tcp") || beq protocol (codes "udp"))) [
        | inl known ↦
            port_fields-IsPublishable protocol (split b':' (cut b'/' spec).0) p
              (ground (arith, beq_iff protocol (codes "tcp"), beq_iff protocol (codes "udp")))
              (unfold parse_port in ground arith)
        | inr other ↦ absurd (unfold parse_port in ground arith)
      ]

-- An accepted volume has an absolute target. Its source is a name without a slash, or an absolute
-- path that, cleaned, is not the socket of a container runtime.
pub record IsMountable (m : Mount) : Type 0 where
  pub target : has_prefix m.target (codes "/") ≡ true
  pub named : m.named ≡ not (contains_byte b'/' m.source)
  pub source : is_empty m.source ≡ false
  pub host_path :
      (m.named ≡ true)
      ⊎ ((has_prefix m.source (codes "/") ≡ true)
          × (any (λ f. beq f (clean m.source)) forbidden_mounts ≡ false))

check_mount-IsMountable :
    (source target : Text) (read_only : Bool) (m : Mount)
    → check_mount source target read_only ≡ some m
    → IsMountable m
unfolding check_mount
check_mount-IsMountable source target read_only m h = ground arith

mount_fields-IsMountable :
    (fields : List Text) (m : Mount) → mount_fields fields ≡ some m → IsMountable m
unfolding mount_fields
mount_fields-IsMountable [] m h = cc
mount_fields-IsMountable (a ∷ []) m h = cc
mount_fields-IsMountable (a ∷ b ∷ []) m h = check_mount-IsMountable a b false m h
mount_fields-IsMountable (a ∷ b ∷ c ∷ []) m h =
    check_mount-IsMountable a b (beq c (codes "ro")) m (ground arith)
mount_fields-IsMountable (a ∷ b ∷ c ∷ d ∷ r) m h = cc

parse_mount-IsMountable : (spec : Text) (m : Mount) → parse_mount spec ≡ some m → IsMountable m
parse_mount-IsMountable spec m h =
    mount_fields-IsMountable (split b':' spec) m (unfold parse_mount in h)

-- A property of each element read, for a list that was read whole.
parse_each-All {ℓ κ} :
    {A : Type ℓ} (P : A → Type κ) (parse : Text → Option A)
    → ((spec : Text) (a : A) → parse spec ≡ some a → P a)
    → (specs : List Text) (out : List A) → parse_each parse specs ≡ some out
    → All P out
unfolding parse_each
parse_each-All P parse each [] out h = ground arith
parse_each-All P parse each (spec ∷ specs) out h = elim (Option-cases (parse spec)) [
  | inl e ↦ absurd (ground arith)
  | inr (a, e) ↦ elim (Option-cases (parse_each parse specs)) [
    | inl f ↦ absurd (ground arith)
    | inr (rest, f) ↦
        let whole : a ∷ rest ≡ out = ground arith in
        subst (All P) whole (each spec a e, parse_each-All P parse each specs rest f)
  ]
]

-- All that a service publishes can be published.
pub published_ports-IsPublishable :
    (is_ip : Text → Bool) (s : Service) (ports : List Port)
    → published_ports is_ip s ≡ some ports
    → All (IsPublishable is_ip) ports
published_ports-IsPublishable is_ip s ports h =
    parse_each-All (IsPublishable is_ip) (parse_port is_ip) (parse_port-IsPublishable is_ip) s.ports
      ports (unfold published_ports in h)

-- All that a service mounts may be mounted.
pub mounts-IsMountable : (s : Service) (ms : List Mount) → mounts s ≡ some ms → All IsMountable ms
mounts-IsMountable s ms h =
    parse_each-All IsMountable parse_mount parse_mount-IsMountable s.volumes ms (unfold mounts in h)
