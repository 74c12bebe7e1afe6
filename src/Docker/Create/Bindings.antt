-- ===== src/Docker/Create/Bindings.antt =====
-- The ports of a container, as `Create` declares them.
use hostd.Base.{
  ◌≡◌, refl, sym, ◌∙◌, Bool, false, List, [], ◌∷◌, ◌++◌, append_assoc, map, Text, codes, All, beq,
  beq_iff, keep_if, get_or, lookup, insert, lookup-insert, Map, arith, if◌then◌else◌, append-nil,
  is_some, any, ◌||◌,
}
use hostd.Strings.{is_empty}
use hostd.Supervisor.{DockerPort, Spec}
use hostd.Docker.Create.{port_key, Binding, bound_ip, binding_of, bind_ports, expose_ports}

-- The ports of one key.
abbrev pub of_key : Text → List DockerPort → List DockerPort
of_key key = keep_if (λ p. beq (port_key p) key)

abbrev pub bound : Text → Map (List Binding) → List Binding
bound key m = get_or [] (lookup key m)

bound-insert :
    (key j : Text) (bs : List Binding) (m : Map (List Binding))
    → bound j (insert key bs m) ≡ (if beq key j then bs else bound j m)
bound-insert key j bs m = ground (arith, lookup-insert key j bs m)

bind_ports-of_key :
    (key : Text) (ps : List DockerPort) (m : Map (List Binding))
    → bound key (bind_ports ps m) ≡ bound key m ++ map binding_of (of_key key ps)
unfolding bind_ports
bind_ports-of_key key [] m = sym (append-nil (bound key m))
bind_ports-of_key key (p ∷ ps) m =
    let b = binding_of p in
    let front = bound (port_key p) m ++ b ∷ [] in
    let later = map binding_of (of_key key ps) in
    bind_ports-of_key key ps (insert (port_key p) front m)
    ∙ ground (
      arith,
      bound-insert (port_key p) key front m,
      beq_iff (port_key p) key,
      append_assoc (bound key m) (b ∷ []) later,
    )

or_false : (b : Bool) → b ≡ (b || false)
or_false b = ground arith

expose_ports-lookup :
    (key : Text) (ps : List DockerPort) (m : Map (Unit {0}))
    → is_some (lookup key (expose_ports ps m))
      ≡ (is_some (lookup key m) || any (λ p. beq (port_key p) key) ps)
unfolding expose_ports
expose_ports-lookup key [] m = or_false (is_some (lookup key m))
expose_ports-lookup key (p ∷ ps) m =
    expose_ports-lookup key ps (insert (port_key p) tt m)
    ∙ ground (arith, lookup-insert (port_key p) key tt m)

bind_ports-lookup :
    (key : Text) (ps : List DockerPort) (m : Map (List Binding))
    → is_some (lookup key (bind_ports ps m))
      ≡ (is_some (lookup key m) || any (λ p. beq (port_key p) key) ps)
unfolding bind_ports
bind_ports-lookup key [] m = or_false (is_some (lookup key m))
bind_ports-lookup key (p ∷ ps) m =
    let front = bound (port_key p) m ++ binding_of p ∷ [] in
    bind_ports-lookup key ps (insert (port_key p) front m)
    ∙ ground (arith, lookup-insert (port_key p) key front m)

bindings-IsAddressed : (ps : List DockerPort) → All (λ b. is_empty b.0 ≡ false) (map binding_of ps)
unfolding binding_of bound_ip
bindings-IsAddressed [] = tt
bindings-IsAddressed (p ∷ ps) = (addressed p.host_ip, bindings-IsAddressed ps)
  where
    addressed : (ip : Text) → is_empty (if is_empty ip then codes "127.0.0.1" else ip) ≡ false
    addressed [] = refl
    addressed (c ∷ cs) = refl

-- Under each key `Create` declares the host's side of the ports of that key, each of them, in the
-- declaration's order and nothing else; a key is exposed exactly when it is bound; and no port is
-- bound without an address, which the runtime would take for every address of the machine.
pub ports-of_key :
    (spec : Spec) (key : Text)
    → (bound key (bind_ports spec.ports []) ≡ map binding_of (of_key key spec.ports))
      × (is_some (lookup key (expose_ports spec.ports []))
          ≡ is_some (lookup key (bind_ports spec.ports [])))
      × All (λ b. is_empty b.0 ≡ false) (bound key (bind_ports spec.ports []))
unfolding lookup
ports-of_key spec key =
    let same = bind_ports-of_key key spec.ports [] in
    (
      same,
      expose_ports-lookup key spec.ports [] ∙ sym (bind_ports-lookup key spec.ports []),
      rw same (bindings-IsAddressed (of_key key spec.ports)),
    )
