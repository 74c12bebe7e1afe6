-- ===== src/Docker/Attached/Harmless.antt =====
-- What hostd asks the container daemon for never reaches beyond its own containers: storage is
-- made and never taken away, and no container is given what a declaration cannot ask for.
use hostd.Base.{
  ℕ, ◌≡◌, refl, Bool, true, false, not, ◌&&◌, ◌||◌, Option, none, some, List, [], Text, codes, Map,
  beq, lookup, get_or, if◌then◌else◌,
}
use hostd.Strings.{is_empty, has_prefix}
use hostd.Supervisor.{World, Spec}
use hostd.Supervisor.Act.Holds.{IsKept, On}
use hostd.Supervisor.Containers.{Host}
use hostd.Supervisor.Kept.{Reach, Reach-On}
use hostd.Docker.{
  Json, text, flag, items, object, cons, Fields, end, field, Method, get, post, delete_method,
  HttpRequest, Engine, Answer, got, failed, missing, unreachable, reported, rejected, undecodable,
}
use hostd.Docker.Transport.{tell_call}
use hostd.Docker.Create.{create_body, create_container}
use hostd.Docker.Calls.{
  start_container, stop_container, remove_container, update_restart, ensure_network, create_network,
  ensure_volume, create_volume, if_missing,
}
use hostd.Docker.Attached.{runtime_of}

unfoldable pub field_of : Text → Fields → Option Json
field_of name end = none
field_of name (field key value rest) = if beq key name then some value else field_of name rest

abbrev pub inside : Text → Option Json → Option Json
inside name (some (object fields)) = field_of name fields
inside name _ = none

abbrev pub is_true : Option Json → Bool
is_true (some (flag b)) = b
is_true _ = false

abbrev pub is_filled : Option Json → Bool
is_filled (some (items (cons item rest))) = true
is_filled _ = false

abbrev pub text_of : Option Json → Text
text_of (some (text t)) = t
text_of _ = []

-- A body asks for more than a container of its own: the machine's privileges, capabilities, its
-- network or its processes.
unfoldable pub is_privileged : Option Json → Bool
unfolding field_of
is_privileged body =
    let host = inside (codes "HostConfig") body in
    is_true (inside (codes "Privileged") host)
    || is_filled (inside (codes "CapAdd") host)
    || beq (text_of (inside (codes "NetworkMode") host)) (codes "host")
    || not (is_empty (text_of (inside (codes "PidMode") host)))

-- A request that makes networks or volumes, or is about containers, with none of this asked for,
-- and that deletes at most a container, and not its volumes.
unfoldable pub is_harmless : Method → Text → List (Text × Text) → Option Json → Bool
unfolding is_privileged has_prefix lookup
is_harmless get path query body = true
is_harmless post path query body =
    not (is_privileged body)
    && (has_prefix path (codes "/containers/")
        || beq path (codes "/networks/create")
        || beq path (codes "/volumes/create"))
is_harmless delete_method path query body =
    has_prefix path (codes "/containers/")
    && beq (get_or [] (lookup (codes "v") query)) (codes "false")

abbrev pub IsHarmless : HttpRequest → Type 0
IsHarmless q = is_harmless q.method q.path q.query q.body ≡ true

create-IsHarmless : (spec : Spec) → is_privileged (some (object (create_body spec))) ≡ false
unfolding is_privileged create_body beq field_of
create-IsHarmless spec = refl

module _ (k : Engine) (P : k.State → Type 0)
    (keep : (q : HttpRequest) (s : k.State) → IsHarmless q → P s → P (k.tell q s).1) where
  if_missing-kept :
      (build : k.State → Answer Text × k.State) (seen : Answer Text) (s : k.State)
      → P s
      → P (build s).1
      → P (if_missing k build seen s).1
  if_missing-kept build (got body) s p q = p
  if_missing-kept build (failed (missing detail)) s p q = q
  if_missing-kept build (failed (unreachable why)) s p q = p
  if_missing-kept build (failed (reported why)) s p q = p
  if_missing-kept build (failed (rejected status why)) s p q = p
  if_missing-kept build (failed undecodable) s p q = p

  create-kept : (spec : Spec) (s : k.State) → P s → P (create_container k spec s).1
  unfolding create_container tell_call is_harmless
  create-kept spec s p = keep _ s (rw (create-IsHarmless spec)) p

  start-kept : (id : Text) (s : k.State) → P s → P (start_container k id s).1
  unfolding start_container tell_call is_harmless beq
  start-kept id s p = keep _ s refl p

  stop-kept : (id : Text) (grace : ℕ) (s : k.State) → P s → P (stop_container k id grace s).1
  unfolding stop_container tell_call is_harmless beq
  stop-kept id grace s p = keep _ s refl p

  remove-kept : (id : Text) (s : k.State) → P s → P (remove_container k id s).1
  unfolding remove_container tell_call is_harmless beq
  remove-kept id s p = keep _ s refl p

  update_restart-kept : (id policy : Text) (s : k.State) → P s → P (update_restart k id policy s).1
  unfolding update_restart tell_call is_harmless beq
  update_restart-kept id policy s p = keep _ s refl p

  ensure_network-kept : (name : Text) (s : k.State) → P s → P (ensure_network k name s).1
  unfolding ensure_network create_network tell_call is_harmless beq
  ensure_network-kept name s p = if_missing-kept (create_network k name) _ s p (keep _ s refl p)

  ensure_volume-kept :
      (name : Text) (labels : Map Text) (s : k.State) → P s → P (ensure_volume k name labels s).1
  unfolding ensure_volume create_volume tell_call is_harmless beq
  ensure_volume-kept name labels s p =
      if_missing-kept (create_volume k name labels) _ s p (keep _ s refl p)

  runtime_of-IsKept : IsKept (runtime_of k) P
  runtime_of-IsKept = record {
    create = create-kept;
    start = start-kept;
    stop = stop-kept;
    remove = remove-kept;
    update_restart = update_restart-kept;
    ensure_network = ensure_network-kept;
    ensure_volume = ensure_volume-kept;
  }

-- Whatever is true of the container daemon and survives each request that makes networks or
-- volumes, or concerns containers without asking for privileges, capabilities or the machine's
-- network or processes, or deletes a container and not its volumes, survives every sequence of the
-- supervisor's operations: starting, stopping, restarting, deploying, removing, applying, running
-- jobs, rounds of the schedule and of drift, and stopping a run. So the supervisor never takes
-- storage away.
pub Reach-harmless :
    (k : Engine) (P : k.State → Type 0)
    → ((q : HttpRequest) (s : k.State) → IsHarmless q → P s → P (k.tell q s).1)
    → (host : Host) (w w' : World (runtime_of k)) → Reach (runtime_of k) host w w'
    → On (runtime_of k) P w
    → On (runtime_of k) P w'
Reach-harmless k P keep host w w' path p =
    Reach-On (runtime_of k) host P (runtime_of-IsKept k P keep) path p
