-- ===== src/Supervisor/Commands.antt =====
-- supervisor/commands.go: what an operator asks of the supervisor.
pub mod Quiet
use hostd.Base.{
  ℕ, Bool, true, false, not, ◌&&◌, ◌||◌, Option, none, some, List, [], ◌∷◌, Text, codes, beq,
  if◌then◌else◌, Map, lookup, insert, delete, get_or,
}
use hostd.Service.{Service, empty_service, stop_grace, want_running, is_job}
use hostd.Supervisor.{
  Runtime, World, Error, Container, Found, found, not_found, refused, Held, containers,
  unknown_service, no_runtime, runtime_error, event, nudge, declare,
}
use hostd.Supervisor.Plan.{Change, plan, wanted_of}
use hostd.Supervisor.Act.{
  Outcome, ok, err, Act, ◌>>=◌, ◌>>◌, pure, fail, expect, ignore, ask, change, stop_if, tell,
  need_runtime,
}
use hostd.Supervisor.Containers.{Host, container_name, create, retire, say_stopping}

-- The first container held for a service.
unfoldable pub held_for : Text → List Held → Option Held
held_for name [] = none
held_for name (h ∷ hs) = if beq h.service name then some h else held_for name hs

module _ {r : Runtime} where
  open r use {start as start_container, stop as stop_container, remove as remove_container}

  -- `heldBy`
  unfoldable pub held_by : Text → World r → Option Held
  unfolding held_for
  held_by name w = elim (containers w) [ none ↦ none | some hs ↦ held_for name hs ]

  -- The branches of `Start` on what the runtime says of the container.
  unfoldable pub start_found : Host → Service → Text → Found Container → Act r Bool
  start_found host s name not_found = create host s true >> pure true
  start_found host s name refused = fail runtime_error
  start_found host s name (found c) = if c.running then pure false else (do
    tell (start_container c.id)
    change (event (codes "service.started") name)
    change nudge
    pure true)

  -- `Start`
  unfoldable pub start : Host → Text → Act r Bool
  start host name = do
    s ← (λ w. expect (unknown_service name) (lookup name w.declared) w)
    need_runtime
    λ w. start_found host s name (r.inspect (container_name name) w.machine) w

  -- The branches of `Stop`.
  unfoldable pub stop_found : Service → Text → Found Container → Act r Bool
  stop_found s name not_found = pure false
  stop_found s name refused = fail runtime_error
  stop_found s name (found c) =
      if c.running
      then (do
        change (say_stopping s)
        tell (stop_container c.id (stop_grace s))
        change (event (codes "service.stopped") name)
        change nudge
        pure true)
      else pure false

  -- A name is known if it is declared, or if a container on the machine is held for it.
  unfoldable pub is_known : Text → World r → Bool
  is_known name w = elim (lookup name w.declared) [
    | some s ↦ true
    | none ↦ elim (held_by name w) [ some h ↦ true | none ↦ false ]
  ]

  -- `Stop`. An undeclared name has Go's zero service.
  unfoldable pub stop : Text → Act r Bool
  stop name = do
    λ w. stop_if (not (is_known name w)) (unknown_service name) w
    s ← (λ w. pure (get_or (empty_service) (lookup name w.declared)) w)
    need_runtime
    λ w. stop_found s name (r.inspect (container_name name) w.machine) w

  -- `Deploy`
  unfoldable pub deploy : Host → Service → Act r Bool
  deploy host s = do
    need_runtime
    change (declare s.name s)
    retire s
    if is_job s
        then change nudge >> pure true
        else (do create host s (want_running s); change nudge; pure true)

  unfoldable pub undeclare : Text → World r → World r
  undeclare name w = record w { declared = delete name w.declared }

  -- `Remove`. An undeclared name has a service of that name and nothing else.
  unfoldable pub remove : Text → Act r Bool
  unfolding undeclare
  remove name = do
    λ w. stop_if (not (is_known name w)) (unknown_service name) w
    s ← (λ w. pure (get_or (record empty_service { name = name }) (lookup name w.declared)) w)
    need_runtime
    change (undeclare name)
    retire s
    change (event (codes "service.stopped") name)
    change nudge
    pure true

  -- `Restart`
  unfoldable pub restart : Host → Text → Act r Bool
  restart host name = do stopped ← stop name; started ← start host name; pure true
