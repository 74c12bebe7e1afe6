-- ===== src/Supervisor/Apply.antt =====
-- `Apply` of supervisor/commands.go: the plan, carried out change by change.
pub mod Settled
use hostd.Base.{
  Bool, true, false, Option, none, some, List, [], ◌∷◌, Text, codes, beq, if◌then◌else◌, Map,
  lookup, insert, delete, get_or,
}
use hostd.Service.{Service, empty_service, want_running, is_job}
use hostd.Supervisor.{Runtime, World, containers, event, nudge, declare}
use hostd.Supervisor.Plan.{Change, plan, wanted_of, action_remove}
use hostd.Supervisor.Act.{Outcome, ok, err, Act, pure, ignore, tell}
use hostd.Supervisor.Containers.{Host, container_name, create, retire}
use hostd.Supervisor.Commands.{stop, undeclare}

module _ {r : Runtime} where
  open r use {remove as remove_container}

  -- `_ = client.Remove(...)`, if there is a client.
  unfoldable pub drop_container : Text → World r → World r
  drop_container name w =
      let m =
        if w.has_runtime then ignore (tell (remove_container (container_name name))) else pure tt in
      (m w).1

  -- A change that takes a service away, after what `Stop` answered.
  unfoldable pub after_stop : Text → Outcome Bool → World r → World r
  unfolding drop_container undeclare
  after_stop name (err e) w = event (codes "hostd.problem") name w
  after_stop name (ok moved) w = undeclare name (drop_container name w)

  unfoldable pub apply_remove : Text → World r → World r
  unfolding after_stop
  apply_remove name w = let (o, w') = stop name w in after_stop name o w'

  -- What `create` answered: an error is an event.
  unfoldable pub report_failed : Text → Outcome (Unit {0}) → World r → World r
  report_failed name (err e) w = event (codes "hostd.problem") name w
  report_failed name (ok u) w = w

  -- A change that adds or updates a service.
  unfoldable pub apply_set : Host → Text → Service → World r → World r
  unfolding report_failed
  apply_set host name s w =
      let declared = declare name s w in
      if is_job s
      then (retire s declared).1
      else (let (o, w') = create host s (want_running s) declared in report_failed name o w')

  unfoldable pub apply_change : Host → Map Service → Change → World r → World r
  unfolding apply_remove apply_set
  apply_change host wanted c w =
      if beq c.action action_remove
      then apply_remove c.service w
      else apply_set host c.service (get_or empty_service (lookup c.service wanted)) w

  unfoldable pub apply_each : Host → Map Service → List Change → World r → World r
  apply_each host wanted [] w = w
  apply_each host wanted (c ∷ cs) w = apply_each host wanted cs (apply_change host wanted c w)

  -- Every file's declaration, also of a service that did not change.
  unfoldable pub declare_all : List Service → World r → World r
  declare_all [] w = w
  declare_all (s ∷ ss) w = declare_all ss (declare s.name s w)

  -- The changes are planned on the world as it is found.
  unfoldable pub changes_of : List Service → World r → List Change
  changes_of declared w = plan (containers w) w.declared declared

  -- `Apply`
  unfoldable pub apply : Host → List Service → World r → List Change × World r
  unfolding apply_each declare_all changes_of
  apply host declared w =
      let changes = changes_of declared w in
      let wanted = wanted_of declared [] in
      let applied = apply_each host wanted changes w in
      (
        changes,
        nudge (event (codes "config.applied") (codes "hostd") (declare_all declared applied)),
      )
