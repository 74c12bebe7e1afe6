-- ===== src/Supervisor/Drift.antt =====
-- The drift round of supervisor/supervisor.go, the runs it adopts and the events of the runtime.
--
-- `follow`, which reads what containers print, changes nothing of the world and is left out; the
-- goroutine that waits for a run is the entry under `awaiting`.
use hostd.Base.{
  ℕ, Bool, true, false, not, Option, none, some, List, [], ◌∷◌, Text, codes, beq, if◌then◌else◌,
  Map, lookup, insert, get_or,
}
use hostd.Strings.{is_empty}
use hostd.Service.{Service, stop_grace, default_stop_timeout, want_running, is_job}
use hostd.Supervisor.{
  Runtime, World, Container, Found, found, not_found, refused, Held, containers, label_service,
  label_run, add_event, event, report_once, clear_report,
}
use hostd.Supervisor.Act.{Outcome, ok, err}
use hostd.Supervisor.Containers.{Host, restart_policy, create, retire}
use hostd.Supervisor.Schedule.{await}

abbrev pub label_of : Text → Held → Text
label_of label h = get_or [] (lookup label h.container.labels)

-- The last container that is no run, for each service.
unfoldable pub present_of : List Held → Map Held → Map Held
present_of [] present = present
present_of (h ∷ hs) present =
    if not (is_empty (label_of label_run h))
    then present_of hs present
    else present_of hs (insert h.service h present)

-- The patience of a run: its service's, if that is still declared.
unfoldable pub grace_of : Map Service → Text → ℕ
unfolding lookup
grace_of declared name = elim (lookup name declared) [
  | none ↦ default_stop_timeout
  | some s ↦ stop_grace s
]

module _ {r : Runtime} where
  open r use {inspect, stop as stop_container, remove as remove_container, update_restart}

  -- A policy that has drifted, after what the runtime answered.
  unfoldable pub correct_policy : Service → Held → Found Container → World r → World r
  correct_policy s h not_found w = w
  correct_policy s h refused w = w
  correct_policy s h (found c) w =
      if beq c.restart (restart_policy s)
      then w
      else (let (done, m) = update_restart h.container.id (restart_policy s) w.machine in
          let w' = record w { machine = m } in
          if done
          then event (codes "config.applied") s.name w'
          else report_once s.name (codes "cannot set the restart policy") w')

  -- `convergePolicy`
  unfoldable pub converge_policy : Service → Held → World r → World r
  unfolding correct_policy
  converge_policy s h w =
      if w.has_runtime then correct_policy s h (inspect h.container.id w.machine) w else w

  -- A run that ended while no daemon was watching.
  unfoldable pub record_ended : Text → Held → Found Container → World r → World r
  record_ended run h (found c) w = add_event (codes "job.finished") h.service run w
  record_ended run h not_found w = w
  record_ended run h refused w = w

  unfoldable pub finish_run : Text → Held → World r → World r
  unfolding record_ended
  finish_run run h w =
      let w' = record_ended run h (inspect h.container.id w.machine) w in
      record w' { machine = (remove_container h.container.id w'.machine).1 }

  unfoldable pub adopt_run : Text → Held → Bool → World r → World r
  adopt_run run h true w = w
  adopt_run run h false w =
      if h.container.running then await h.container.id w else finish_run run h w

  unfoldable pub adopt_one : Held → World r → World r
  unfolding lookup
  adopt_one h w =
      if is_empty (label_of label_run h)
      then w
      else adopt_run (label_of label_run h) h (get_or false (lookup h.container.id w.awaiting)) w

  unfoldable pub adopt_each : List Held → World r → World r
  unfolding adopt_one
  adopt_each [] w = w
  adopt_each (h ∷ hs) w = adopt_each hs (adopt_one h w)

  -- `adoptRuns`
  unfoldable pub adopt_runs : List Held → World r → World r
  unfolding adopt_each
  adopt_runs hs w = if w.has_runtime then adopt_each hs w else w

  unfoldable pub report_created : Text → Outcome (Unit {0}) → World r → World r
  report_created name (err e) w = report_once name (codes "cannot start") w
  report_created name (ok u) w = clear_report name w

  -- A job has no container of its own.
  unfoldable pub observe_job : Service → Option Held → World r → World r
  observe_job s none w = w
  observe_job s (some stray) w = (retire s w).1

  unfoldable pub observe_service : Host → Text → Service → Option Held → World r → World r
  unfolding report_created
  observe_service host name s (some h) w = converge_policy s h w
  observe_service host name s none w =
      if not (want_running s)
      then w
      else (let (o, w') = create host s true w in report_created name o w')

  -- One declaration of `observe`.
  unfoldable pub observe_one : Host → Map Held → Text × Service → World r → World r
  unfolding observe_job observe_service
  observe_one host present (name, s) w =
      if is_job s
      then observe_job s (lookup name present) w
      else observe_service host name s (lookup name present) w

  unfoldable pub observe_each : Host → Map Held → Map Service → World r → World r
  observe_each host present [] w = w
  observe_each host present (e ∷ es) w = observe_each host present es (observe_one host present e w)

  unfoldable pub observe_found : Host → Option (List Held) → World r → World r
  unfolding present_of observe_each
  observe_found host none w =
      report_once (codes "runtime") (codes "cannot ask the container runtime") w
  observe_found host (some hs) w =
      let adopted = adopt_runs hs w in observe_each host (present_of hs []) adopted.declared adopted

  -- `observe`
  unfoldable pub observe : Host → World r → World r
  unfolding observe_found
  observe host w = if w.has_runtime then observe_found host (containers w) w else w

  -- `runtimeEvent`, of the action and the attributes that the runtime announces.
  unfoldable pub runtime_event : Text → Map Text → World r → World r
  unfolding lookup
  runtime_event action attributes w =
      let name = get_or [] (lookup label_service attributes) in
      let run = get_or [] (lookup label_run attributes) in
      if is_empty name
      then w
      else if beq action (codes "oom")
      then add_event (codes "service.killed") name run w
      else if beq action (codes "die")
      then (if not (is_empty run) then w else add_event (codes "service.exited") name [] w)
      else w

  -- `stopOverrun`
  unfoldable pub stop_overrun : Text → Text → Text → World r → World r
  unfolding grace_of
  stop_overrun name run id w =
      if w.has_runtime
      then (let said = add_event (codes "job.overran") name run w in
          let (done, m) = stop_container id (grace_of w.declared name) said.machine in
          let stopped = record said { machine = m } in
          if done then stopped else report_once name (codes "could not be stopped") stopped)
      else w
