-- ===== src/Supervisor/Status.antt =====
-- `Status` of supervisor/commands.go: what the machine runs, read against what is declared.
--
-- The prose of an error is a code of its kind.
use hostd.Base.{
  ℕ, ◌+◌, Bool, true, false, not, ◌&&◌, ◌||◌, ◌==◌, Option, none, some, List, [], ◌∷◌, ◌++◌, Text,
  codes, beq, text_le, if◌then◌else◌, Map, lookup, insert, ltb, sort, is_some,
}
use mathlib.Core.List.{map, filter_map}
use hostd.Strings.{is_empty}
use hostd.Service.{Service, empty_service, state_running, state_stopped, want_running, is_job}
use hostd.Supervisor.{Runtime, World, Container, Found, found, not_found, refused, Held, containers}
use hostd.Supervisor.Schedule.{unix_milli}

abbrev pub state_starting : Text
state_starting = codes "starting"

abbrev pub state_failed : Text
state_failed = codes "failed"

abbrev pub state_scheduled : Text
state_scheduled = codes "scheduled"

pub record Status : Type 0 where
  pub name : Text
  pub desired : Text
  pub state : Text
  pub pid : ℕ
  pub orphan : Bool
  pub since : ℕ
  pub runs : ℕ
  pub restarts : ℕ
  pub last_exit : ℕ
  pub last_error : Text
  pub image : Text
  pub digest : Text
  pub every : Text

abbrev pub empty_status : Status
empty_status = record {
  name = [];
  desired = [];
  state = [];
  pid = 0;
  orphan = false;
  since = 0;
  runs = 0;
  restarts = 0;
  last_exit = 0;
  last_error = [];
  image = [];
  digest = [];
  every = [];
}

-- `mapState`
unfoldable pub map_state : Container → Service → Text
map_state c s =
    if beq c.status (codes "running")
    then state_running
    else if beq c.status (codes "restarting")
    then state_starting
    else if beq c.status (codes "paused") || beq c.status (codes "dead")
    then state_failed
    else if beq c.status (codes "created")
    then (if want_running s then state_starting else state_stopped)
    else if beq c.restart (codes "always") || beq c.restart (codes "unless-stopped")
    then state_stopped
    else if not (c.exit == 0)
    then state_failed
    else state_stopped

-- `describe`, after what the runtime answered.
unfoldable pub described : Status → Service → Found Container → Status
unfolding map_state
described st s not_found = record st { last_error = codes "not found" }
described st s refused = record st { last_error = codes "runtime error" }
described st s (found c) =
    let state = map_state c s in
    record st {
      pid = c.pid;
      digest = c.digest;
      restarts = c.restarts;
      last_exit = c.exit;
      since = elim c.started [ none ↦ st.since | some t ↦ unix_milli t ];
      image = if is_empty st.image then c.image else st.image;
      state = state;
      last_error =
          if beq state state_failed && not (is_empty c.error) then c.error else st.last_error;
    }

-- The last container for each service.
unfoldable pub running_of : List Held → Map Held → Map Held
running_of [] running = running
running_of (h ∷ hs) running = running_of hs (insert h.service h running)

-- How many containers of a service are running.
unfoldable pub live_count : Text → List Held → ℕ
live_count name [] = 0
live_count name (h ∷ hs) =
    let rest = live_count name hs in
    if beq h.service name && h.container.running then rest + 1 else rest

-- What a job's status is, whatever its last container said.
unfoldable pub job_status : Status → Service → Text → ℕ → Status
job_status st s problem runs = record st {
  runs = runs;
  every = s.every;
  last_error = problem;
  state = if ltb 0 runs then state_running else state_scheduled;
  pid = if runs == 0 then 0 else st.pid;
  since = if runs == 0 then 0 else st.since;
}

unfoldable pub service_status : Status → Service → Text → Option Held → Status
service_status st s problem o =
    if not (is_some o) && (want_running s && is_empty problem)
    then record st { state = state_failed; last_error = codes "no container exists" }
    else st

-- By name.
abbrev pub status_le : Status → Status → Bool
status_le a b = text_le a.name b.name

module _ {r : Runtime} where
  -- `describe`
  unfoldable pub describe : World r → Status → Service → Held → Status
  unfolding described
  describe w st s h =
      if w.has_runtime then described st s (r.inspect h.container.id w.machine) else st

  unfoldable pub describe_held : World r → Status → Service → Option Held → Status
  unfolding describe
  describe_held w st s none = st
  describe_held w st s (some h) = describe w st s h

  -- The status of one declaration.
  unfoldable pub declared_status : World r → List Held → Text → Text × Service → Status
  unfolding describe_held job_status service_status live_count
  declared_status w hs problem (name, s) =
      let o = lookup name (running_of hs []) in
      let st = record empty_status {
        name = name;
        desired = s.state;
        image = s.image;
        state = state_stopped;
        last_error = problem;
      } in
      let told = describe_held w st s o in
      if is_job s
      then job_status told s problem (live_count name hs)
      else service_status told s problem o

  -- The status of a container that nobody declares.
  unfoldable pub orphan_status : World r → Text × Held → Option Status
  unfolding describe
  orphan_status w (name, h) =
      if is_some (lookup name w.declared)
      then none
      else some (
          describe w (record empty_status { name = name; orphan = true; state = state_stopped })
            empty_service h)

  unfoldable pub status_among : World r → List Held → Text → List Status
  unfolding declared_status orphan_status running_of
  status_among w hs problem = sort status_le (
      map (declared_status w hs problem) w.declared
      ++ filter_map (orphan_status w) (running_of hs []))

  -- The status after what the runtime answered about its containers.
  unfoldable pub status_of : World r → Option (List Held) → List Status
  status_of w none = status_among w [] (codes "runtime error")
  status_of w (some hs) = status_among w hs []

  -- `Status`
  unfoldable pub status : World r → List Status
  unfolding status_of
  status w = status_of w (containers w)
