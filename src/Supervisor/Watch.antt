-- ===== src/Supervisor/Watch.antt =====
-- supervisor/supervisor.go: `watchRuntime`, the events of the runtime across dropped streams, and
-- `Adopt`, which begins with what the files declare.
--
-- The runtime keeps a log of what it announces and replays it from an instant on: `log` is that
-- list, and a connection is how many of the events that are due it brings before it drops, and
-- whether it drops with an error. `seen` is the model's own: the events that were handled.
pub mod Resumed
use hostd.Base.{
  ℕ, ◌+◌, Bool, true, false, not, ◌||◌, Option, none, some, List, [], ◌∷◌, ◌++◌, Text, codes, Map,
  lookup, leb, take, keep_if, is_some, if◌then◌else◌,
}
use hostd.Service.{Service}
use hostd.Supervisor.{
  Runtime, World, Held, containers, declare, event, report_once, clear_report, runtime_error,
}
use hostd.Supervisor.Act.{Act, ◌>>=◌, ◌>>◌, pure, change, expect, ok, Outcome}
use hostd.Supervisor.Drift.{runtime_event}

-- `docker.Event`
pub record Announced : Type 0 where
  pub action : Text
  pub id : Text
  pub at : ℕ
  pub attributes : Map Text

-- What the runtime replays from an instant on.
unfoldable pub due : ℕ → List Announced → List Announced
due since = keep_if (λ e. leb since e.at)

pub record Watching (r : Runtime) : Type 0 where
  pub since : ℕ
  pub world : World r
  pub seen : List Announced

module _ {r : Runtime} where
  -- One event: the next stream resumes after it.
  unfoldable pub handle_event : Announced → Watching r → Watching r
  handle_event e x = record {
    since = e.at + 1;
    world = runtime_event e.action e.attributes (clear_report (codes "runtime.events") x.world);
    seen = x.seen ++ e ∷ [];
  }

  unfoldable pub handle_events : List Announced → Watching r → Watching r
  unfolding handle_event
  handle_events [] x = x
  handle_events (e ∷ es) x = handle_events es (handle_event e x)

  -- One stream, with the report of how it ended.
  unfoldable pub watch_stream : List Announced → ℕ → Bool → Watching r → Watching r
  unfolding due handle_events
  watch_stream log brought failing x =
      let x' = handle_events (take brought (due x.since log)) x in
      if failing
      then record x' {
        world =
            report_once (codes "runtime.events") (codes "cannot follow the runtime's events")
              x'.world;
      }
      else x'

  -- The loop of `watchRuntime`.
  unfoldable pub watch_runtime : List Announced → List (ℕ × Bool) → Watching r → Watching r
  unfolding watch_stream
  watch_runtime log [] x = x
  watch_runtime log ((brought, failing) ∷ streams) x =
      watch_runtime log streams (watch_stream log brought failing x)

  unfoldable pub adopt_declared : List Service → World r → World r
  adopt_declared [] w = w
  adopt_declared (s ∷ ss) w = adopt_declared ss (declare s.name s w)

  -- A container that runs and that no file declares is said.
  unfoldable pub say_orphan : Held → World r → World r
  unfolding lookup
  say_orphan h w =
      if is_some (lookup h.service w.declared) || not h.container.running
      then w
      else event (codes "service.orphan") h.service w

  unfoldable pub say_orphans : List Held → World r → World r
  unfolding say_orphan
  say_orphans [] w = w
  say_orphans (h ∷ hs) w = say_orphans hs (say_orphan h w)

  -- `Adopt`, after the declarations are in.
  unfoldable pub adopt_running : Option (List Held) → Act r (Unit {0})
  unfolding say_orphans
  adopt_running found w = (do hs ← expect runtime_error found; change (say_orphans hs)) w

  -- `Adopt`
  unfoldable pub adopt : List Service → Act r (Unit {0})
  unfolding adopt_declared adopt_running
  adopt ss w =
      let w' = adopt_declared ss w in
      if w'.has_runtime then adopt_running (containers w') w' else pure tt w'
