-- ===== src/Supervisor/Await.antt =====
-- `awaitRun` of supervisor/schedule.go: the goroutine that waits for one run.
--
-- It moves in the pieces between which other goroutines run: the answer of `Wait`, what is written
-- down of it, the removal of the container, and the deferred end. Its timer is a goroutine of its
-- own, which calls `stopOverrun`. Between these the drift round's `adoptRuns` may run over any list of
-- containers, and every other goroutine may take any of the steps that operations are made of: call
-- the runtime, declare, report, put an event on record that is no end of this run, mark a container
-- as awaited, or forget another one.
pub mod Accounted
use hostd.Base.{
  ◌≢◌, ◌⊎◌, ◌++◌, All, ℕ, zero, suc, ◌+◌, Bool, true, false, ◌&&◌, ◌||◌, ◌≡◌, Option, none, some,
  List, [], ◌∷◌, Text, codes, beq, ltb, lookup, delete, if◌then◌else◌,
}
use hostd.Supervisor.{Runtime, World, Event, Held, label_run, add_event}
use hostd.Supervisor.Schedule.{await, run_limit_of}
use hostd.Supervisor.Drift.{label_of, adopt_runs, stop_overrun}

-- What `Wait` answers with.
pub data Waited : Type 0 where
  cancelled unreadable : Waited
  exited : ℕ → Waited

-- Where the goroutine is: in `Wait`, with its answer, with the end on record, at the deferred end,
-- and gone.
pub data WaitPhase : Type 0 where
  waiting noted leaving over : WaitPhase
  answered : Waited → WaitPhase

-- `armed` is the timer that has not fired; `removed` that the container was asked to go.
pub record Waiter (r : Runtime) : Type 0 where
  pub phase : WaitPhase
  pub armed : Bool
  pub removed : Bool
  pub world : World r

-- The ends of a run that are on record.
unfoldable pub finishes : Text → Text → List Event → ℕ
finishes service run [] = 0
finishes service run (e ∷ es) =
    let more = finishes service run es in
    if beq e.kind (codes "job.finished") && beq e.service service && beq e.run run
    then suc more
    else more

module _ {r : Runtime} where
  open r use {remove as remove_container}

  -- The deferred `delete(s.awaiting, id)`
  unfoldable pub forget : Text → World r → World r
  forget id w = record w { awaiting = delete id w.awaiting }

  -- The start of the goroutine.
  unfoldable pub begin_wait : Text → World r → Waiter r
  unfolding run_limit_of
  begin_wait service w = record {
    phase = if w.has_runtime then waiting else leaving;
    armed = w.has_runtime && ltb 0 (run_limit_of w.declared service);
    removed = false;
    world = w;
  }

  -- What is made of the answer; `going` is `s.leaving()`.
  unfoldable pub judge : Text → Text → Waited → Bool → Waiter r → Waiter r
  judge service run cancelled going x = record x { phase = leaving }
  judge service run unreadable going x = if going then record x { phase = leaving } else record x {
    phase = leaving;
    world = add_event (codes "job.finished") service run x.world;
  }
  judge service run (exited code) going x =
      if going
      then record x { phase = leaving }
      else record x { phase = noted; world = add_event (codes "job.finished") service run x.world }

  -- `_ = client.Remove(removeCtx, id)`
  unfoldable pub drop_run : Text → Waiter r → Waiter r
  drop_run id x = record x {
    phase = leaving;
    removed = true;
    world = record x.world { machine = (remove_container id x.world.machine).1 };
  }

  -- The deferred calls.
  unfoldable pub leave : Text → Waiter r → Waiter r
  unfolding forget
  leave id x = record x { phase = over; armed = false; world = forget id x.world }

  -- The timer's call.
  unfoldable pub ring : Text → Text → Text → Waiter r → Waiter r
  ring service run id x = record x { armed = false; world = stop_overrun service run id x.world }

-- A container is the run's own, or it is of another run.
abbrev pub IsApart : Text → Text → Text → Held → Type 0
IsApart service run id h =
    (h.container.id ≡ id) ⊎ ((beq h.service service && beq (label_of label_run h) run) ≡ false)

-- An event that is the end of a run.
unfoldable pub is_finish : Text → Text → Event → Bool
is_finish service run e =
    beq e.kind (codes "job.finished") && beq e.service service && beq e.run run

-- One move while the goroutine is there.
module _ {r : Runtime} (service run id : Text) where
  pub data Move : Waiter r → Waiter r → Type 0 where
    answers :
        (a : Waited) (x : Waiter r) → x.phase ≡ waiting → Move x (record x { phase = answered a })
    judges :
        (a : Waited) (going : Bool) (x : Waiter r)
        → x.phase ≡ answered a
        → Move x (judge service run a going x)
    drops : (x : Waiter r) → x.phase ≡ noted → Move x (drop_run id x)
    leaves : (x : Waiter r) → x.phase ≡ leaving → Move x (leave id x)
    rings : (x : Waiter r) → x.phase ≢ over → x.armed ≡ true → Move x (ring service run id x)
    adopts :
        (hs : List Held) (x : Waiter r)
        → x.phase ≢ over
        → All (IsApart service run id) hs
        → Move x (record x { world = adopt_runs hs x.world })
    works :
        (w : World r) (x : Waiter r)
        → x.phase ≢ over
        → w.events ≡ x.world.events
        → w.awaiting ≡ x.world.awaiting
        → Move x (record x { world = w })
    says :
        (e : Event) (x : Waiter r)
        → x.phase ≢ over
        → is_finish service run e ≡ false
        → Move x (record x { world = record x.world { events = x.world.events ++ e ∷ [] } })
    marks :
        (other : Text) (x : Waiter r)
        → x.phase ≢ over
        → Move x (record x { world = await other x.world })
    forgets :
        (other : Text) (x : Waiter r)
        → x.phase ≢ over
        → beq other id ≡ false
        → Move x (record x { world = forget other x.world })

  pub data Moves (x : Waiter r) : Waiter r → Type 0 where
    none_yet : Moves x x
    then_move : {y z : Waiter r} → Moves x y → Move y z → Moves x z
