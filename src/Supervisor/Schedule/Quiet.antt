-- ===== src/Supervisor/Schedule/Quiet.antt =====
-- Starting a run leaves the declarations and the slots alone.
use hostd.Base.{
  length, ltb, ◌&&◌, ℕ, refl, Bool, true, false, Option, none, some, List, [], Text, beq, leb,
  if◌then◌else◌, insert,
}
use hostd.Service.{Service, overlap_skip, parallel}
use hostd.Supervisor.{
  Runtime, World, Held, run_skipped, run_ceiling, report_once, clear_report, containers,
}
use hostd.Supervisor.Act.{Outcome, ok, err}
use hostd.Supervisor.Act.Keeps.{
  Quiet, Quiet-trans, Quiet-event, Keeps, Keeps-pure, Keeps-fail, Keeps-ask, Keeps-if, Keeps-bind,
  Keeps-then, Keeps-tell, Keeps-change,
}
use hostd.Supervisor.Containers.{Host}
use hostd.Supervisor.Commands.Quiet.{Keeps-prepare_mounts, Keeps-start_created, Keeps-event}
use hostd.Supervisor.Schedule.{
  runs_of, create_run, refuse_run, await, created, begin_run, start_among, start_run,
}

module _ {r : Runtime} where
  pub Quiet-if : (b : Bool) (u v w : World r) → Quiet u v → Quiet u w → Quiet u (if b then v else w)
  Quiet-if true u v w p q = p
  Quiet-if false u v w p q = q

  pub Quiet-report_once : (name text : Text) (w : World r) → Quiet w (report_once name text w)
  unfolding report_once
  Quiet-report_once name text w =
      let noted = record w { reported = insert name text w.reported } in
      let same : Quiet w noted = record {
        declared = refl;
        fired = refl;
        has_runtime = refl;
        events = λ e i. i;
      } in
      Quiet-if _ w _ _ same (Quiet-trans w _ _ same (Quiet-event _ name [] noted))

  pub Quiet-clear_report : (name : Text) (w : World r) → Quiet w (clear_report name w)
  unfolding clear_report
  Quiet-clear_report name w = record {
    declared = refl;
    fired = refl;
    has_runtime = refl;
    events = λ e i. i;
  }

  Keeps-created : (s : Service) (slot : ℕ) (o : Outcome Text) → Keeps (created {r = r} s slot o)
  unfolding created await
  Keeps-created s slot (err e) =
      Keeps-then _ _ (Keeps-change _ (Quiet-report_once _ _)) (Keeps-fail e)
  Keeps-created s slot (ok id) = Keeps-then _ _ (Keeps-change _ (Quiet-clear_report _)) (
      Keeps-then _ _ (Keeps-change _ (Quiet-event _ _ _)) (
        Keeps-then _ _
          (Keeps-change _
            (λ w. record { declared = refl; fired = refl; has_runtime = refl; events = λ e i. i }))
          (Keeps-pure _)))

  Keeps-create_run : (host : Host) (s : Service) (slot : ℕ) → Keeps (create_run {r = r} host s slot)
  unfolding create_run
  Keeps-create_run host s slot = Keeps-bind _ _ (Keeps-prepare_mounts s) (λ ms.
      Keeps-then _ _ (Keeps-tell _) (
        Keeps-then _ _ (Keeps-tell _) (
          Keeps-bind _ _ (Keeps-ask _)
            (λ id. Keeps-then _ _ (Keeps-start_created id) (Keeps-pure id)))))

  Keeps-begin_run : (host : Host) (s : Service) (slot : ℕ) → Keeps (begin_run {r = r} host s slot)
  unfolding begin_run
  Keeps-begin_run host s slot = record {
    at = λ w.
        Quiet-trans w _ _ ((Keeps-create_run host s slot).at w) ((Keeps-created s slot _).at _);
  }

  Keeps-refuse_run : (name : Text) (e : _) → Keeps (refuse_run {r = r} name e)
  unfolding refuse_run
  Keeps-refuse_run name e = Keeps-then _ _ (Keeps-event _ _) (Keeps-fail e)

  Keeps-start_among :
      (host : Host) (s : Service) (slot : ℕ) (o : Option (List Held))
      → Keeps (start_among {r = r} host s slot o)
  unfolding start_among
  Keeps-start_among host s slot none =
      Keeps-then _ _ (Keeps-change _ (Quiet-report_once _ _)) (Keeps-fail _)
  Keeps-start_among host s slot (some found) =
      let live = length (runs_of s.name found) in
      Keeps-if (beq s.overlap overlap_skip && ltb 0 live) _ _ (Keeps-refuse_run s.name run_skipped)
        (Keeps-if (leb (parallel s) live) _ _ (Keeps-refuse_run s.name run_ceiling)
          (Keeps-begin_run host s slot))

  -- `startRun` leaves the declarations and the slots alone.
  pub Quiet-start_run :
      (host : Host) (s : Service) (slot : ℕ) (w : World r) → Quiet w (start_run host s slot w).1
  unfolding start_run
  Quiet-start_run host s slot w = (Keeps-start_among host s slot (containers w)).at w
