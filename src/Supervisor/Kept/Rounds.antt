-- ===== src/Supervisor/Kept/Rounds.antt =====
-- The schedule and the drift round preserve what each call of the runtime preserves.
use hostd.Base.{
  ℕ, ltb, leb, length, ◌&&◌, ◌||◌, not, Bool, true, false, Option, none, some, List, [], ◌∷◌, Text,
  codes, Map, beq, lookup, insert, get_or, is_positive, pos_part,
}
use hostd.Strings.{is_empty}
use hostd.Service.{Service, want_running, is_job, interval, overlap_skip, parallel}
use hostd.Supervisor.{
  Runtime, World, Error, Container, Found, found, not_found, refused, Held, containers, label_run,
  report_once, clear_report, event, add_event, run_skipped, run_ceiling, unknown_service, not_a_job,
}
use hostd.Supervisor.Act.{Outcome, ok, err}
use hostd.Supervisor.Act.Holds.{
  IsKept, On, On-if, On-run, Holds, Holds-pure, Holds-fail, Holds-ask, Holds-if, Holds-bind,
  Holds-then, Holds-tell, Holds-here, Holds-expect, Holds-stop_if, Holds-need_runtime,
}
use hostd.Supervisor.Containers.{Host, restart_policy, create}
use hostd.Supervisor.Schedule.{
  runs_of, create_run, refuse_run, await, created, begin_run, start_among, start_run, run_now,
  set_fired, take_turn, fire_one, fire_each, fire_due, slot_of,
}
use hostd.Supervisor.Drift.{
  label_of, present_of, correct_policy, converge_policy, record_ended, finish_run, adopt_run,
  adopt_one, adopt_each, adopt_runs, report_created, observe_job, observe_service, observe_one,
  observe_each, observe_found, observe, grace_of, stop_overrun,
}
use hostd.Supervisor.Kept.Containers.{
  Holds-said, Holds-prepare_mounts, Holds-start_created, Holds-create, Holds-retire,
}

module _ (r : Runtime) (P : r.State → Type 0) (k : IsKept r P) where
  report_once-kept : (name text : Text) (w : World r) → On r P w → On r P (report_once name text w)
  unfolding report_once
  report_once-kept name text w p =
      let noted = record w { reported = insert name text w.reported } in
      let said = event (codes "hostd.problem") name noted in
      let same : On r P noted = record { at = p.at } in
      let heard : On r P said = record { at = p.at } in
      On-if r P (beq (get_or [] (lookup name w.reported)) text) noted said same heard

  clear_report-kept : (name : Text) (w : World r) → On r P w → On r P (clear_report name w)
  unfolding clear_report
  clear_report-kept name w p = record { at = p.at }

  set_fired-kept :
      (name : Text) (slot : ℕ) (w : World r) → On r P w → On r P (set_fired name slot w)
  unfolding set_fired
  set_fired-kept name slot w p = record { at = p.at }

  Holds-created : (s : Service) (slot : ℕ) (o : Outcome Text) → Holds r P (created s slot o)
  unfolding created await
  Holds-created s slot (err e) =
      Holds-then r P _ _
        (Holds-said r P k _ (λ w p. (report_once-kept _ _ w (record { at = p })).at))
        (Holds-fail r P e)
  Holds-created s slot (ok id) =
      Holds-then r P _ _
        (Holds-said r P k _ (λ w p. (clear_report-kept _ w (record { at = p })).at))
        (Holds-then r P _ _ (Holds-said r P k _ (λ w p. p))
          (Holds-then r P _ _ (Holds-said r P k _ (λ w p. p)) (Holds-pure r P _)))

  Holds-create_run : (host : Host) (s : Service) (slot : ℕ) → Holds r P (create_run host s slot)
  unfolding create_run
  Holds-create_run host s slot = Holds-bind r P _ _ (Holds-prepare_mounts r P k s) (λ ms.
      Holds-then r P _ _ (Holds-tell r P _ (k.ensure_network _)) (
        Holds-then r P _ _ (Holds-tell r P _ (k.remove _)) (
          Holds-bind r P _ _ (Holds-ask r P _ (k.create _))
            (λ id. Holds-then r P _ _ (Holds-start_created r P k id) (Holds-pure r P id)))))

  Holds-refuse_run : (name : Text) (e : Error) → Holds r P (refuse_run name e)
  unfolding refuse_run
  Holds-refuse_run name e = Holds-then r P _ _ (Holds-said r P k _ (λ w p. p)) (Holds-fail r P e)

  Holds-begin_run : (host : Host) (s : Service) (slot : ℕ) → Holds r P (begin_run host s slot)
  unfolding begin_run
  Holds-begin_run host s slot = record {
    at = λ w p. (Holds-created s slot _).at _ ((Holds-create_run host s slot).at w p);
  }

  Holds-start_among :
      (host : Host) (s : Service) (slot : ℕ) (o : Option (List Held))
      → Holds r P (start_among host s slot o)
  unfolding start_among
  Holds-start_among host s slot none =
      Holds-then r P _ _
        (Holds-said r P k _ (λ w p. (report_once-kept _ _ w (record { at = p })).at))
        (Holds-fail r P _)
  Holds-start_among host s slot (some hs) =
      let live = length (runs_of s.name hs) in
      Holds-if r P (beq s.overlap overlap_skip && ltb 0 live) _ _
        (Holds-refuse_run s.name run_skipped)
        (Holds-if r P (leb (parallel s) live) _ _ (Holds-refuse_run s.name run_ceiling)
          (Holds-begin_run host s slot))

  pub start_run-kept :
      (host : Host) (s : Service) (slot : ℕ) (w : World r)
      → On r P w
      → On r P (start_run host s slot w).1
  unfolding start_run
  start_run-kept host s slot w p = On-run r P _ w (Holds-start_among host s slot (containers w)) p

  pub Holds-run_now : (host : Host) (name : Text) (now : ℕ) → Holds r P (run_now host name now)
  unfolding run_now
  Holds-run_now host name now =
      Holds-bind r P _ _ (Holds-here r P _ _ (λ o. Holds-expect r P (unknown_service name) o)) (λ s.
        Holds-then r P _ _ (Holds-stop_if r P (not (is_job s)) (not_a_job name)) (
          Holds-then r P _ _ (Holds-need_runtime r P)
            (record { at = λ w p. (start_run-kept host s now w (record { at = p })).at })))

  take_turn-kept :
      (host : Host) (s : Service) (name : Text) (slot : ℕ) (o : Option ℕ) (w : World r)
      → On r P w
      → On r P (take_turn host s name slot o w)
  unfolding take_turn
  take_turn-kept host s name slot none w p = set_fired-kept name slot w p
  take_turn-kept host s name slot (some last) w p =
      On-if r P _ _ _ p
        (start_run-kept host s slot (set_fired name slot w) (set_fired-kept name slot w p))

  fire_each-kept :
      (host : Host) (now : ℕ) (es : Map Service) (w : World r)
      → On r P w
      → On r P (fire_each host now es w)
  unfolding fire_each fire_one
  fire_each-kept host now [] w p = p
  fire_each-kept host now ((name, s) ∷ es) w p =
      fire_each-kept host now es (fire_one host now (name, s) w) (
        On-if r P (not (is_job s) || not (want_running s)) w _ p (
          On-if r P (not (is_positive (interval s))) w _ p (
            take_turn-kept host s name (slot_of now (pos_part (interval s))) (lookup name w.fired) w
              p)))

  pub fire_due-kept :
      (host : Host) (now : ℕ) (w : World r) → On r P w → On r P (fire_due host now w)
  unfolding fire_due
  fire_due-kept host now w p = On-if r P _ _ _ (fire_each-kept host now w.declared w p) p

  correct_policy-kept :
      (s : Service) (h : Held) (f : Found Container) (w : World r)
      → On r P w
      → On r P (correct_policy s h f w)
  unfolding correct_policy
  correct_policy-kept s h not_found w p = p
  correct_policy-kept s h refused w p = p
  correct_policy-kept s h (found c) w p =
      let m = (r.update_restart h.container.id (restart_policy s) w.machine).1 in
      let q : On r P (record w { machine = m }) = record {
        at = k.update_restart h.container.id (restart_policy s) w.machine p.at;
      } in
      let applied = event (codes "config.applied") s.name (record w { machine = m }) in
      let told : On r P applied = record { at = q.at } in
      On-if r P (beq c.restart (restart_policy s)) w _ p (
        On-if r P (r.update_restart h.container.id (restart_policy s) w.machine).0 applied _ told
          (report_once-kept s.name (codes "cannot set the restart policy") _ q))

  record_ended-kept :
      (run : Text) (h : Held) (f : Found Container) (w : World r)
      → On r P w
      → On r P (record_ended run h f w)
  unfolding record_ended
  record_ended-kept run h (found c) w p = record { at = p.at }
  record_ended-kept run h not_found w p = p
  record_ended-kept run h refused w p = p

  await-kept : (id : Text) (w : World r) → On r P w → On r P (await id w)
  unfolding await
  await-kept id w p = record { at = p.at }

  finish_run-kept : (run : Text) (h : Held) (w : World r) → On r P w → On r P (finish_run run h w)
  unfolding finish_run
  finish_run-kept run h w p = record {
    at =
        k.remove h.container.id _
          (record_ended-kept run h (r.inspect h.container.id w.machine) w p).at;
  }

  adopt_run-kept :
      (run : Text) (h : Held) (b : Bool) (w : World r) → On r P w → On r P (adopt_run run h b w)
  unfolding adopt_run
  adopt_run-kept run h true w p = p
  adopt_run-kept run h false w p =
      On-if r P h.container.running _ _ (await-kept h.container.id w p) (finish_run-kept run h w p)

  adopt_one-kept : (h : Held) (w : World r) → On r P w → On r P (adopt_one h w)
  unfolding adopt_one
  adopt_one-kept h w p = On-if r P (is_empty (label_of label_run h)) w _ p (
      adopt_run-kept (label_of label_run h) h (get_or false (lookup h.container.id w.awaiting)) w p)

  pub adopt_each-kept : (hs : List Held) (w : World r) → On r P w → On r P (adopt_each hs w)
  unfolding adopt_each
  adopt_each-kept [] w p = p
  adopt_each-kept (h ∷ hs) w p = adopt_each-kept hs _ (adopt_one-kept h w p)

  report_created-kept :
      (name : Text) (o : Outcome (Unit {0})) (w : World r)
      → On r P w
      → On r P (report_created name o w)
  unfolding report_created
  report_created-kept name (err e) w p = report_once-kept _ _ w p
  report_created-kept name (ok u) w p = clear_report-kept name w p

  converge_policy-kept :
      (s : Service) (h : Held) (w : World r) → On r P w → On r P (converge_policy s h w)
  unfolding converge_policy
  converge_policy-kept s h w p =
      On-if r P w.has_runtime _ _ (correct_policy-kept s h (r.inspect h.container.id w.machine) w p)
        p

  observe_job-kept :
      (s : Service) (o : Option Held) (w : World r) → On r P w → On r P (observe_job s o w)
  unfolding observe_job
  observe_job-kept s none w p = p
  observe_job-kept s (some stray) w p = On-run r P _ w (Holds-retire r P k s) p

  observe_service-kept :
      (host : Host) (name : Text) (s : Service) (o : Option Held) (w : World r)
      → On r P w
      → On r P (observe_service host name s o w)
  unfolding observe_service
  observe_service-kept host name s (some h) w p = converge_policy-kept s h w p
  observe_service-kept host name s none w p = On-if r P (not (want_running s)) w _ p (
      report_created-kept name (create host s true w).0 (create host s true w).1
        (On-run r P _ w (Holds-create r P k host s true) p))

  pub observe_each-kept :
      (host : Host) (present : Map Held) (es : Map Service) (w : World r)
      → On r P w
      → On r P (observe_each host present es w)
  unfolding observe_each observe_one
  observe_each-kept host present [] w p = p
  observe_each-kept host present ((name, s) ∷ es) w p =
      observe_each-kept host present es (observe_one host present (name, s) w) (
        On-if r P (is_job s) _ _ (observe_job-kept s (lookup name present) w p)
          (observe_service-kept host name s (lookup name present) w p))

  adopt_runs-kept : (hs : List Held) (w : World r) → On r P w → On r P (adopt_runs hs w)
  unfolding adopt_runs
  adopt_runs-kept hs w p = On-if r P w.has_runtime _ w (adopt_each-kept hs w p) p

  observe_found-kept :
      (host : Host) (o : Option (List Held)) (w : World r)
      → On r P w
      → On r P (observe_found host o w)
  unfolding observe_found
  observe_found-kept host none w p = report_once-kept _ _ w p
  observe_found-kept host (some hs) w p =
      observe_each-kept host (present_of hs []) (adopt_runs hs w).declared (adopt_runs hs w)
        (adopt_runs-kept hs w p)

  pub observe-kept : (host : Host) (w : World r) → On r P w → On r P (observe host w)
  unfolding observe
  observe-kept host w p = On-if r P w.has_runtime _ w (observe_found-kept host (containers w) w p) p

  pub stop_overrun-kept :
      (name run id : Text) (w : World r) → On r P w → On r P (stop_overrun name run id w)
  unfolding stop_overrun
  stop_overrun-kept name run id w p =
      let said = add_event (codes "job.overran") name run w in
      let (done, m) = r.stop id (grace_of w.declared name) said.machine in
      let stopped = record said { machine = m } in
      let q : On r P stopped = record {
        at = k.stop id (grace_of w.declared name) w.machine p.at;
      } in
      On-if r P w.has_runtime _ w
        (On-if r P done stopped _ q
          (report_once-kept name (codes "could not be stopped") stopped q))
        p
