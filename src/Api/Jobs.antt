-- ===== src/Api/Jobs.antt =====
-- api/job.go: one turn of a job, because somebody asked. `instant` is the clock as the schedule
-- measures it.
use hostd.Base.{ℕ, ◌≡◌, refl, false, Option, none, some, [], ◌∷◌, Text}
use hostd.State.{Entry, ErrConflict, result_ok, result_failed, result_refused, check, record_locked}
use hostd.State.Generation.{moved_unchanged}
use hostd.Supervisor.{
  Runtime, Error, unknown_service, not_a_job, run_skipped, run_ceiling, no_backup, no_runtime,
  runtime_error, bad_declaration, image_missing,
}
use hostd.Supervisor.Act.{Outcome, ok, err}
use hostd.Supervisor.Containers.{Host}
use hostd.Supervisor.Schedule.{run_now}
use hostd.Api.{
  Code, accepted, invalid, conflict, not_known, failed, refused, Request, Response, Daemon,
  entry_of, respond, refuse,
}

module _ {r : Runtime} where
  -- `runFailed`: what the caller did wrong is refused, anything else has failed.
  unfoldable pub run_failed : Entry → Error → Daemon r → Response × Daemon r
  run_failed e (unknown_service name) d = refuse e not_known d
  run_failed e (not_a_job name) d = refuse e invalid d
  run_failed e run_skipped d = refuse e refused d
  run_failed e run_ceiling d = refuse e refused d
  run_failed e _ d = respond failed (record e { result = result_failed }) false d

  abbrev pub ran : Entry → Outcome Text → Daemon r → Response × Daemon r
  ran e (ok run) d = respond accepted (record e { result = result_ok }) false d
  ran e (err x) d = run_failed e x d

  abbrev pub run_checked :
      Host → ℕ → Entry → Text → Option ErrConflict → Daemon r → Response × Daemon r
  run_checked host instant e name (some claim) d = refuse e conflict d
  run_checked host instant e name none d =
      let (o, w) = run_now host name instant d.world in ran e o (record d { world = w })

  -- `runJob`, of the job's name.
  unfoldable pub run_job : Host → ℕ → Request → Text → Text → Daemon r → Response × Daemon r
  run_job host instant req actor [] d =
      (record { code = invalid; generation = d.store.generation }, d)
  run_job host instant req actor (c ∷ cs) d =
      run_checked host instant (entry_of req actor (c ∷ cs)) (c ∷ cs)
        (check d.store req.expect_generation) d

module _ {r : Runtime} where
  -- The generation is what it was, in the answer and in the store.
  abbrev pub IsUnmoved : Daemon r → Response × Daemon r → Type 0
  IsUnmoved d (resp, d') =
      (resp.generation ≡ d.store.generation) × (d'.store.generation ≡ d.store.generation)

  respond-IsUnmoved :
      (code : Code) (e : Entry) (d : Daemon r) → IsUnmoved d (respond code e false d)
  unfolding respond record_locked
  respond-IsUnmoved code e d = (moved_unchanged d.store e.result, moved_unchanged d.store e.result)

  refuse-IsUnmoved : (e : Entry) (code : Code) (d : Daemon r) → IsUnmoved d (refuse e code d)
  unfolding refuse
  refuse-IsUnmoved e code d = respond-IsUnmoved code (record e { result = result_refused }) d

  failed-IsUnmoved :
      (e : Entry) (d : Daemon r)
      → IsUnmoved d (respond failed (record e { result = result_failed }) false d)
  failed-IsUnmoved e d = respond-IsUnmoved failed (record e { result = result_failed }) d

  run_failed-IsUnmoved : (e : Entry) (x : Error) (d : Daemon r) → IsUnmoved d (run_failed e x d)
  unfolding run_failed
  run_failed-IsUnmoved e (unknown_service name) d = refuse-IsUnmoved e not_known d
  run_failed-IsUnmoved e (not_a_job name) d = refuse-IsUnmoved e invalid d
  run_failed-IsUnmoved e run_skipped d = refuse-IsUnmoved e refused d
  run_failed-IsUnmoved e run_ceiling d = refuse-IsUnmoved e refused d
  run_failed-IsUnmoved e (no_backup name) d = failed-IsUnmoved e d
  run_failed-IsUnmoved e no_runtime d = failed-IsUnmoved e d
  run_failed-IsUnmoved e runtime_error d = failed-IsUnmoved e d
  run_failed-IsUnmoved e bad_declaration d = failed-IsUnmoved e d
  run_failed-IsUnmoved e image_missing d = failed-IsUnmoved e d

  -- A turn of a job that was asked for never moves the generation, whatever comes of it.
  pub run_job-IsUnmoved :
      (host : Host) (instant : ℕ) (req : Request) (actor name : Text) (d : Daemon r)
      → IsUnmoved d (run_job host instant req actor name d)
  unfolding run_job
  run_job-IsUnmoved host instant req actor [] d = (refl, refl)
  run_job-IsUnmoved host instant req actor (c ∷ cs) d =
      let e = entry_of req actor (c ∷ cs) in
      checked host instant e (c ∷ cs) (check d.store req.expect_generation) d
    where
      answered : (e : Entry) (o : Outcome Text) (d : Daemon r) → IsUnmoved d (ran e o d)
      answered e (ok run) d = respond-IsUnmoved accepted (record e { result = result_ok }) d
      answered e (err x) d = run_failed-IsUnmoved e x d

      checked :
          (host : Host) (instant : ℕ) (e : Entry) (name : Text) (claim : Option ErrConflict)
          (d : Daemon r)
          → IsUnmoved d (run_checked host instant e name claim d)
      checked host instant e name (some claim) d = refuse-IsUnmoved e conflict d
      checked host instant e name none d =
          let (o, w) = run_now host name instant d.world in answered e o (record d { world = w })
