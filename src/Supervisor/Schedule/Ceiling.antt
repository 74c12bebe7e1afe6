-- ===== src/Supervisor/Schedule/Ceiling.antt =====
-- How many runs of a job there can be at once.
use hostd.Base.{
  ℕ, ◌<◌, ◌≡◌, ◌≢◌, refl, sym, ◌∙◌, ap, Bool, true, false, ◌&&◌, none, some, List, Text, arith, beq,
  ltb, leb, length, if◌then◌else◌, is_positive, pos_part, Option-cases, inl, inr,
}
use native.Mathlib.Nat.{div-eq_of_lt}
use hostd.Service.{Service, overlap_skip, parallel}
use hostd.Supervisor.{
  Runtime, World, Error, Held, containers, run_skipped, run_ceiling, runtime_error,
}
use hostd.Supervisor.Act.{ok, err, Act, ◌>>=◌, ◌>>◌, fail, change}
use hostd.Supervisor.Containers.{Host}
use hostd.Supervisor.Schedule.{runs_of, refuse_run, start_among, start_run, begin_run}

-- What has to hold of the runs that are going for another one to start.
pub record HasRoom (s : Service) (found : List Held) : Type 0 where
  pub below : length (runs_of s.name found) < parallel s
  pub alone : beq s.overlap overlap_skip ≡ true → length (runs_of s.name found) ≡ 0

module _ {r : Runtime} where
  refuse_run-err : (name : Text) (e : Error) (w : World r) → (refuse_run name e w).0 ≡ err e
  unfolding refuse_run ◌>>◌ ◌>>=◌ change fail
  refuse_run-err name e w = refl

  passed :
      (a b : Bool) (x y z : Act r Text) (w : World r) (e e' : Error) (id : Text)
      → (x w).0 ≡ err e
      → (y w).0 ≡ err e'
      → ((if a then x else if b then y else z) w).0 ≡ ok id
      → (a ≡ false) × (b ≡ false)
  passed true b x y z w e e' id p q h = absurd (cc (p, h))
  passed false true x y z w e e' id p q h = absurd (cc (q, h))
  passed false false x y z w e e' id p q h = (refl, refl)

  start_among-HasRoom :
      (host : Host) (s : Service) (slot : ℕ) (found : List Held) (w : World r) (id : Text)
      → (start_among host s slot (some found) w).0 ≡ ok id
      → HasRoom s found
  unfolding start_among
  start_among-HasRoom host s slot found w id h =
      let (skip, full) =
        passed (beq s.overlap overlap_skip && ltb 0 (length (runs_of s.name found)))
          (leb (parallel s) (length (runs_of s.name found))) (refuse_run s.name run_skipped)
          (refuse_run s.name run_ceiling) (begin_run host s slot) w run_skipped run_ceiling id
          (refuse_run-err s.name run_skipped w) (refuse_run-err s.name run_ceiling w) h in
      record { below = ground arith; alone = λ e. ground arith }

  unanswered :
      (host : Host) (s : Service) (slot : ℕ) (w : World r)
      → (start_among host s slot none w).0 ≡ err runtime_error
  unfolding start_among ◌>>◌ ◌>>=◌ change fail
  unanswered host s slot w = refl

  -- A run starts only if the runtime answered which containers there are, fewer runs of the
  -- service are going than its ceiling, and none where it is declared "skip".
  pub start_run-HasRoom :
      (host : Host) (s : Service) (slot : ℕ) (w : World r) (id : Text)
      → (start_run host s slot w).0 ≡ ok id
      → (found : List Held) × (containers w ≡ some found) × HasRoom s found
  unfolding start_run
  start_run-HasRoom host s slot w id h = elim (Option-cases (containers w)) [
    | inl unknown ↦ absurd (cc (h, unknown, unanswered host s slot w))
    | inr (found, answer) ↦ (
      found,
      answer,
      start_among-HasRoom host s slot found w id
          (sym (ap (λ o. (start_among host s slot o w).0) answer) ∙ h),
    )
  ]

  -- A ceiling between none and one, which the validation lets through, is a ceiling of no run:
  -- no run of such a job ever starts.
  pub start_run-fraction :
      (host : Host) (s : Service) (slot : ℕ) (w : World r) (id : Text)
      → is_positive s.max_parallel ≡ true
      → pos_part s.max_parallel < 1000
      → (start_run host s slot w).0 ≢ ok id
  start_run-fraction host s slot w id h k started =
      let (found, answer, room) = start_run-HasRoom host s slot w id started in
      let below = room.below in unfold parallel in ground (arith, div-eq_of_lt k)
