-- ===== src/Docker/Calls/Answers.antt =====
-- What the calls make of the daemon's answers.
use hostd.Base.{ℕ, ◌≡◌, refl, Bool, false, ◌||◌, [], ◌∷◌, Text, codes, arith, ltb, ◌==◌, ◌/◌}
use hostd.Supervisor.Schedule.{digits}
use hostd.Docker.{Sent, lost, replied, Engine, post, delete_method}
use hostd.Docker.Transport.{forgive, plain, answer_of, succeeded, tell_call}
use hostd.Docker.Calls.{start_container, stop_container, remove_container, container_path}

-- The daemon did what it was asked, by the status it answers with.
abbrev pub is_done : Sent → Bool
is_done (lost why) = false
is_done (replied r) = ltb r.status 400

-- The daemon says that there is no such container.
abbrev pub is_missing : Sent → Bool
is_missing (lost why) = false
is_missing (replied r) = r.status == 404

module _ (k : Engine) where
  answer_of-done : (a : Sent) → succeeded (answer_of k a) ≡ is_done a
  unfolding answer_of
  answer_of-done (lost why) = refl
  answer_of-done (replied r) = ground arith

  forgive-answer_of : (a : Sent) → succeeded (forgive (answer_of k a)) ≡ (is_done a || is_missing a)
  unfolding answer_of forgive
  forgive-answer_of (lost why) = refl
  forgive-answer_of (replied r) = ground arith

  -- What the daemon answers to the three requests.
  abbrev pub start_answer : Text → k.State → Sent
  start_answer id s = (k.tell (plain post (container_path k id (codes "/start")) []) s).0

  abbrev pub stop_answer : Text → ℕ → k.State → Sent
  stop_answer id grace s =
      (k.tell
        (plain post (container_path k id (codes "/stop"))
          ((codes "t", digits 19 (grace / 1_000_000_000) []) ∷ []))
        s).0

  abbrev pub remove_answer : Text → k.State → Sent
  remove_answer id s =
      (k.tell
        (plain delete_method (container_path k id [])
          ((codes "force", codes "true") ∷ (codes "v", codes "false") ∷ []))
        s).0

  -- Whatever the daemon answers, starting a container succeeds exactly when the status is below
  -- 400, while stopping one, which names the grace in whole seconds, and removing one, which asks
  -- for its volumes to stay, also succeed when it is 404: a container that is gone is stopped and
  -- removed already.
  pub calls_table :
      (id : Text) (grace : ℕ) (s : k.State)
      → (succeeded (start_container k id s).0 ≡ is_done (start_answer id s))
        × (succeeded (stop_container k id grace s).0
            ≡ (is_done (stop_answer id grace s) || is_missing (stop_answer id grace s)))
        × (succeeded (remove_container k id s).0
            ≡ (is_done (remove_answer id s) || is_missing (remove_answer id s)))
  unfolding start_container stop_container remove_container tell_call
  calls_table id grace s = (
    answer_of-done (start_answer id s),
    forgive-answer_of (stop_answer id grace s),
    forgive-answer_of (remove_answer id s),
  )
