-- ===== src/Docker/Attached.antt =====
-- The supervisor's runtime, as the client of docker/docker.go gives it.
pub mod Harmless
use hostd.Base.{Bool, Option, none, some, List, Text, Map}
use hostd.Supervisor.{Runtime, Container, Spec, Found, found, not_found, refused}
use hostd.Docker.{
  Engine, CallError, unreachable, missing, reported, rejected, undecodable, Answer, got, failed,
}
use hostd.Docker.Transport.{to_option, succeeded}
use hostd.Docker.Create.{create_container}
use hostd.Docker.Calls.{
  start_container, stop_container, remove_container, update_restart, inspect_container,
  list_containers, image_digest, ensure_network, ensure_volume,
}

-- `errors.Is(err, ErrNotFound)` is told from the other errors.
abbrev pub found_of : {A : Type 0} → Answer A → Found A
found_of (got a) = found a
found_of (failed (missing detail)) = not_found
found_of (failed p) = refused

module _ (k : Engine) where
  abbrev pub done_of : {A : Type 0} → Answer A × k.State → Bool × k.State
  done_of (answer, s) = (succeeded answer, s)

  abbrev pub value_of : {A : Type 0} → Answer A × k.State → Option A × k.State
  value_of (answer, s) = (to_option answer, s)

  abbrev pub runtime_of : Runtime
  runtime_of = record {
    State = k.State;
    list = λ label s. to_option (list_containers k label s);
    inspect = λ id s. found_of (inspect_container k id s);
    image = λ name s. found_of (image_digest k name s);
    create = λ spec s. value_of (create_container k spec s);
    start = λ id s. done_of (start_container k id s);
    stop = λ id grace s. done_of (stop_container k id grace s);
    remove = λ id s. done_of (remove_container k id s);
    update_restart = λ id policy s. done_of (update_restart k id policy s);
    ensure_network = λ name s. done_of (ensure_network k name s);
    ensure_volume = λ name labels s. done_of (ensure_volume k name labels s);
  }
