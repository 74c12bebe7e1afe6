-- ===== src/Docker/Transport.antt =====
-- docker/docker.go: `do`, `call` and `message`.
use hostd.Base.{
  Bool, true, false, Option, none, some, List, [], Text, ◌==◌, ltb, if◌then◌else◌, take,
}
use hostd.Strings.{is_empty, trim_space}
use hostd.Docker.{
  Json, Method, post, HttpRequest, Sent, lost, replied, Engine, unreachable, missing, rejected,
  undecodable, Answer, got, failed,
}

module _ {A B : Type 0} where
  -- `if err != nil { return err }`
  abbrev pub on_answer : Answer A → (A → Answer B) → Answer B
  on_answer (got a) f = f a
  on_answer (failed p) f = failed p

module _ {A : Type 0} where
  abbrev pub decoded : Option A → Answer A
  decoded none = failed undecodable
  decoded (some a) = got a

  abbrev pub to_option : Answer A → Option A
  to_option (got a) = some a
  to_option (failed p) = none

  abbrev pub succeeded : Answer A → Bool
  succeeded (got a) = true
  succeeded (failed p) = false

-- The answer of a call that a missing container makes no failure of.
unfoldable pub forgive : Answer Text → Answer Text
forgive (got body) = got body
forgive (failed (missing detail)) = got []
forgive (failed p) = failed p

-- A request with no body.
abbrev pub plain : Method → Text → List (Text × Text) → HttpRequest
plain method path query = record { method = method; path = path; query = query; body = none }

abbrev pub with_body : Text → List (Text × Text) → Json → HttpRequest
with_body path query body = record { method = post; path = path; query = query; body = some body }

module _ (k : Engine) where
  abbrev or_trimmed : Text → Option Text → Text
  or_trimmed body none = trim_space body
  or_trimmed body (some said) = if is_empty said then trim_space body else said

  -- `message`
  unfoldable pub message : Text → Text
  message body = or_trimmed body (k.message_field body)

  -- The end of `do`: what an answer means. An error is read to its first 4 KiB.
  unfoldable pub answer_of : Sent → Answer Text
  unfolding message
  answer_of (lost why) = failed (unreachable why)
  answer_of (replied r) =
      if ltb r.status 400
      then got r.body
      else if r.status == 404
      then failed (missing (message (take 4096 r.body)))
      else failed (rejected r.status (message (take 4096 r.body)))

  -- `call` of a request that only reads,
  unfoldable pub read_call : HttpRequest → k.State → Answer Text
  unfolding answer_of
  read_call q s = answer_of (k.ask q s)

  -- and of one that may change the daemon.
  unfoldable pub tell_call : HttpRequest → k.State → Answer Text × k.State
  unfolding answer_of
  tell_call q s = let (sent, s') = k.tell q s in (answer_of sent, s')
