-- ===== src/Api.antt =====
-- api/server.go: how a request that changes the machine is claimed, refused, carried out and
-- recorded.
--
-- A response keeps its code and its generation; its body, which shows the changes or the statuses
-- and is taken to be rendered, is left out, and so are the prose of a response and of an entry.
-- What `LoadDir` read is an argument: the declarations, and whether any file could not be read.
pub mod Jobs
pub mod Files
pub mod Versions
pub mod Guard
pub mod Images
pub mod Declaration
use hostd.Base.{
  ℕ, Bool, true, false, not, ◌&&◌, Option, none, some, List, [], ◌∷◌, Text, codes, if◌then◌else◌,
}
use hostd.Service.{Service}
use hostd.State.{
  Store, Entry, empty_entry, ErrConflict, result_ok, result_refused, result_failed, check,
  record_locked,
}
use hostd.Supervisor.{Runtime, World, Error, unknown_service}
use hostd.Supervisor.Act.{Outcome, ok, err, Act}
use hostd.Supervisor.Containers.{Host}
use hostd.Supervisor.Plan.{Change, has_destructive}
use hostd.Supervisor.Apply.{apply, changes_of}

pub data Code : Type 0 where
  accepted invalid conflict destructive not_known failed refused : Code

pub record Request : Type 0 where
  pub operation : Text
  pub on_behalf_of : Text
  pub expect_generation : ℕ
  pub allow_destructive : Bool

pub record Response : Type 0 where
  pub code : Code
  pub generation : ℕ

-- The daemon: the store and the supervisor, at a reading of the clock.
pub record Daemon (r : Runtime) : Type 0 where
  pub store : Store
  pub world : World r
  pub now : ℕ

abbrev pub entry_of : Request → Text → Text → Entry
entry_of req actor target = record empty_entry {
  operation = req.operation;
  target = target;
  actor = actor;
  on_behalf_of = req.on_behalf_of;
}

-- `errors.AsType[supervisor.ErrUnknownService]`
abbrev pub is_unknown : Error → Bool
is_unknown (unknown_service name) = true
is_unknown _ = false

-- `len(applied) > 0`
abbrev pub is_changed : List Change → Bool
is_changed [] = false
is_changed (c ∷ cs) = true

module _ {r : Runtime} where
  -- The store records the entry, and the response carries the generation that it then has.
  unfoldable pub respond : Code → Entry → Bool → Daemon r → Response × Daemon r
  respond code e changed d =
      let s = record_locked d.store d.now e changed in
      (record { code = code; generation = s.generation }, record d { store = s })

  -- `refuse`
  unfoldable pub refuse : Entry → Code → Daemon r → Response × Daemon r
  unfolding respond
  refuse e code = respond code (record e { result = result_refused }) false

  -- The end of `mutate`: what the operation answered. A service that is not known is the caller's
  -- mistake, any other error a failure.
  unfoldable pub mutated : Entry → Outcome Bool → Daemon r → Response × Daemon r
  unfolding refuse respond
  mutated e (ok changed) d = respond accepted (record e { result = result_ok }) changed d
  mutated e (err x) d =
      if is_unknown x
      then refuse e not_known d
      else respond failed (record e { result = result_failed }) false d

  unfoldable pub mutate_checked :
      Entry → Text → Act r Bool → Option ErrConflict → Daemon r → Response × Daemon r
  unfolding mutated
  mutate_checked e name act (some claim) d = refuse e conflict d
  mutate_checked e name act none d =
      let (o, w) = act d.world in mutated e o (record d { world = w })

  -- `mutate`, of a service's name and an operation of the supervisor on it.
  unfoldable pub mutate : Request → Text → Text → Act r Bool → Daemon r → Response × Daemon r
  unfolding mutate_checked
  mutate req actor [] act d = (record { code = invalid; generation = d.store.generation }, d)
  mutate req actor (c ∷ cs) act d =
      mutate_checked (entry_of req actor (c ∷ cs)) (c ∷ cs) act
        (check d.store req.expect_generation) d

  -- An apply that went ahead.
  unfoldable pub apply_allowed : Host → Entry → List Service → Bool → Daemon r → Response × Daemon r
  unfolding respond
  apply_allowed host e declared unreadable d =
      let (applied, w) = apply host declared d.world in
      respond (if unreadable then failed else accepted) (record e { result = result_ok })
        (is_changed applied) (record d { world = w })

  unfoldable pub apply_checked :
      Host
      → Request
      → Entry
      → List Service
      → Bool
      → Option ErrConflict
      → Daemon r
      → Response × Daemon r
  unfolding apply_allowed refuse
  apply_checked host req e declared unreadable (some claim) d = refuse e conflict d
  apply_checked host req e declared unreadable none d =
      if has_destructive (changes_of declared d.world) && not req.allow_destructive
      then refuse e destructive d
      else apply_allowed host e declared unreadable d

  -- The request `apply`, on the services directory and what was read of it.
  unfoldable pub apply_request :
      Host → Request → Text → List Service → Bool → Daemon r → Response × Daemon r
  unfolding apply_checked
  apply_request host req actor declared unreadable d =
      apply_checked host req (entry_of req actor host.services) declared unreadable
        (check d.store req.expect_generation) d
