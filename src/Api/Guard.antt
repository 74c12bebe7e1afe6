-- ===== src/Api/Guard.antt =====
-- What a request has to claim and to allow before it moves anything.
use hostd.Base.{
  ◌+◌, ◌<◌, ◌≡◌, refl, ap, ◌⊎◌, inl, inr, Bool, true, false, not, ◌&&◌, Option, none, some, List,
  [], ◌∷◌, Text, arith, beq, if◌then◌else◌, Bool-cases, is_some,
}
use hostd.Service.{Service}
use hostd.State.{
  Entry, ErrConflict, u64, result_refused, result_failed, check, moved, record_locked,
}
use hostd.Supervisor.{Runtime, World}
use hostd.Supervisor.Act.{Outcome, ok, err, Act}
use hostd.Supervisor.Containers.{Host}
use hostd.Supervisor.Plan.{has_destructive}
use hostd.Supervisor.Apply.{apply, changes_of}
use hostd.Api.{
  Code, conflict, destructive, not_known, failed, Request, Response, Daemon, entry_of, respond,
  refuse, mutated, mutate_checked, mutate, apply_allowed, apply_checked, apply_request, is_unknown,
}

module _ {r : Runtime} where
  -- The machine and the generation are as they were.
  pub record IsUntouched (before after : Daemon r) : Type 0 where
    pub world : after.world ≡ before.world
    pub generation : after.store.generation ≡ before.store.generation

  refuse-IsUntouched : (e : Entry) (code : Code) (d : Daemon r) → IsUntouched d (refuse e code d).1
  unfolding refuse respond record_locked moved
  refuse-IsUntouched e code d = record { world = refl; generation = unfold beq in refl }

  -- What an apply comes to: a claim that does not hold and a plan that would take a running
  -- service away without leave are refused and touch nothing; else the configuration is applied.
  pub data Verdict (host : Host) (req : Request) (declared : List Service) (before after : Daemon r)
      (code : Code) : Type 0 where
    stale :
        is_some (check before.store req.expect_generation) ≡ true
        → code ≡ conflict
        → IsUntouched before after
        → Verdict host req declared before after code
    withheld :
        check before.store req.expect_generation ≡ none
        → has_destructive (changes_of declared before.world) ≡ true
        → req.allow_destructive ≡ false
        → code ≡ destructive
        → IsUntouched before after
        → Verdict host req declared before after code
    applied :
        check before.store req.expect_generation ≡ none
        → (has_destructive (changes_of declared before.world) ≡ false)
          ⊎ (req.allow_destructive ≡ true)
        → after.world ≡ (apply host declared before.world).1
        → Verdict host req declared before after code

  decide :
      (host : Host) (req : Request) (e : Entry) (declared : List Service) (unreadable a b : Bool)
      (d : Daemon r)
      → check d.store req.expect_generation ≡ none
      → has_destructive (changes_of declared d.world) ≡ a
      → req.allow_destructive ≡ b
      → Verdict host req declared d
          (if a && not b
            then refuse e destructive d
            else apply_allowed host e declared unreadable d).1
          (if a && not b
            then refuse e destructive d
            else apply_allowed host e declared unreadable d).0.code
  unfolding apply_allowed respond refuse
  decide host req e declared unreadable true true d h p q = applied h (inr q) refl
  decide host req e declared unreadable true false d h p q =
      withheld h p q refl (refuse-IsUntouched e destructive d)
  decide host req e declared unreadable false true d h p q = applied h (inl p) refl
  decide host req e declared unreadable false false d h p q = applied h (inl p) refl

  -- Every apply that is asked for is refused for its claim, refused for what it would destroy, or
  -- carried out: it is carried out only with a claim that holds, and with leave to destroy or
  -- nothing to destroy; refused, it leaves the machine and the generation as they were.
  pub apply_request-Verdict :
      (host : Host) (req : Request) (actor : Text) (declared : List Service) (unreadable : Bool)
      (d : Daemon r)
      → Verdict host req declared d
          (apply_request host req actor declared unreadable d).1
          (apply_request host req actor declared unreadable d).0.code
  unfolding apply_request
  apply_request-Verdict host req actor declared unreadable d =
      judge (check d.store req.expect_generation) refl
    where
      judge :
          (o : Option ErrConflict)
          → check d.store req.expect_generation ≡ o
          → Verdict host req declared d
              (apply_checked host req (entry_of req actor host.services) declared unreadable o d).1
              (apply_checked host req
                (entry_of req actor host.services)
                declared
                unreadable
                o
                d).0.code
      judge (some claim) e =
          unfold apply_checked in
          stale (ap is_some e) refl
            (refuse-IsUntouched (entry_of req actor host.services) conflict d)
      judge none e =
          unfold apply_checked in
          decide host req (entry_of req actor host.services) declared unreadable
            (has_destructive (changes_of declared d.world)) req.allow_destructive d e refl refl

  -- The response carries the generation of the store, which is as before, or one more if the
  -- operation was carried out and changed something.
  abbrev pub Moves : Daemon r → Outcome Bool → Response × Daemon r → Type 0
  Moves d o (resp, after) =
      (resp.generation ≡ after.store.generation)
      × ((after.store.generation ≡ d.store.generation)
          ⊎ ((after.store.generation ≡ d.store.generation + 1) × (o ≡ ok true)))

  Moves-respond :
      (code : Code) (e : Entry) (d : Daemon r) (o : Outcome Bool)
      → Moves d o (respond code e false d)
  unfolding respond record_locked moved
  Moves-respond code e d o = (refl, inl (ground arith))

  Moves-mutated :
      (e : Entry) (o : Outcome Bool) (d : Daemon r) (w : World r)
      → d.store.generation + 1 < u64
      → Moves d o (mutated e o (record d { world = w }))
  unfolding mutated refuse respond record_locked moved
  Moves-mutated e (ok true) d w h = (refl, inr (unfold beq in ground arith, refl))
  Moves-mutated e (ok false) d w h = (refl, inl (unfold beq in refl))
  Moves-mutated e (err x) d w h = elim (Bool-cases (is_unknown x)) [
    | inl unknown ↦ rw unknown (
        Moves-respond not_known (record e { result = result_refused }) (record d { world = w })
          (err x))
    | inr other ↦ rw other (
        Moves-respond failed (record e { result = result_failed }) (record d { world = w }) (err x))
  ]

  -- Below 2^64, an operation on a service answers with the store's generation, and moves it by one
  -- only if it was carried out and changed something. A claim that does not hold is answered
  -- without touching the machine.
  pub mutate-Moves :
      (req : Request) (actor name : Text) (act : Act r Bool) (d : Daemon r)
      → d.store.generation + 1 < u64
      → Moves d (act d.world).0 (mutate req actor name act d)
        × ((check d.store req.expect_generation ≡ none)
            ⊎ ((mutate req actor name act d).1.world ≡ d.world))
  unfolding mutate
  mutate-Moves req actor [] act d h = ((refl, inl refl), inr refl)
  mutate-Moves req actor (c ∷ cs) act d h = claimed (check d.store req.expect_generation) refl
    where
      claimed :
          (o : Option ErrConflict)
          → check d.store req.expect_generation ≡ o
          → Moves d (act d.world).0 (mutate_checked (entry_of req actor (c ∷ cs)) (c ∷ cs) act o d)
            × ((check d.store req.expect_generation ≡ none)
                ⊎ ((mutate_checked (entry_of req actor (c ∷ cs)) (c ∷ cs) act o d).1.world
                    ≡ d.world))
      claimed none p =
          unfold mutate_checked in
          (Moves-mutated (entry_of req actor (c ∷ cs)) (act d.world).0 d (act d.world).1 h, inl p)
      claimed (some claim) p =
          unfold mutate_checked refuse in
          (
            Moves-respond conflict
                (record (entry_of req actor (c ∷ cs)) { result = result_refused }) d _,
            inr (unfold respond in refl),
          )
