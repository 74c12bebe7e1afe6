-- ===== src/Supervisor/Act.antt =====
-- Actions of the supervisor: they change the world, and end with a value or an error.
pub mod Fixes
pub mod Holds
pub mod Keeps
use hostd.Base.{
  ◌≡◌, refl, Bool, true, false, not, Option, none, some, List, [], ◌∷◌, Text, if◌then◌else◌,
}
use hostd.Supervisor.{
  Runtime, World, Error, Found, found, not_found, refused, Container, containers, Held, no_runtime,
  runtime_error,
}

pub data Outcome (A : Type 0) : Type 0 where
  ok : A → Outcome A
  err : Error → Outcome A

abbrev pub Act : Runtime → Type 0 → Type 0
Act r A = World r → Outcome A × World r

module _ {r : Runtime} {A B : Type 0} where
  abbrev pub next : (A → Act r B) → Outcome A → World r → Outcome B × World r
  next f (ok a) w = f a w
  next f (err e) w = (err e, w)

  infixl 5 ◌>>=◌
  unfoldable pub ◌>>=◌ : Act r A → (A → Act r B) → Act r B
  ◌>>=◌ m f w = let (o, w') = m w in next f o w'

module _ {r : Runtime} {A : Type 0} where
  unfoldable pub pure : A → Act r A
  pure a w = (ok a, w)

  unfoldable pub fail : Error → Act r A
  fail e w = (err e, w)

  -- A value that may be missing.
  unfoldable pub expect : Error → Option A → Act r A
  expect e none w = (err e, w)
  expect e (some a) w = (ok a, w)

  -- The action, with its error thrown away, as `_ = f()`.
  unfoldable pub ignore : Act r A → Act r (Unit {0})
  ignore m w = (ok tt, (m w).1)

  -- A call of the runtime that answers with a value, or not.
  unfoldable pub ask : (r.State → Option A × r.State) → Act r A
  ask call w =
      let (answer, m) = call w.machine in expect runtime_error answer (record w { machine = m })

module _ {r : Runtime} where
  infixl 5 ◌>>◌
  unfoldable pub ◌>>◌ : {B : Type 0} → Act r (Unit {0}) → Act r B → Act r B
  unfolding ◌>>=◌
  m >> k = m >>= λ _. k

  -- A change of the world that cannot fail.
  unfoldable pub change : (World r → World r) → Act r (Unit {0})
  change f w = (ok tt, f w)

  -- `if b { return err }`
  unfoldable pub stop_if : Bool → Error → Act r (Unit {0})
  stop_if b e w = if b then (err e, w) else (ok tt, w)

  -- A call of the runtime that succeeds or not.
  unfoldable pub tell : (r.State → Bool × r.State) → Act r (Unit {0})
  tell call w =
      let (done, m) = call w.machine in stop_if (not done) runtime_error (record w { machine = m })

  -- `client == nil`
  unfoldable pub need_runtime : Act r (Unit {0})
  need_runtime w = stop_if (not w.has_runtime) no_runtime w
