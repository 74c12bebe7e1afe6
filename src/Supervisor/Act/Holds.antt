-- ===== src/Supervisor/Act/Holds.antt =====
-- What every call of the runtime preserves, an action preserves: one rule for each way to build
-- one.
use hostd.Base.{ℕ, Bool, true, false, Option, none, some, Text, Map, if◌then◌else◌}
use hostd.Supervisor.{Runtime, World, Error, Spec}
use hostd.Supervisor.Act.{
  Outcome, ok, err, Act, next, ◌>>=◌, ◌>>◌, pure, fail, expect, ignore, ask, change, stop_if, tell,
  need_runtime,
}

-- A property of the machine that no call of the runtime breaks.
pub record IsKept (r : Runtime) (P : r.State → Type 0) : Type 0 where
  pub create : (spec : Spec) (s : r.State) → P s → P (r.create spec s).1
  pub start : (id : Text) (s : r.State) → P s → P (r.start id s).1
  pub stop : (id : Text) (grace : ℕ) (s : r.State) → P s → P (r.stop id grace s).1
  pub remove : (id : Text) (s : r.State) → P s → P (r.remove id s).1
  pub update_restart : (id policy : Text) (s : r.State) → P s → P (r.update_restart id policy s).1
  pub ensure_network : (name : Text) (s : r.State) → P s → P (r.ensure_network name s).1
  pub ensure_volume :
      (name : Text) (labels : Map Text) (s : r.State) → P s → P (r.ensure_volume name labels s).1

module _ (r : Runtime) (P : r.State → Type 0) where
  -- The action preserves the property.
  pub record Holds {A : Type 0} (m : Act r A) : Type 0 where
    pub at : (w : World r) → P w.machine → P (m w).1.machine

  -- The property, of the machine of a world.
  pub record On (w : World r) : Type 0 where
    pub at : P w.machine

  pub On-if : (b : Bool) (v w : World r) → On v → On w → On (if b then v else w)
  On-if true v w p q = p
  On-if false v w p q = q

  pub On-run : {A : Type 0} (m : Act r A) (w : World r) → Holds m → On w → On (m w).1
  On-run m w h p = record { at = h.at w p.at }

  Holds-stop_if_at :
      (b : Bool) (e : Error) (w : World r) → P w.machine → P (stop_if b e w).1.machine
  unfolding stop_if
  Holds-stop_if_at true e w p = p
  Holds-stop_if_at false e w p = p

  module _ {A : Type 0} where
    Holds-expect_at :
        (e : Error) (o : Option A) (w : World r) → P w.machine → P (expect e o w).1.machine
    unfolding expect
    Holds-expect_at e none w p = p
    Holds-expect_at e (some a) w p = p

    pub Holds-pure : (a : A) → Holds (pure a)
    unfolding pure
    Holds-pure a = record { at = λ w p. p }

    pub Holds-fail : (e : Error) → Holds {A = A} (fail e)
    unfolding fail
    Holds-fail e = record { at = λ w p. p }

    pub Holds-expect : (e : Error) (o : Option A) → Holds (expect e o)
    Holds-expect e o = record { at = Holds-expect_at e o }

    pub Holds-ignore : (m : Act r A) → Holds m → Holds (ignore m)
    unfolding ignore
    Holds-ignore m k = record { at = k.at }

    pub Holds-ask :
        (call : r.State → Option A × r.State)
        → ((s : r.State) → P s → P (call s).1)
        → Holds (ask call)
    unfolding ask
    Holds-ask call k = record { at = λ w p. Holds-expect_at _ (call w.machine).0 _ (k w.machine p) }

    pub Holds-if : (b : Bool) (m n : Act r A) → Holds m → Holds n → Holds (if b then m else n)
    Holds-if true m n km kn = km
    Holds-if false m n km kn = kn

    pub Holds-here :
        {B : Type 0} (g : B → Act r A) (f : World r → B)
        → ((b : B) → Holds (g b))
        → Holds (λ w. g (f w) w)
    Holds-here g f k = record { at = λ w p. (k (f w)).at w p }

  module _ {A B : Type 0} where
    Holds-next :
        (f : A → Act r B) (o : Outcome A) (w : World r)
        → ((a : A) → Holds (f a))
        → P w.machine
        → P (next f o w).1.machine
    Holds-next f (ok a) w k p = (k a).at w p
    Holds-next f (err e) w k p = p

    pub Holds-bind :
        (m : Act r A) (f : A → Act r B) → Holds m → ((a : A) → Holds (f a)) → Holds (m >>= f)
    unfolding ◌>>=◌
    Holds-bind m f km kf = record { at = λ w p. Holds-next f (m w).0 (m w).1 kf (km.at w p) }

  pub Holds-then :
      {B : Type 0} (m : Act r (Unit {0})) (k : Act r B) → Holds m → Holds k → Holds (m >> k)
  unfolding ◌>>◌
  Holds-then m k km kk = Holds-bind m (λ _. k) km (λ _. kk)

  pub Holds-stop_if : (b : Bool) (e : Error) → Holds (stop_if b e)
  Holds-stop_if b e = record { at = Holds-stop_if_at b e }

  pub Holds-tell :
      (call : r.State → Bool × r.State) → ((s : r.State) → P s → P (call s).1) → Holds (tell call)
  unfolding tell
  Holds-tell call k = record { at = λ w p. Holds-stop_if_at _ _ _ (k w.machine p) }

  pub Holds-need_runtime : Holds need_runtime
  unfolding need_runtime
  Holds-need_runtime = record { at = λ w p. Holds-stop_if_at _ _ w p }

  pub Holds-change :
      (f : World r → World r) → ((w : World r) → P w.machine → P (f w).machine) → Holds (change f)
  unfolding change
  Holds-change f k = record { at = k }
