-- ===== src/Supervisor/Act/Keeps.antt =====
-- What an action does not touch, one rule for each way to build an action.
use mathlib.Core.List.{Mem, mem-append}
use mathlib.Core.Logic.Or
use hostd.Base.{◌≡◌, refl, ◌∙◌, Bool, true, false, Option, none, some, Text, if◌then◌else◌}
use hostd.Supervisor.{Runtime, World, Error, Event, add_event}
use hostd.Supervisor.Act.{
  Outcome, ok, err, Act, next, ◌>>=◌, ◌>>◌, pure, fail, expect, ignore, ask, change, stop_if, tell,
  need_runtime,
}

module _ {r : Runtime} where
  -- The declarations, the slots and the runtime are the same, and no event is lost.
  pub record Quiet (w w' : World r) : Type 0 where
    pub declared : w'.declared ≡ w.declared
    pub fired : w'.fired ≡ w.fired
    pub has_runtime : w'.has_runtime ≡ w.has_runtime
    pub events : (e : Event) → Mem e w.events → Mem e w'.events

  pub Quiet-refl : (w : World r) → Quiet w w
  Quiet-refl w = record { declared = refl; fired = refl; has_runtime = refl; events = λ e i. i }

  pub Quiet-trans : (u v w : World r) → Quiet u v → Quiet v w → Quiet u w
  Quiet-trans u v w p q = record {
    declared = q.declared ∙ p.declared;
    fired = q.fired ∙ p.fired;
    has_runtime = q.has_runtime ∙ p.has_runtime;
    events = λ e i. q.events e (p.events e i);
  }

  pub Quiet-machine : (w : World r) (m : r.State) → Quiet w (record w { machine = m })
  Quiet-machine w m = record {
    declared = refl;
    fired = refl;
    has_runtime = refl;
    events = λ e i. i;
  }

  pub Quiet-event : (kind service run : Text) (w : World r) → Quiet w (add_event kind service run w)
  Quiet-event kind service run w = record {
    declared = refl;
    fired = refl;
    has_runtime = refl;
    events = λ e i. mem-append.1 (Or.inl i);
  }

  pub Quiet-stop_if : (b : Bool) (e : Error) (w : World r) → Quiet w (stop_if b e w).1
  unfolding stop_if
  Quiet-stop_if true e w = Quiet-refl w
  Quiet-stop_if false e w = Quiet-refl w

  pub Quiet-expect :
      {A : Type 0} (e : Error) (o : Option A) (w : World r) → Quiet w (expect e o w).1
  unfolding expect
  Quiet-expect e none w = Quiet-refl w
  Quiet-expect e (some a) w = Quiet-refl w

-- The action leaves the declarations and the slots as they are, and every event.
pub record Keeps {r : Runtime} {A : Type 0} (m : Act r A) : Type 0 where
  pub at : (w : World r) → Quiet w (m w).1

module _ {r : Runtime} {A : Type 0} where
  pub Keeps-pure : (a : A) → Keeps (pure {r = r} a)
  unfolding pure
  Keeps-pure a = record { at = λ w. Quiet-refl w }

  pub Keeps-fail : (e : Error) → Keeps (fail {r = r} {A = A} e)
  unfolding fail
  Keeps-fail e = record { at = λ w. Quiet-refl w }

  pub Keeps-expect : (e : Error) (o : Option A) → Keeps (expect {r = r} e o)
  Keeps-expect e o = record { at = Quiet-expect e o }

  pub Keeps-ignore : (m : Act r A) → Keeps m → Keeps (ignore m)
  unfolding ignore
  Keeps-ignore m k = record { at = λ w. k.at w }

  pub Keeps-ask : (call : r.State → Option A × r.State) → Keeps (ask {r = r} call)
  unfolding ask
  Keeps-ask call = record {
    at = λ w.
        Quiet-trans w _ _ (Quiet-machine w (call w.machine).1)
          (Quiet-expect _ (call w.machine).0 _);
  }

  pub Keeps-if : (b : Bool) (m n : Act r A) → Keeps m → Keeps n → Keeps (if b then m else n)
  Keeps-if true m n km kn = km
  Keeps-if false m n km kn = kn

module _ {r : Runtime} {A B : Type 0} where
  next-Keeps :
      (f : A → Act r B) (o : Outcome A) (w : World r)
      → ((a : A) → Keeps (f a))
      → Quiet w (next f o w).1
  next-Keeps f (ok a) w k = (k a).at w
  next-Keeps f (err e) w k = Quiet-refl w

  pub Keeps-bind :
      (m : Act r A) (f : A → Act r B) → Keeps m → ((a : A) → Keeps (f a)) → Keeps (m >>= f)
  unfolding ◌>>=◌
  Keeps-bind m f km kf = record {
    at = λ w. Quiet-trans w _ _ (km.at w) (next-Keeps f (m w).0 (m w).1 kf);
  }

module _ {r : Runtime} where
  pub Keeps-then :
      {B : Type 0} (m : Act r (Unit {0})) (k : Act r B) → Keeps m → Keeps k → Keeps (m >> k)
  unfolding ◌>>◌
  Keeps-then m k km kk = Keeps-bind m (λ _. k) km (λ _. kk)

  pub Keeps-stop_if : (b : Bool) (e : Error) → Keeps (stop_if {r = r} b e)
  Keeps-stop_if b e = record { at = Quiet-stop_if b e }

  pub Keeps-tell : (call : r.State → Bool × r.State) → Keeps (tell {r = r} call)
  unfolding tell
  Keeps-tell call = record {
    at = λ w. Quiet-trans w _ _ (Quiet-machine w (call w.machine).1) (Quiet-stop_if _ _ _);
  }

  pub Keeps-need_runtime : Keeps (need_runtime {r = r})
  unfolding need_runtime
  Keeps-need_runtime = record { at = λ w. Quiet-stop_if _ _ w }

  pub Keeps-change : (f : World r → World r) → ((w : World r) → Quiet w (f w)) → Keeps (change f)
  unfolding change
  Keeps-change f k = record { at = k }

  -- An action that is chosen by the world it starts in.
  pub Keeps-here :
      {A B : Type 0} (g : B → Act r A) (f : World r → B)
      → ((b : B) → Keeps (g b))
      → Keeps (λ w. g (f w) w)
  Keeps-here g f k = record { at = λ w. (k (f w)).at w }

pub ruleset keeps_rules = (
  Keeps-pure, Keeps-fail, Keeps-expect, Keeps-ignore, Keeps-ask, Keeps-if, Keeps-bind, Keeps-then,
  Keeps-stop_if, Keeps-tell, Keeps-need_runtime,
)
