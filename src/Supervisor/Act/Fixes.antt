-- ===== src/Supervisor/Act/Fixes.antt =====
-- Actions that reach the machine only: every other part of the world stays as it is.
use hostd.Base.{
  ◌≡◌, refl, ◌∙◌, Bool, true, false, Option, none, some, List, [], ◌∷◌, Text, ℕ, if◌then◌else◌,
}
use hostd.Service.{Service}
use hostd.Service.Address.{Mount}
use hostd.Supervisor.{Runtime, World, Error}
use hostd.Supervisor.Act.{
  Outcome, ok, err, Act, next, ◌>>=◌, ◌>>◌, pure, fail, expect, ignore, ask, stop_if, tell,
}
use hostd.Supervisor.Containers.{
  Host, prepare_mount, prepare_each, prepare_mounts, after_start, start_created,
}
use hostd.Supervisor.Schedule.{create_run}

-- A part of the world that the machine is no part of.
module _ (r : Runtime) {X : Type 0} (f : World r → X)
    (apart : (w : World r) (m : r.State) → f (record w { machine = m }) ≡ f w) where
  pub record Fixes {A : Type 0} (m : Act r A) : Type 0 where
    pub at : (w : World r) → f (m w).1 ≡ f w

  Fixes-stop_if_at : (b : Bool) (e : Error) (w : World r) → f (stop_if b e w).1 ≡ f w
  unfolding stop_if
  Fixes-stop_if_at true e w = refl
  Fixes-stop_if_at false e w = refl

  module _ {A : Type 0} where
    Fixes-expect_at : (e : Error) (o : Option A) (w : World r) → f (expect e o w).1 ≡ f w
    unfolding expect
    Fixes-expect_at e none w = refl
    Fixes-expect_at e (some a) w = refl

    pub Fixes-pure : (a : A) → Fixes (pure a)
    unfolding pure
    Fixes-pure a = record { at = λ w. refl }

    pub Fixes-fail : (e : Error) → Fixes {A = A} (fail e)
    unfolding fail
    Fixes-fail e = record { at = λ w. refl }

    pub Fixes-expect : (e : Error) (o : Option A) → Fixes (expect e o)
    Fixes-expect e o = record { at = Fixes-expect_at e o }

    pub Fixes-ignore : (m : Act r A) → Fixes m → Fixes (ignore m)
    unfolding ignore
    Fixes-ignore m k = record { at = k.at }

    pub Fixes-ask : (call : r.State → Option A × r.State) → Fixes (ask call)
    unfolding ask
    Fixes-ask call = record {
      at = λ w. Fixes-expect_at _ (call w.machine).0 _ ∙ apart w (call w.machine).1;
    }

    pub Fixes-if : (b : Bool) (m n : Act r A) → Fixes m → Fixes n → Fixes (if b then m else n)
    Fixes-if true m n km kn = km
    Fixes-if false m n km kn = kn

  module _ {A B : Type 0} where
    Fixes-next :
        (g : A → Act r B) (o : Outcome A) (w : World r)
        → ((a : A) → Fixes (g a))
        → f (next g o w).1 ≡ f w
    Fixes-next g (ok a) w k = (k a).at w
    Fixes-next g (err e) w k = refl

    pub Fixes-bind :
        (m : Act r A) (g : A → Act r B) → Fixes m → ((a : A) → Fixes (g a)) → Fixes (m >>= g)
    unfolding ◌>>=◌
    Fixes-bind m g km kg = record { at = λ w. Fixes-next g (m w).0 (m w).1 kg ∙ km.at w }

  pub Fixes-then :
      {B : Type 0} (m : Act r (Unit {0})) (k : Act r B) → Fixes m → Fixes k → Fixes (m >> k)
  unfolding ◌>>◌
  Fixes-then m k km kk = Fixes-bind m (λ _. k) km (λ _. kk)

  pub Fixes-tell : (call : r.State → Bool × r.State) → Fixes (tell call)
  unfolding tell
  Fixes-tell call = record { at = λ w. Fixes-stop_if_at _ _ _ ∙ apart w (call w.machine).1 }

  Fixes-prepare_mount : (service : Text) (m : Mount) → Fixes (prepare_mount service m)
  unfolding prepare_mount
  Fixes-prepare_mount service m =
      Fixes-if m.named _ _ (Fixes-then _ _ (Fixes-tell _) (Fixes-pure _)) (Fixes-pure _)

  Fixes-prepare_each : (service : Text) (ms : List Mount) → Fixes (prepare_each service ms)
  unfolding prepare_each
  Fixes-prepare_each service [] = Fixes-pure []
  Fixes-prepare_each service (m ∷ ms) =
      Fixes-bind _ _ (Fixes-prepare_mount service m)
        (λ d. Fixes-bind _ _ (Fixes-prepare_each service ms) (λ ds. Fixes-pure _))

  Fixes-prepare_mounts : (s : Service) → Fixes (prepare_mounts s)
  unfolding prepare_mounts
  Fixes-prepare_mounts s = Fixes-bind _ _ (Fixes-expect _ _) (λ ms. Fixes-prepare_each s.name ms)

  Fixes-after_start : (id : Text) (started : Bool) → Fixes (after_start id started)
  unfolding after_start
  Fixes-after_start id true = Fixes-pure tt
  Fixes-after_start id false = Fixes-then _ _ (Fixes-ignore _ (Fixes-tell _)) (Fixes-fail _)

  Fixes-start_created : (id : Text) → Fixes (start_created id)
  unfolding start_created
  Fixes-start_created id = record { at = λ w. (Fixes-after_start id _).at _ ∙ apart w _ }

  -- Making a run's container reaches the machine and nothing else.
  pub Fixes-create_run : (host : Host) (s : Service) (slot : ℕ) → Fixes (create_run host s slot)
  unfolding create_run
  Fixes-create_run host s slot = Fixes-bind _ _ (Fixes-prepare_mounts s) (λ ms.
      Fixes-then _ _ (Fixes-tell _) (
        Fixes-then _ _ (Fixes-tell _) (
          Fixes-bind _ _ (Fixes-ask _)
            (λ id. Fixes-then _ _ (Fixes-start_created id) (Fixes-pure id)))))
