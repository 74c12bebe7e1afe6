-- ===== src/Supervisor/Commands/Quiet.antt =====
-- Building, stopping and retiring a container leave the declarations alone, and lose no event.
use hostd.Base.{refl, Bool, true, false, List, [], ◌∷◌, Text, if◌then◌else◌}
use hostd.Service.{Service}
use hostd.Service.Address.{Mount}
use hostd.Supervisor.{Runtime, Found, found, not_found, refused, event, nudge, unknown_service}
use hostd.Supervisor.Act.{pure, change, stop_if}
use hostd.Supervisor.Act.Keeps.{
  Quiet-trans, Quiet-machine, Quiet-event, Keeps, Keeps-pure, Keeps-fail, Keeps-expect,
  Keeps-ignore, Keeps-ask, Keeps-if, Keeps-bind, Keeps-then, Keeps-stop_if, Keeps-tell,
  Keeps-need_runtime, Keeps-change, Keeps-here,
}
use hostd.Supervisor.Containers.{
  Host, prepare_mount, prepare_each, prepare_mounts, need_image, after_start, start_created, create,
  retire_container, retire,
}
use hostd.Supervisor.Commands.{stop, stop_found}

module _ {r : Runtime} where
  open r use {stop as stop_container, remove as remove_container}

  pub Keeps-event : (kind service : Text) → Keeps (change {r = r} (event kind service))
  Keeps-event kind service = Keeps-change _ (λ w. Quiet-event kind service [] w)

  Keeps-nudge : Keeps (change {r = r} nudge)
  Keeps-nudge =
      Keeps-change _
        (λ w. record { declared = refl; fired = refl; has_runtime = refl; events = λ e i. i })

  Keeps-prepare_mount : (service : Text) (m : Mount) → Keeps (prepare_mount {r = r} service m)
  unfolding prepare_mount
  Keeps-prepare_mount service m =
      Keeps-if m.named _ _ (Keeps-then _ _ (Keeps-tell _) (Keeps-pure _)) (Keeps-pure _)

  Keeps-prepare_each : (service : Text) (ms : List Mount) → Keeps (prepare_each {r = r} service ms)
  unfolding prepare_each
  Keeps-prepare_each service [] = Keeps-pure []
  Keeps-prepare_each service (m ∷ ms) =
      Keeps-bind _ _ (Keeps-prepare_mount service m)
        (λ d. Keeps-bind _ _ (Keeps-prepare_each service ms) (λ ds. Keeps-pure _))

  pub Keeps-prepare_mounts : (s : Service) → Keeps (prepare_mounts {r = r} s)
  unfolding prepare_mounts
  Keeps-prepare_mounts s = Keeps-bind _ _ (Keeps-expect _ _) (λ ms. Keeps-prepare_each s.name ms)

  Keeps-need_image : (f : Found Text) → Keeps (need_image {r = r} f)
  unfolding need_image
  Keeps-need_image (found digest) = Keeps-pure digest
  Keeps-need_image not_found = Keeps-fail _
  Keeps-need_image refused = Keeps-fail _

  Keeps-after_start : (id : Text) (started : Bool) → Keeps (after_start {r = r} id started)
  unfolding after_start
  Keeps-after_start id true = Keeps-pure tt
  Keeps-after_start id false = Keeps-then _ _ (Keeps-ignore _ (Keeps-tell _)) (Keeps-fail _)

  pub Keeps-start_created : (id : Text) → Keeps (start_created {r = r} id)
  unfolding start_created
  Keeps-start_created id = record {
    at = λ w. Quiet-trans w _ _ (Quiet-machine w _) ((Keeps-after_start id _).at _);
  }

  -- `create` leaves every declaration and every event in place.
  pub Keeps-create :
      (host : Host) (s : Service) (start : Bool) → Keeps (create {r = r} host s start)
  unfolding create
  Keeps-create host s start = Keeps-then _ _ Keeps-need_runtime (
      Keeps-bind _ _ (Keeps-expect _ _) (λ ports. Keeps-bind _ _ (Keeps-prepare_mounts s) (λ ms.
        Keeps-then _ _ (Keeps-tell _) (
          Keeps-bind _ _ (Keeps-here need_image _ Keeps-need_image) (λ digest.
            Keeps-then _ _ (Keeps-tell _) (
              Keeps-bind _ _ (Keeps-ask _) (λ id.
                Keeps-if start _ _
                  (Keeps-then _ _ (Keeps-start_created id)
                    (Keeps-then _ _ (Keeps-event _ _) Keeps-nudge))
                  (Keeps-event _ _))))))))

  Keeps-retire_container : (s : Service) → Keeps (retire_container {r = r} s)
  unfolding retire_container
  Keeps-retire_container s =
      Keeps-then _ _ (Keeps-event _ _)
        (Keeps-then _ _ (Keeps-ignore _ (Keeps-tell _)) (Keeps-ignore _ (Keeps-tell _)))

  pub Keeps-retire : (s : Service) → Keeps (retire {r = r} s)
  unfolding retire
  Keeps-retire s =
      Keeps-here (λ b. if b then retire_container s else pure tt) (λ w. w.has_runtime)
        (λ b. Keeps-if b _ _ (Keeps-retire_container s) (Keeps-pure tt))

  Keeps-stop_found : (s : Service) (name : Text) (f : Found _) → Keeps (stop_found {r = r} s name f)
  unfolding stop_found
  Keeps-stop_found s name not_found = Keeps-pure _
  Keeps-stop_found s name refused = Keeps-fail _
  Keeps-stop_found s name (found c) =
      Keeps-if c.running _ _
        (Keeps-then _ _ (Keeps-event _ _) (
          Keeps-then _ _ (Keeps-tell _)
            (Keeps-then _ _ (Keeps-event _ _) (Keeps-then _ _ Keeps-nudge (Keeps-pure _)))))
        (Keeps-pure _)

  pub Keeps-stop : (name : Text) → Keeps (stop {r = r} name)
  unfolding stop
  Keeps-stop name =
      Keeps-then _ _ (Keeps-here (λ b. stop_if b (unknown_service name)) _ (λ b. Keeps-stop_if b _))
        (Keeps-bind _ _ (Keeps-here pure _ Keeps-pure) (λ s.
          Keeps-then _ _ Keeps-need_runtime
            (Keeps-here (stop_found s name) _ (Keeps-stop_found s name))))
