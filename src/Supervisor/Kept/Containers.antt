-- ===== src/Supervisor/Kept/Containers.antt =====
-- supervisor/container.go: building and retiring a container preserve what each call preserves.
use hostd.Base.{Bool, true, false, List, [], ◌∷◌, Text, if◌then◌else◌}
use hostd.Service.{Service}
use hostd.Service.Address.{Mount}
use hostd.Supervisor.{Runtime, World, Found, found, not_found, refused}
use hostd.Supervisor.Act.{pure, change}
use hostd.Supervisor.Act.Holds.{
  IsKept, Holds, Holds-pure, Holds-fail, Holds-expect, Holds-ignore, Holds-ask, Holds-if,
  Holds-here, Holds-bind, Holds-then, Holds-tell, Holds-need_runtime, Holds-change,
}
use hostd.Supervisor.Containers.{
  Host, prepare_mount, prepare_each, prepare_mounts, need_image, after_start, start_created, create,
  retire_container, retire,
}

module _ (r : Runtime) (P : r.State → Type 0) (k : IsKept r P) where
  -- A change that does not reach the machine.
  pub Holds-said :
      (f : World r → World r)
      → ((w : World r) → P w.machine → P (f w).machine)
      → Holds r P (change f)
  Holds-said f h = Holds-change r P f h

  Holds-prepare_mount : (service : Text) (m : Mount) → Holds r P (prepare_mount service m)
  unfolding prepare_mount
  Holds-prepare_mount service m =
      Holds-if r P m.named _ _
        (Holds-then r P _ _ (Holds-tell r P _ (k.ensure_volume _ _)) (Holds-pure r P _))
        (Holds-pure r P _)

  Holds-prepare_each : (service : Text) (ms : List Mount) → Holds r P (prepare_each service ms)
  unfolding prepare_each
  Holds-prepare_each service [] = Holds-pure r P []
  Holds-prepare_each service (m ∷ ms) =
      Holds-bind r P _ _ (Holds-prepare_mount service m)
        (λ d. Holds-bind r P _ _ (Holds-prepare_each service ms) (λ ds. Holds-pure r P _))

  pub Holds-prepare_mounts : (s : Service) → Holds r P (prepare_mounts s)
  unfolding prepare_mounts
  Holds-prepare_mounts s =
      Holds-bind r P _ _ (Holds-expect r P _ _) (λ ms. Holds-prepare_each s.name ms)

  Holds-need_image : (f : Found Text) → Holds r P (need_image f)
  unfolding need_image
  Holds-need_image (found digest) = Holds-pure r P digest
  Holds-need_image not_found = Holds-fail r P _
  Holds-need_image refused = Holds-fail r P _

  Holds-after_start : (id : Text) (started : Bool) → Holds r P (after_start id started)
  unfolding after_start
  Holds-after_start id true = Holds-pure r P tt
  Holds-after_start id false =
      Holds-then r P _ _ (Holds-ignore r P _ (Holds-tell r P _ (k.remove id))) (Holds-fail r P _)

  pub Holds-start_created : (id : Text) → Holds r P (start_created id)
  unfolding start_created
  Holds-start_created id = record {
    at = λ w p. (Holds-after_start id _).at _ (k.start id w.machine p);
  }

  pub Holds-create : (host : Host) (s : Service) (start : Bool) → Holds r P (create host s start)
  unfolding create
  Holds-create host s start = Holds-then r P _ _ (Holds-need_runtime r P) (
      Holds-bind r P _ _ (Holds-expect r P _ _) (λ ports.
        Holds-bind r P _ _ (Holds-prepare_mounts s) (λ ms.
          Holds-then r P _ _ (Holds-tell r P _ (k.ensure_network _)) (
            Holds-bind r P _ _ (Holds-here r P need_image _ Holds-need_image) (λ digest.
              Holds-then r P _ _ (Holds-tell r P _ (k.remove _)) (
                Holds-bind r P _ _ (Holds-ask r P _ (k.create _)) (λ id.
                  Holds-if r P start _ _
                    (Holds-then r P _ _ (Holds-start_created id)
                      (Holds-then r P _ _ (Holds-said _ (λ w p. p)) (Holds-said _ (λ w p. p))))
                    (Holds-said _ (λ w p. p)))))))))

  Holds-retire_container : (s : Service) → Holds r P (retire_container s)
  unfolding retire_container
  Holds-retire_container s = Holds-then r P _ _ (Holds-said _ (λ w p. p)) (
      Holds-then r P _ _ (Holds-ignore r P _ (Holds-tell r P _ (k.stop _ _)))
        (Holds-ignore r P _ (Holds-tell r P _ (k.remove _))))

  pub Holds-retire : (s : Service) → Holds r P (retire s)
  unfolding retire
  Holds-retire s =
      Holds-here r P (λ b. if b then retire_container s else pure tt) (λ w. w.has_runtime)
        (λ b. Holds-if r P b _ _ (Holds-retire_container s) (Holds-pure r P tt))
