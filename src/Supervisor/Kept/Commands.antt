-- ===== src/Supervisor/Kept/Commands.antt =====
-- supervisor/commands.go: an operator's commands preserve what each call of the runtime preserves.
use hostd.Base.{Bool, true, false, List, [], ◌∷◌, Text, Map, beq, lookup, get_or, if◌then◌else◌}
use hostd.Service.{Service, empty_service, want_running, is_job}
use hostd.Supervisor.{
  Runtime, World, Container, Found, found, not_found, refused, unknown_service, declare,
}
use hostd.Supervisor.Plan.{Change, action_remove}
use hostd.Supervisor.Act.{Outcome, ok, err, pure, ignore, tell}
use hostd.Supervisor.Act.Holds.{
  IsKept, On, On-if, On-run, Holds, Holds-pure, Holds-fail, Holds-expect, Holds-ignore, Holds-if,
  Holds-here, Holds-bind, Holds-then, Holds-stop_if, Holds-tell, Holds-need_runtime,
}
use hostd.Supervisor.Containers.{Host, container_name}
use hostd.Supervisor.Commands.{
  start_found, start, stop_found, stop, undeclare, deploy, remove, restart,
}
use hostd.Supervisor.Apply.{
  drop_container, after_stop, apply_remove, report_failed, apply_set, apply_change, apply_each,
  declare_all, changes_of, apply,
}
use hostd.Supervisor.Kept.Containers.{Holds-said, Holds-create, Holds-retire}

module _ (r : Runtime) (P : r.State → Type 0) (k : IsKept r P) where
  Holds-start_found :
      (host : Host) (s : Service) (name : Text) (f : Found Container)
      → Holds r P (start_found host s name f)
  unfolding start_found
  Holds-start_found host s name not_found =
      Holds-then r P _ _ (Holds-create r P k host s true) (Holds-pure r P true)
  Holds-start_found host s name refused = Holds-fail r P _
  Holds-start_found host s name (found c) = Holds-if r P c.running _ _ (Holds-pure r P false) (
      Holds-then r P _ _ (Holds-tell r P _ (k.start c.id)) (
        Holds-then r P _ _ (Holds-said r P k _ (λ w p. p))
          (Holds-then r P _ _ (Holds-said r P k _ (λ w p. p)) (Holds-pure r P true))))

  pub Holds-start : (host : Host) (name : Text) → Holds r P (start host name)
  unfolding start
  Holds-start host name =
      Holds-bind r P _ _ (Holds-here r P _ _ (λ o. Holds-expect r P (unknown_service name) o)) (λ s.
        Holds-then r P _ _ (Holds-need_runtime r P)
          (Holds-here r P _ _ (Holds-start_found host s name)))

  Holds-stop_found :
      (s : Service) (name : Text) (f : Found Container) → Holds r P (stop_found s name f)
  unfolding stop_found
  Holds-stop_found s name not_found = Holds-pure r P false
  Holds-stop_found s name refused = Holds-fail r P _
  Holds-stop_found s name (found c) =
      Holds-if r P c.running _ _
        (Holds-then r P _ _ (Holds-said r P k _ (λ w p. p)) (
          Holds-then r P _ _ (Holds-tell r P _ (k.stop c.id _)) (
            Holds-then r P _ _ (Holds-said r P k _ (λ w p. p))
              (Holds-then r P _ _ (Holds-said r P k _ (λ w p. p)) (Holds-pure r P true)))))
        (Holds-pure r P false)

  pub Holds-stop : (name : Text) → Holds r P (stop name)
  unfolding stop
  Holds-stop name =
      Holds-then r P _ _ (Holds-here r P _ _ (λ b. Holds-stop_if r P b (unknown_service name))) (
        Holds-bind r P _ _ (Holds-here r P _ _ (λ s. Holds-pure r P s)) (λ s.
          Holds-then r P _ _ (Holds-need_runtime r P)
            (Holds-here r P _ _ (Holds-stop_found s name))))

  pub Holds-deploy : (host : Host) (s : Service) → Holds r P (deploy host s)
  unfolding deploy
  Holds-deploy host s = Holds-then r P _ _ (Holds-need_runtime r P) (
      Holds-then r P _ _ (Holds-said r P k _ (λ w p. p)) (
        Holds-then r P _ _ (Holds-retire r P k s) (
          Holds-if r P (is_job s) _ _
            (Holds-then r P _ _ (Holds-said r P k _ (λ w p. p)) (Holds-pure r P true))
            (Holds-then r P _ _ (Holds-create r P k host s (want_running s))
              (Holds-then r P _ _ (Holds-said r P k _ (λ w p. p)) (Holds-pure r P true))))))

  pub Holds-remove : (name : Text) → Holds r P (remove name)
  unfolding remove
  Holds-remove name =
      Holds-then r P _ _ (Holds-here r P _ _ (λ b. Holds-stop_if r P b (unknown_service name))) (
        Holds-bind r P _ _ (Holds-here r P _ _ (λ s. Holds-pure r P s)) (λ s.
          Holds-then r P _ _ (Holds-need_runtime r P) (
            Holds-then r P _ _ (Holds-said r P k _ (λ w p. p)) (
              Holds-then r P _ _ (Holds-retire r P k s) (
                Holds-then r P _ _ (Holds-said r P k _ (λ w p. p))
                  (Holds-then r P _ _ (Holds-said r P k _ (λ w p. p)) (Holds-pure r P true)))))))

  pub Holds-restart : (host : Host) (name : Text) → Holds r P (restart host name)
  unfolding restart
  Holds-restart host name =
      Holds-bind r P _ _ (Holds-stop name)
        (λ b. Holds-bind r P _ _ (Holds-start host name) (λ c. Holds-pure r P true))

  after_stop-kept :
      (name : Text) (o : Outcome Bool) (w : World r) → On r P w → On r P (after_stop name o w)
  unfolding after_stop drop_container undeclare
  after_stop-kept name (err e) w p = record { at = p.at }
  after_stop-kept name (ok moved) w p = record { at = dropped w.has_runtime }
    where
      dropped :
          (b : Bool)
          → P ((if b then ignore (tell (r.remove (container_name name))) else pure tt) w).1.machine
      dropped true = (Holds-ignore r P _ (Holds-tell r P _ (k.remove _))).at w p.at
      dropped false = (Holds-pure r P tt).at w p.at

  report_failed-kept :
      (name : Text) (o : Outcome (Unit {0})) (w : World r)
      → On r P w
      → On r P (report_failed name o w)
  unfolding report_failed
  report_failed-kept name (err e) w p = record { at = p.at }
  report_failed-kept name (ok u) w p = p

  apply_change-kept :
      (host : Host) (wanted : Map Service) (c : Change) (w : World r)
      → On r P w
      → On r P (apply_change host wanted c w)
  unfolding apply_change apply_set apply_remove
  apply_change-kept host wanted c w p =
      let s = get_or empty_service (lookup c.service wanted) in
      let said = declare c.service s w in
      let q : On r P said = record { at = p.at } in
      On-if r P (beq c.action action_remove) _ _
        (after_stop-kept c.service _ _ (On-run r P _ w (Holds-stop c.service) p))
        (On-if r P (is_job s) _ _ (On-run r P _ said (Holds-retire r P k s) q) (
          report_failed-kept c.service _ _
            (On-run r P _ said (Holds-create r P k host s (want_running s)) q)))

  apply_each-kept :
      (host : Host) (wanted : Map Service) (cs : List Change) (w : World r)
      → On r P w
      → On r P (apply_each host wanted cs w)
  unfolding apply_each
  apply_each-kept host wanted [] w p = p
  apply_each-kept host wanted (c ∷ cs) w p =
      apply_each-kept host wanted cs (apply_change host wanted c w)
        (apply_change-kept host wanted c w p)

  declare_all-kept : (ss : List Service) (w : World r) → On r P w → On r P (declare_all ss w)
  unfolding declare_all
  declare_all-kept [] w p = p
  declare_all-kept (s ∷ ss) w p = declare_all-kept ss (declare s.name s w) (record { at = p.at })

  pub apply-kept :
      (host : Host) (declared : List Service) (w : World r)
      → On r P w
      → On r P (apply host declared w).1
  unfolding apply
  apply-kept host declared w p = record {
    at = (declare_all-kept declared _ (apply_each-kept host _ (changes_of declared w) w p)).at;
  }
