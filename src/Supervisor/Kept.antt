-- ===== src/Supervisor/Kept.antt =====
-- supervisor/: what every call of the runtime preserves, the supervisor preserves, in whatever
-- order its operations run.
pub mod Containers
pub mod Commands
pub mod Rounds
use hostd.Base.{ℕ, List, Text}
use hostd.Service.{Service}
use hostd.Supervisor.{Runtime, World}
use hostd.Supervisor.Act.Holds.{IsKept, On, On-run}
use hostd.Supervisor.Containers.{Host}
use hostd.Supervisor.Commands.{start, stop, deploy, remove, restart}
use hostd.Supervisor.Apply.{apply}
use hostd.Supervisor.Schedule.{start_run, run_now, fire_due}
use hostd.Supervisor.Drift.{observe, stop_overrun}
use hostd.Supervisor.Kept.Commands.{
  Holds-start, Holds-stop, Holds-deploy, Holds-remove, Holds-restart, apply-kept,
}
use hostd.Supervisor.Kept.Rounds.{Holds-run_now, fire_due-kept, observe-kept, stop_overrun-kept}

module _ (r : Runtime) (host : Host) where
  -- One operation of the supervisor, asked for by an operator or by its clocks.
  pub data Step : World r → World r → Type 0 where
    started : (name : Text) (w : World r) → Step w (start host name w).1
    stopped : (name : Text) (w : World r) → Step w (stop name w).1
    restarted : (name : Text) (w : World r) → Step w (restart host name w).1
    deployed : (s : Service) (w : World r) → Step w (deploy host s w).1
    removed : (name : Text) (w : World r) → Step w (remove name w).1
    applied : (declared : List Service) (w : World r) → Step w (apply host declared w).1
    ran : (name : Text) (now : ℕ) (w : World r) → Step w (run_now host name now w).1
    fired : (now : ℕ) (w : World r) → Step w (fire_due host now w)
    observed : (w : World r) → Step w (observe host w)
    overran : (name run id : Text) (w : World r) → Step w (stop_overrun name run id w)

  pub data Reach (w : World r) : World r → Type 0 where
    here : Reach w w
    then_step : {u v : World r} → Reach w u → Step u v → Reach w v

  module _ (P : r.State → Type 0) (k : IsKept r P) where
    Step-On : {w w' : World r} → Step w w' → On r P w → On r P w'
    Step-On (started name w) p = On-run r P _ w (Holds-start r P k host name) p
    Step-On (stopped name w) p = On-run r P _ w (Holds-stop r P k name) p
    Step-On (restarted name w) p = On-run r P _ w (Holds-restart r P k host name) p
    Step-On (deployed s w) p = On-run r P _ w (Holds-deploy r P k host s) p
    Step-On (removed name w) p = On-run r P _ w (Holds-remove r P k name) p
    Step-On (applied declared w) p = apply-kept r P k host declared w p
    Step-On (ran name now w) p = On-run r P _ w (Holds-run_now r P k host name now) p
    Step-On (fired now w) p = fire_due-kept r P k host now w p
    Step-On (observed w) p = observe-kept r P k host w p
    Step-On (overran name run id w) p = stop_overrun-kept r P k name run id w p

    pub Reach-On : {w w' : World r} → Reach w w' → On r P w → On r P w'
    Reach-On here p = p
    Reach-On (then_step before step) p = Step-On step (Reach-On before p)
