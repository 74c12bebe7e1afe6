-- ===== src/Supervisor/Await/Accounted.antt =====
-- What a run's waiter puts on record, whatever else happens between its moves.
use hostd.Base.{some, ℕ, suc, ◌≤◌, ◌≡◌, ◌≢◌, ◌⊎◌, Bool, true, false, Option, none, Text, lookup}
use hostd.Supervisor.{Runtime, World}
use hostd.Supervisor.Await.{WaitPhase, waiting, noted, leaving, over, answered, Waiter, finishes}

module _ (service run : Text) where
  module _ {r : Runtime} where
    -- What both worlds say of the run.
    record Same (id : Text) (w w' : World r) : Type 0 where
      ends : finishes service run w'.events ≡ finishes service run w.events
      place : lookup id w'.awaiting ≡ lookup id w.awaiting

-- What is on record of a run at each place of its waiter: how many ends since it began, whether
-- its container was removed, and its place among the awaited.
abbrev pub Accounts : ℕ → WaitPhase → ℕ → Bool → Option Bool → Type 0
Accounts before waiting ends removed place =
    (ends ≡ before) × (removed ≡ false) × (place ≡ some true)
Accounts before (answered a) ends removed place =
    (ends ≡ before) × (removed ≡ false) × (place ≡ some true)
Accounts before noted ends removed place =
    (ends ≡ suc before) × (removed ≡ false) × (place ≡ some true)
Accounts before leaving ends removed place =
    (((ends ≡ before) × (removed ≡ false)) ⊎ (ends ≡ suc before)) × (place ≡ some true)
Accounts before over ends removed place =
    (((ends ≡ before) × (removed ≡ false)) ⊎ (ends ≡ suc before)) × (place ≡ none)

abbrev pub IsOnce : ℕ → WaitPhase → ℕ → Bool → Option Bool → Type 0
IsOnce before p ends removed place =
    (before ≤ ends)
    × (ends ≤ suc before)
    × ((removed ≡ false) ⊎ (ends ≡ suc before))
    × (((p ≢ over) × (place ≡ some true)) ⊎ ((p ≡ over) × (place ≡ none)))

module _ {r : Runtime} (service run id : Text) where
  pub record IsAccounted (before : ℕ) (x : Waiter r) : Type 0 where
    pub accounts :
        Accounts before x.phase
          (finishes service run x.world.events)
          x.removed
          (lookup id x.world.awaiting)
