-- ===== src/Supervisor/Backup/Dropped.antt =====
-- supervisor/schedule.go's `adoptRuns`: what a drift round makes of the container of a backup.
use mathlib.Core.Path.{subst}
use hostd.Base.{
  ℕ, sym, ◌≡◌, refl, ap, ◌∙◌, Bool, true, false, Option, none, some, List, [], ◌∷◌, ◌++◌, Text, beq,
  All, lookup, lookup-insert, get_or, Bool-cases, inl, inr, if◌then◌else◌, arith,
}
use hostd.Strings.{is_empty}
use hostd.Supervisor.{
  Runtime, World, Container, Found, found, not_found, refused, Held, containers, label_run,
}
use hostd.Supervisor.Act.{ok}
use hostd.Supervisor.Act.Holds.{IsKept, On}
use hostd.Supervisor.Containers.{Host}
use hostd.Supervisor.Schedule.{await}
use hostd.Supervisor.Drift.{
  label_of, present_of, record_ended, finish_run, adopt_run, adopt_one, adopt_each, adopt_runs,
  observe_found, observe,
}
use hostd.Supervisor.Kept.Rounds.{adopt_each-kept, observe_each-kept}
use hostd.Supervisor.Backup.{BackupRun, backup}
use hostd.Supervisor.Backup.Recorded.{backup-awaiting}

module _ {r : Runtime} where
  record_ended-awaiting :
      (run : Text) (h : Held) (f : Found Container) (w : World r)
      → (record_ended run h f w).awaiting ≡ w.awaiting
  unfolding record_ended
  record_ended-awaiting run h (found c) w = refl
  record_ended-awaiting run h not_found w = refl
  record_ended-awaiting run h refused w = refl

  -- The place of one container is not touched by the adoption of another.
  pub adopt_run-place :
      (id run : Text) (h : Held) (awaited : Bool) (w : World r)
      → beq h.container.id id ≡ false
      → lookup id (adopt_run run h awaited w).awaiting ≡ lookup id w.awaiting
  unfolding adopt_run finish_run await
  adopt_run-place id run h true w apart = refl
  adopt_run-place id run h false w apart = elim (Bool-cases h.container.running) [
    | inl going ↦ rw going (lookup-insert h.container.id id true w.awaiting ∙ (rw apart refl))
    | inr ended ↦
        rw ended (
          ap (λ m. lookup id m)
            (record_ended-awaiting run h (r.inspect h.container.id w.machine) w))
  ]

  adopt_one-place :
      (id : Text) (h : Held) (w : World r)
      → beq h.container.id id ≡ false
      → lookup id (adopt_one h w).awaiting ≡ lookup id w.awaiting
  unfolding adopt_one
  adopt_one-place id h w apart = elim (Bool-cases (is_empty (label_of label_run h))) [
    | inl plain ↦ rw plain refl
    | inr run ↦ rw run (
        adopt_run-place id (label_of label_run h) h
          (get_or false (lookup h.container.id w.awaiting)) w apart)
  ]

  adopt_each-place :
      (id : Text) (hs : List Held) (w : World r)
      → All (λ (h : Held). beq h.container.id id ≡ false) hs
      → lookup id (adopt_each hs w).awaiting ≡ lookup id w.awaiting
  unfolding adopt_each
  adopt_each-place id [] w apart = refl
  adopt_each-place id (h ∷ hs) w apart =
      adopt_each-place id hs (adopt_one h w) apart.1 ∙ adopt_one-place id h w apart.0

  adopt_each-append :
      (xs ys : List Held) (w : World r) → adopt_each (xs ++ ys) w ≡ adopt_each ys (adopt_each xs w)
  unfolding adopt_each
  adopt_each-append [] ys w = refl
  adopt_each-append (x ∷ xs) ys w = adopt_each-append xs ys (adopt_one x w)

  record_ended-machine :
      (run : Text) (h : Held) (f : Found Container) (w : World r)
      → (record_ended run h f w).machine ≡ w.machine
  unfolding record_ended
  record_ended-machine run h (found c) w = refl
  record_ended-machine run h not_found w = refl
  record_ended-machine run h refused w = refl

  -- A run that ended and that nobody awaits is asked to go.
  adopt_one-machine :
      (h : Held) (w : World r)
      → is_empty (label_of label_run h) ≡ false
      → h.container.running ≡ false
      → lookup h.container.id w.awaiting ≡ none
      → (adopt_one h w).machine ≡ (r.remove h.container.id w.machine).1
  unfolding adopt_one adopt_run finish_run
  adopt_one-machine h w labelled idle free =
      rw (labelled, free, idle)
        (ap (λ m. (r.remove h.container.id m).1)
          (record_ended-machine (label_of label_run h) h (r.inspect h.container.id w.machine) w))

module _ (r : Runtime) (P : r.State → Type 0) (kept : IsKept r P) where
  adopt_each-dropped :
      (h : Held) (first later : List Held) (w : World r)
      → ((m : r.State) → P (r.remove h.container.id m).1)
      → is_empty (label_of label_run h) ≡ false
      → h.container.running ≡ false
      → All (λ (x : Held). beq x.container.id h.container.id ≡ false) first
      → lookup h.container.id w.awaiting ≡ none
      → On r P (adopt_each (first ++ h ∷ later) w)
  adopt_each-dropped h first later w asked labelled idle apart free =
      let u = adopt_each first w in
      let place = adopt_each-place h.container.id first w apart ∙ free in
      let gone : On r P (adopt_one h u) = record {
        at = subst P (sym (adopt_one-machine h u labelled idle place)) (asked u.machine);
      } in
      subst (On r P) (sym (adopt_each-append first (h ∷ later) w))
        (unfold adopt_each in adopt_each-kept r P kept later (adopt_one h u) gone)

  On-true : (b : Bool) (v w : World r) → b ≡ true → On r P v → On r P (if b then v else w)
  On-true true v w e p = p
  On-true false v w e p = absurd (ground (arith, e))

  observe-dropped :
      (host : Host) (h : Held) (first later : List Held) (w : World r)
      → ((m : r.State) → P (r.remove h.container.id m).1)
      → is_empty (label_of label_run h) ≡ false
      → h.container.running ≡ false
      → All (λ (x : Held). beq x.container.id h.container.id ≡ false) first
      → lookup h.container.id w.awaiting ≡ none
      → w.has_runtime ≡ true
      → containers w ≡ some (first ++ h ∷ later)
      → On r P (observe host w)
  unfolding observe observe_found
  observe-dropped host h first later w asked labelled idle apart free there listed =
      let hs = first ++ h ∷ later in
      let adopted : On r P (adopt_runs hs w) =
        (unfold adopt_runs in
          On-true w.has_runtime _ w there
            (adopt_each-dropped h first later w asked labelled idle apart free)) in
      On-true w.has_runtime _ w there (
        subst (λ o. On r P (observe_found host o w)) (sym listed)
          (observe_each-kept r P kept host (present_of hs []) (adopt_runs hs w).declared
            (adopt_runs hs w) adopted))

  -- A backup does not mark its container as awaited. So when a drift round then finds it among the
  -- machine's containers, marked with its run as every run's container is, its script at an end, and
  -- nobody awaited it before, the runtime is asked within that round to remove it, whether or not its
  -- file has been read: what every removal of it brings about, and no call of the runtime undoes, is
  -- so after the round, wherever in the list it stands and whatever else the round does.
  pub backup_is_dropped :
      (host : Host) (has_script : Text → Bool) (stamp : ℕ → Text) (name : Text) (slot : ℕ)
      (waited : Text → Option ℕ) (w : World r) (done : BackupRun) (h : Held)
      (first later : List Held)
      → (backup host has_script stamp name slot waited w).0 ≡ ok done
      → lookup done.container w.awaiting ≡ none
      → h.container.id ≡ done.container
      → is_empty (label_of label_run h) ≡ false
      → h.container.running ≡ false
      → All (λ (x : Held). beq x.container.id h.container.id ≡ false) first
      → (backup host has_script stamp name slot waited w).1.has_runtime ≡ true
      → containers (backup host has_script stamp name slot waited w).1 ≡ some (first ++ h ∷ later)
      → ((m : r.State) → P (r.remove done.container m).1)
      → On r P (observe host (backup host has_script stamp name slot waited w).1)
  backup_is_dropped host has_script stamp name slot waited w done h first later ended unawaited same
        labelled idle apart there listed asked =
      observe-dropped host h first later (backup host has_script stamp name slot waited w).1
        (λ m. subst (λ id. P (r.remove id m).1) (sym same) (asked m)) labelled idle apart
        (ap (λ m. lookup h.container.id m)
            (backup-awaiting host has_script stamp name slot waited w)
          ∙ ap (λ id. lookup id w.awaiting) same
          ∙ unawaited)
        there listed
