-- ===== src/Supervisor/Backup/Recorded.antt =====
-- supervisor/backup.go: what a backup answers, and what it leaves.
use hostd.Base.{
  is_some, if◌then◌else◌, ℕ, ◌≡◌, refl, ap, ◌∙◌, ◌⊎◌, inl, inr, Bool, true, false, not, Option,
  none, some, List, [], ◌∷◌, ◌++◌, append_assoc, Text, codes, lookup, Map,
}
use hostd.Service.{Service}
use hostd.Supervisor.{
  Runtime, World, Event, Error, unknown_service, no_backup, no_runtime, runtime_error,
}
use hostd.Supervisor.Act.{
  Outcome, ok, err, next, ◌>>=◌, ◌>>◌, pure, fail, expect, change, stop_if, need_runtime,
}
use hostd.Supervisor.Act.Fixes.{Fixes-create_run}
use hostd.Supervisor.Containers.{Host}
use hostd.Supervisor.Schedule.{run_id, create_run}
use hostd.Supervisor.Backup.{
  BackupRun, backup_target, scripted, say_backup, finish_backup, run_backup, backup,
}

abbrev pub backup_event : Text → ℕ → Event
backup_event name slot = record { kind = codes "backup"; service = name; run = run_id slot }

-- Why a backup is not begun: whether the service is declared, the machine has a runtime and the
-- service a script.
abbrev pub refusal : Bool → Bool → Bool → Text → Option Error
refusal known has_runtime scripted name =
    if not known
    then some (unknown_service name)
    else if not has_runtime
    then some no_runtime
    else if not scripted
    then some (no_backup name)
    else none

-- What a backup returns for the answer of its waiting.
abbrev pub backed : Text → ℕ → Text → Text → Option ℕ → Outcome BackupRun
backed name slot target id none = err runtime_error
backed name slot target id (some code) =
    ok (record { run = run_id slot; container = id; path = target; exit = code })

-- All of a world but the machine.
abbrev Parts : Type 0
Parts = Map Service × Bool × Map Text × Map ℕ × Map Bool × Bool × List Event

module _ {r : Runtime} where
  -- A backup that is begun, of a service: its container could not be made, and that is the answer,
  -- with nothing on record; or its beginning and its end are, and the answer is that of the waiting.
  -- Nothing else has changed but the machine, by what making the container did.
  abbrev pub IsRun :
      Text
      → ℕ
      → Text
      → (Text → Option ℕ)
      → Outcome Text × World r
      → World r
      → Outcome BackupRun × World r
      → Type 0
  IsRun name slot target waited made w p =
      (p.1 ≡ record w { machine = made.1.machine; events = p.1.events })
      × (((e : Error) × (made.0 ≡ err e) × (p.0 ≡ err e) × (p.1.events ≡ w.events))
          ⊎ ((id : Text) × (made.0 ≡ ok id)
              × (p.0 ≡ backed name slot target id (waited id))
              × (p.1.events ≡ w.events ++ (backup_event name slot ∷ backup_event name slot ∷ []))))

  abbrev parts : World r → Parts
  parts w = (w.declared, w.has_runtime, w.reported, w.fired, w.awaiting, w.woken, w.events)

  abbrev whole : r.State → List Event → Parts → World r
  whole m es p = record {
    declared = p.0;
    has_runtime = p.1;
    machine = m;
    reported = p.2;
    fired = p.3;
    awaiting = p.4;
    woken = p.5;
    events = es;
  }

  create_run-parts :
      (host : Host) (s : Service) (slot : ℕ) (w : World r)
      → parts (create_run host s slot w).1 ≡ parts w
  create_run-parts host s slot w = (Fixes-create_run r parts (λ w m. refl) host s slot).at w

  finish_backup-backed :
      (name id target : Text) (slot : ℕ) (o : Option ℕ) (w : World r)
      → finish_backup name (run_id slot) id target o w
        ≡ (backed name slot target id o, say_backup name (run_id slot) w)
  unfolding finish_backup ◌>>◌ ◌>>=◌ change fail pure
  finish_backup-backed name id target slot none w = refl
  finish_backup-backed name id target slot (some code) w = refl

  begun :
      (name target : Text) (slot : ℕ) (waited : Text → Option ℕ) (w : World r)
      (made : Outcome Text × World r)
      → parts made.1 ≡ parts w
      → IsRun name slot target waited made w (
          next
            (λ id.
              change (say_backup name (run_id slot))
              >> finish_backup name (run_id slot) id target (waited id))
            made.0
            made.1)
  unfolding ◌>>◌ ◌>>=◌ change
  begun name target slot waited w (err e, w') same =
      (ap (whole w'.machine w'.events) same, inl (e, refl, refl, ap (λ (p : Parts). p.6) same))
  begun name target slot waited w (ok id, w') same =
      let b = backup_event name slot in
      let w₁ = say_backup name (run_id slot) w' in
      rw (finish_backup-backed name id target slot (waited id) w₁) (
        ap (whole w'.machine ((w'.events ++ b ∷ []) ++ b ∷ [])) same,
        inr (
          id,
          refl,
          refl,
          ap (λ (p : Parts). (p.6 ++ b ∷ []) ++ b ∷ []) same
              ∙ append_assoc w.events (b ∷ []) (b ∷ []),
        ),
      )

  -- What a backup comes to, of the declaration there is, whether there is a runtime, and whether a
  -- script: it is refused, and nothing at all has changed; or it is begun.
  abbrev pub IsBacked :
      Host
      → Option Service
      → Bool
      → Bool
      → Text
      → ℕ
      → Text
      → (Text → Option ℕ)
      → World r
      → Outcome BackupRun × World r
      → Type 0
  IsBacked host o has_runtime has_script name slot target waited w p =
      ((e : Error) × (refusal (is_some o) has_runtime has_script name ≡ some e) × (p ≡ (err e, w)))
      ⊎ ((s : Service) × (refusal (is_some o) has_runtime has_script name ≡ none)
          × (o ≡ some s)
          × IsRun name slot target waited (create_run host (scripted s name target) slot w) w p)

  run_backup-IsRun :
      (host : Host) (s : Service) (name : Text) (slot : ℕ) (target : Text)
      (waited : Text → Option ℕ) (w : World r)
      → IsRun name slot target waited
          (create_run host (scripted s name target) slot w)
          w
          (run_backup host s name slot target waited w)
  unfolding run_backup ◌>>=◌
  run_backup-IsRun host s name slot target waited w =
      begun name target slot waited w (create_run host (scripted s name target) slot w)
        (create_run-parts host (scripted s name target) slot w)

  guarded-IsBacked :
      (host : Host) (s : Service) (b c : Bool) (name : Text) (slot : ℕ) (target : Text)
      (waited : Text → Option ℕ) (w : World r)
      → IsBacked host (some s) b c name slot target waited w (
          ((λ w. stop_if (not b) no_runtime w)
              >> (stop_if (not c) (no_backup name) >> run_backup host s name slot target waited))
            w)
  unfolding ◌>>=◌ ◌>>◌ stop_if
  guarded-IsBacked host s false c name slot target waited w = inl (no_runtime, refl, refl)
  guarded-IsBacked host s true false name slot target waited w = inl (no_backup name, refl, refl)
  guarded-IsBacked host s true true name slot target waited w =
      inr (s, refl, refl, run_backup-IsRun host s name slot target waited w)

  known-IsBacked :
      (host : Host) (o : Option Service) (c : Bool) (name : Text) (slot : ℕ) (target : Text)
      (waited : Text → Option ℕ) (w : World r)
      → IsBacked host o w.has_runtime c name slot target waited w (
          (expect (unknown_service name) o >>= (λ s.
              need_runtime
              >> (stop_if (not c) (no_backup name) >> run_backup host s name slot target waited)))
            w)
  unfolding ◌>>=◌ ◌>>◌ expect need_runtime
  known-IsBacked host none c name slot target waited w = inl (unknown_service name, refl, refl)
  known-IsBacked host (some s) c name slot target waited w =
      guarded-IsBacked host s w.has_runtime c name slot target waited w

  -- A backup of a service that is not declared, on a machine without a runtime, or of a service that
  -- has no script, is that error, in this order, and changes nothing. Any other is begun, with the
  -- script for the service's command: if its container cannot be made, that is the error and nothing
  -- is put on record; otherwise its beginning and its end are, whatever the script and the waiting
  -- came to, and it fails only where the waiting did. Nothing but the record and the machine changes,
  -- and the machine only by the making of the container.
  pub backup-IsBacked :
      (host : Host) (has_script : Text → Bool) (stamp : ℕ → Text) (name : Text) (slot : ℕ)
      (waited : Text → Option ℕ) (w : World r)
      → IsBacked host
          (lookup name w.declared)
          w.has_runtime
          (has_script name)
          name
          slot
          (backup_target stamp name slot)
          waited
          w
          (backup host has_script stamp name slot waited w)
  unfolding backup ◌>>=◌
  backup-IsBacked host has_script stamp name slot waited w =
      known-IsBacked host (lookup name w.declared) (has_script name) name slot
        (backup_target stamp name slot) waited w

  -- A backup leaves the awaited runs alone.
  pub backup-awaiting :
      (host : Host) (has_script : Text → Bool) (stamp : ℕ → Text) (name : Text) (slot : ℕ)
      (waited : Text → Option ℕ) (w : World r)
      → (backup host has_script stamp name slot waited w).1.awaiting ≡ w.awaiting
  backup-awaiting host has_script stamp name slot waited w =
      elim (backup-IsBacked host has_script stamp name slot waited w) [
        | inl (e, why, same) ↦ ap (λ (p : Outcome BackupRun × World r). p.1.awaiting) same
        | inr (s, ready, known, ran) ↦ ap (λ (u : World r). u.awaiting) ran.0
      ]
