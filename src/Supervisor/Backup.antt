-- ===== src/Supervisor/Backup.antt =====
-- supervisor/backup.go: a service's own script, run in a container of its own.
--
-- What the host's file system and Go's clock answer is given: whether the script is among the
-- service's files, and the instant as it stands in the file's name. The waiting and its limit are
-- the argument `waited`: the exit code, or none when `Wait` failed or the limit passed.
pub mod Recorded
pub mod Dropped
use hostd.Base.{
  ℕ, Bool, true, false, not, Option, none, some, List, [], ◌∷◌, ◌++◌, Text, codes, lookup,
  if◌then◌else◌, ℤ, pos, negsuc, pos_part, is_positive,
}
use hostd.Service.{Service, is_job, run_limit}
use hostd.Supervisor.{Runtime, World, add_event, unknown_service, no_backup, runtime_error}
use hostd.Supervisor.Act.{Act, ◌>>=◌, ◌>>◌, pure, fail, expect, change, stop_if, need_runtime}
use hostd.Supervisor.Containers.{Host, config_dir}
use hostd.Supervisor.Schedule.{run_id, create_run}

-- `BackupScript`
abbrev pub backup_script : Text
backup_script = codes "backup_data.sh"

-- `defaultBackupLimit`, in nanoseconds
abbrev pub default_backup_limit : ℕ
default_backup_limit = 1_800_000_000_000

pub record BackupRun : Type 0 where
  pub run : Text
  pub container : Text
  pub path : Text
  pub exit : ℕ

-- Where the script is told to write.
unfoldable pub backup_target : (ℕ → Text) → Text → ℕ → Text
backup_target stamp name slot =
    codes "/tmp/" ++ (name ++ (codes "_" ++ (stamp slot ++ codes ".backup")))

-- The declaration with the script for its command.
unfoldable pub scripted : Service → Text → Text → Service
unfolding config_dir
scripted s name target = record s {
  args = codes "/bin/sh" ∷ (config_dir name ++ (codes "/" ++ backup_script)) ∷ target ∷ [];
}

-- How long a backup may take: half an hour, or what a job declares for its runs.
unfoldable pub backup_limit : Service → ℕ
backup_limit s =
    if not (is_job s)
    then default_backup_limit
    else if is_positive (run_limit s)
    then pos_part (run_limit s)
    else default_backup_limit

module _ {r : Runtime} where
  abbrev pub say_backup : Text → Text → World r → World r
  say_backup = add_event (codes "backup")

  -- What is said of the end, and returned.
  unfoldable pub finish_backup : Text → Text → Text → Text → Option ℕ → Act r BackupRun
  finish_backup name run id target none = do change (say_backup name run); fail runtime_error
  finish_backup name run id target (some code) = do
    change (say_backup name run)
    pure (record { run = run; container = id; path = target; exit = code })

  -- The run of the script, of a service that has one.
  unfoldable pub run_backup : Host → Service → Text → ℕ → Text → (Text → Option ℕ) → Act r BackupRun
  unfolding scripted finish_backup
  run_backup host s name slot target waited = do
    id ← create_run host (scripted s name target) slot
    change (say_backup name (run_id slot))
    finish_backup name (run_id slot) id target (waited id)

  -- `Backup`; `waited` answers for the container that was made.
  unfoldable pub backup :
      Host → (Text → Bool) → (ℕ → Text) → Text → ℕ → (Text → Option ℕ) → Act r BackupRun
  unfolding run_backup backup_target
  backup host has_script stamp name slot waited = do
    s ← (λ w. expect (unknown_service name) (lookup name w.declared) w)
    need_runtime
    stop_if (not (has_script name)) (no_backup name)
    run_backup host s name slot (backup_target stamp name slot) waited
