-- ===== src/Tests/Machines.antt =====
-- The supervisor's theorems, each on the small machine.
use mathlib.Core.List.{Mem}
use mathlib.Core.List.Perm
use hostd.Base.{
  beq, ℕ, ◌≡◌, ◌≢◌, ◌↔◌, refl, ◌⊎◌, none, some, List, [], ◌∷◌, ◌++◌, Text, codes, arith, All,
  lookup, sort, get_or, pos, pos_part,
}
use hostd.Service.{interval, parallel}
use hostd.Supervisor.{Held, containers, report_once, clear_report}
use hostd.Supervisor.Plan.{plan, wanted_of, live_of, change_le, changes_known, changes_new}
use hostd.Supervisor.Plan.Order.{IsMap, plan_any_order}
use hostd.Supervisor.Plan.Justified.{Reason, Agrees, plan-Reason, plan-nil_iff}
use hostd.Supervisor.Act.{ok, ◌>>=◌, ◌>>◌, pure, fail, expect, ask, change, stop_if, tell}
use hostd.Supervisor.Containers.{
  prepare_mounts, prepare_each, start_created, after_start, config_mount,
}
use hostd.Service.Address.{mounts}
use hostd.Service.Duration.{parse_duration, add_term, unit_of, is_digit, atoi}
use hostd.Supervisor.Apply.{apply}
use hostd.Supervisor.Apply.Settled.{silent, problem, apply-lookup}
use hostd.Supervisor.Schedule.{
  slot_of, run_id, start_run, fire_due, start_among, runs_of, is_run_of, begin_run, create_run,
  created, run_spec, await,
}
use hostd.Supervisor.Schedule.Ceiling.{HasRoom, start_run-HasRoom, start_run-fraction}
use hostd.Supervisor.Schedule.Turns.{fire_due_once}
use hostd.Tests.{host, web, tick, old, world}

world-IsMap : IsMap world.declared
world-IsMap = (unfold lookup beq in refl, (unfold lookup beq in refl, tt))

apply-lookup_example :
    (lookup (codes "old") (apply host (web ∷ []) (silent world)).1.declared
      ≡ lookup (codes "old") (wanted_of (web ∷ []) []))
    ⊎ ((lookup (codes "old") (wanted_of (web ∷ []) []) ≡ none)
        × Mem (problem (codes "old")) (apply host (web ∷ []) (silent world)).1.events)
apply-lookup_example = apply-lookup host (web ∷ []) world (codes "old") world-IsMap

plan-Reason_example :
    All
      (Reason (live_of (get_or [] (containers world)) []) (wanted_of (web ∷ []) []) world.declared)
      (plan (containers world) world.declared (web ∷ []))
plan-Reason_example = plan-Reason (containers world) world.declared (web ∷ []) world-IsMap

plan-nil_iff_example :
    (plan none world.declared (old ∷ tick ∷ []) ≡ [])
    ↔ ((k : Text) → Agrees world.declared (wanted_of (old ∷ tick ∷ []) []) k)
plan-nil_iff_example = plan-nil_iff none world.declared (old ∷ tick ∷ []) world-IsMap

plan_any_order_example :
    sort change_le (
      changes_known
        (live_of [] [])
        (wanted_of (web ∷ []) [])
        ((codes "tick", tick) ∷ (codes "old", old) ∷ [])
      ++ changes_new world.declared (wanted_of (web ∷ []) []))
    ≡ plan none world.declared (web ∷ [])
plan_any_order_example =
    plan_any_order none world.declared (web ∷ []) ((codes "tick", tick) ∷ (codes "old", old) ∷ [])
      (wanted_of (web ∷ []) []) world-IsMap (Perm.swap _ _ _) (Perm.refl _)

-- The start of the year 2026, and half a minute later.
abbrev noon : ℕ
noon = 63_902_649_600_000_000_000

abbrev after_noon : ℕ
after_noon = 63_902_649_630_000_000_000

zero_slot : slot_of after_noon (pos_part (interval old)) ≡ slot_of noon (pos_part (interval old))
unfolding slot_of interval parse_duration
zero_slot = refl

two_minutes :
    slot_of after_noon (pos_part (interval tick)) ≡ slot_of noon (pos_part (interval tick))
unfolding slot_of interval parse_duration add_term unit_of is_digit atoi beq
two_minutes = refl

started : (start_run host tick noon world).0 ≡ ok (run_id noon)
unfolding start_run containers lookup start_among runs_of is_run_of parallel begin_run create_run
    created prepare_mounts mounts prepare_each ◌>>=◌ ◌>>◌ pure fail expect ask change stop_if tell
    start_created after_start run_spec config_mount beq report_once clear_report await
started = refl

fire_due_once_example :
    fire_due host after_noon (fire_due host noon world) ≡ fire_due host noon world
fire_due_once_example = fire_due_once host noon after_noon world (zero_slot, (two_minutes, tt))

start_run-HasRoom_example :
    (found : List Held) × (containers world ≡ some found) × HasRoom tick found
start_run-HasRoom_example = start_run-HasRoom host tick noon world (run_id noon) started

start_run-fraction_example :
    (start_run host (record tick { max_parallel = pos 500 }) noon world).0 ≢ ok (run_id noon)
start_run-fraction_example =
    start_run-fraction host (record tick { max_parallel = pos 500 }) noon world (run_id noon) refl
      (omega arith)
