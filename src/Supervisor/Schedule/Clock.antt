-- ===== src/Supervisor/Schedule/Clock.antt =====
-- Slots, limits and the names of runs.
use Prim.Native.Nat.{◌%◌, ◌-◌}
use native.Mathlib.Nat.{mod-lt, mod-le, mod-add-div, mul-mod_right}
use hostd.Base.{
  ℕ, ◌+◌, ◌*◌, ◌/◌, ◌≤◌, ◌<◌, ◌≡◌, refl, ◌∙◌, ap, ◌++◌, Text, codes, arith, ltb, if◌then◌else◌,
}
use hostd.Strings.{cut, trim_prefix-append}
use hostd.Supervisor.Containers.{container_name}
use hostd.Supervisor.Schedule.{slot_of, kill_after, run_id, run_name, run_of}

-- A slot starts at a whole number of intervals, not after the instant it is the slot of, and less
-- than one interval before it.
pub slot_of-bounds :
    (now every : ℕ)
    → 0 < every
    → (slot_of now every ≤ now)
      × (now < slot_of now every + every)
      × (slot_of now every % every ≡ 0)
unfolding slot_of
slot_of-bounds now every h =
    let multiple : now - now % every ≡ every * (now / every) =
      (let d = mod-add-div now every in omega arith) in
    let below = mod-lt now h in
    let most = mod-le now every in
    (omega arith, omega arith, ap (λ n. n % every) multiple ∙ mul-mod_right every (now / every))

-- A run that started before now is stopped when its limit has passed since it STARTED, or at
-- once where that was in the past.
pub kill_after_deadline :
    (started now limit : ℕ)
    → now + kill_after started now limit
      ≡ (if ltb now (started + limit) then started + limit else now)
unfolding kill_after
kill_after_deadline started now limit = ground arith

-- The run that a run's container name is read back as is the run it was named for.
pub run_of-run_name :
    (service : Text) (slot : ℕ) → run_of (run_name service slot) service ≡ run_id slot
unfolding run_of run_name
run_of-run_name service slot =
    rw (trim_prefix-append (container_name service) (codes "-" ++ run_id slot)) (unfold cut in refl)
