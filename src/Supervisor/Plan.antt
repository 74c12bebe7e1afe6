-- ===== src/Supervisor/Plan.antt =====
-- supervisor/plan.go and `sameDefinition` of commands.go: what an apply would change.
pub mod Order
pub mod Exact
pub mod Justified
use hostd.Base.{
  ℕ, Bool, true, false, not, ◌&&◌, ◌||◌, Option, none, some, List, [], ◌∷◌, ◌++◌, Text, codes, beq,
  list_eq, compare_text, if◌then◌else◌, Map, lookup, insert, get_or, sort, int_eq, any, keep_if,
  is_some,
}
use Prim.Native.Nat.{Ordering}
use mathlib.Core.List.{filter_map}
use hostd.Strings.{is_empty}
use hostd.Service.{Service}
use hostd.Supervisor.{Held}

abbrev pub action_add : Text
action_add = codes "add"

abbrev pub action_remove : Text
action_remove = codes "remove"

abbrev pub action_update : Text
action_update = codes "update"

-- One reason for an update, in the order in which `definitionDiff` writes them.
pub data Part : Type 0 where
  new_args new_env new_dir new_image new_ports new_limits new_config new_restart : Part
  new_stop_timeout new_every new_overlap new_max_parallel new_run_timeout : Part

pub data Detail : Type 0 where
  gone : Bool → Detail
  fresh : Bool → Detail
  differs : List Part → Detail

pub record Change : Type 0 where
  pub service : Text
  pub action : Text
  pub detail : Detail
  pub destructive : Bool
  pub disruptive : Bool

-- `sameDefinition`
unfoldable pub same_definition : Service → Service → Bool
same_definition a b =
    if not (beq a.dir b.dir)
      || (not (beq a.restart b.restart) || not (int_eq a.stop_timeout b.stop_timeout))
    then false
    else if not (beq a.image b.image)
        || (not (int_eq a.memory b.memory) || not (int_eq a.cpus b.cpus))
    then false
    else if not (beq a.config_hash b.config_hash)
    then false
    else if not (beq a.every b.every)
        || (not (beq a.overlap b.overlap)
            || (not (int_eq a.max_parallel b.max_parallel)
                || not (beq a.run_timeout b.run_timeout)))
    then false
    else list_eq beq a.args b.args
      && (list_eq beq a.env b.env
          && (list_eq beq a.ports b.ports && list_eq beq a.volumes b.volumes))

abbrev pub when : Bool → Part → List Part → List Part
when b p ps = if b then p ∷ ps else ps

-- `definitionDiff`; the empty list is its "definition changed".
unfoldable pub definition_diff : Service → Service → List Part
definition_diff a b = when (not (list_eq beq a.args b.args)) new_args (
    when (not (list_eq beq a.env b.env)) new_env (
      when (not (beq a.dir b.dir)) new_dir (
        when (not (beq a.image b.image)) new_image (
          when (not (list_eq beq a.ports b.ports)) new_ports (
            when (not (int_eq a.memory b.memory) || not (int_eq a.cpus b.cpus)) new_limits (
              when (not (beq a.config_hash b.config_hash)) new_config (
                when (not (beq a.restart b.restart)) new_restart (
                  when (not (int_eq a.stop_timeout b.stop_timeout)) new_stop_timeout (
                    when (not (beq a.every b.every)) new_every (
                      when (not (beq a.overlap b.overlap)) new_overlap (
                        when (not (int_eq a.max_parallel b.max_parallel)) new_max_parallel (
                          when (not (beq a.run_timeout b.run_timeout)) new_run_timeout
                            []))))))))))))

-- `live[container.Service] = container.Running`, container by container: the last one decides.
unfoldable pub live_of : List Held → Map Bool → Map Bool
live_of [] live = live
live_of (h ∷ hs) live = live_of hs (insert h.service h.container.running live)

abbrev pub is_live : Map Bool → Text → Bool
is_live live name = get_or false (lookup name live)

-- `wanted`
unfoldable pub wanted_of : List Service → Map Service → Map Service
wanted_of [] wanted = wanted
wanted_of (s ∷ ss) wanted = wanted_of ss (insert s.name s wanted)

-- What becomes of one service that is declared now.
unfoldable pub change_known : Map Bool → Map Service → Text → Service → Option Change
change_known live wanted name known = elim (lookup name wanted) [
  | none ↦ some (record {
    service = name;
    action = action_remove;
    detail = gone (not (is_empty known.every));
    destructive = is_live live name;
    disruptive = false;
  })
  | some s ↦
      if same_definition known s
      then none
      else some (record {
        service = name;
        action = action_update;
        detail = differs (definition_diff known s);
        destructive = false;
        disruptive = is_live live name;
      })
]

-- The loop over what is declared now, in the order in which the map gives its entries.
unfoldable pub changes_known : Map Bool → Map Service → Map Service → List Change
changes_known live wanted entries = filter_map (λ e. change_known live wanted e.0 e.1) entries

unfoldable pub change_new : Map Service → Text → Service → Option Change
change_new known name s =
    if is_some (lookup name known)
    then none
    else some (record {
      service = name;
      action = action_add;
      detail = fresh (not (is_empty s.every));
      destructive = false;
      disruptive = false;
    })

-- The loop over what is wanted.
unfoldable pub changes_new : Map Service → Map Service → List Change
changes_new known entries = filter_map (λ e. change_new known e.0 e.1) entries

-- By service, then by action.
unfoldable pub change_le : Change → Change → Bool
change_le a b = elim (compare_text a.service b.service) [
  | Ordering.lt ↦ true
  | Ordering.gt ↦ false
  | Ordering.eq ↦ elim (compare_text a.action b.action) [ Ordering.gt ↦ false | _ ↦ true ]
]

-- `Plan`, from what the runtime answered about its containers; no answer counts as none running.
unfoldable pub plan : Option (List Held) → Map Service → List Service → List Change
plan answer known declared =
    let wanted = wanted_of declared [] in
    let live = live_of (get_or [] answer) [] in
    sort change_le (changes_known live wanted known ++ changes_new known wanted)

-- `HasDestructive`
unfoldable pub has_destructive : List Change → Bool
has_destructive = any (λ c. c.destructive)

-- `Destructive`
unfoldable pub destructive_of : List Change → List Change
destructive_of = keep_if (λ c. c.destructive)
