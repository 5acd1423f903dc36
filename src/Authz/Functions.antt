-- ===== src/Authz/Functions.antt =====
-- overstate_ui/authz.py: the classes of Salt functions, the permission that publishes each, the
-- bodies that a caller may see and the schedules that a caller may define. `allowed_funs` is
-- ALLOWED_FUNS of overstate_ui/jobs_helpers.py, with the operations and presets written out.
pub mod Classes
pub mod Schedules
use overstate.Prelude.{
  String, Bool, true, false, not, ◌||◌, ◌&&◌, Option, none, some, List, [], ◌∷◌, ◌==◌, ◌<>◌,
  starts_with, if◌then◌else◌,
}
use overstate.Sets.{contains}
use overstate.Store.{World, User}
use overstate.Authz.Flags.{scoped_mode}
use overstate.Authz.Decide.{decide, has_fleet}

abbrev pub read_class : List String
read_class =
    "test.ping" ∷ "service.status" ∷ "schedule.list" ∷ "beacons.list" ∷ "sys.doc"
    ∷ "sys.list_functions" ∷ []

abbrev pub change_class : List String
change_class =
    "pkg.install" ∷ "pkg.remove" ∷ "service.restart" ∷ "ps.kill_pid" ∷ "mine.update"
    ∷ "saltutil.sync_all" ∷ "saltutil.refresh_pillar" ∷ []

abbrev pub state_class : List String
state_class = "state.apply" ∷ "state.highstate" ∷ "state.show_sls" ∷ []

abbrev pub api_read_funs : List String
api_read_funs =
    "test.ping" ∷ "service.status" ∷ "schedule.list" ∷ "beacons.list" ∷ "sys.doc"
    ∷ "sys.list_functions" ∷ []

abbrev pub allowed_funs : List String
allowed_funs =
    "test.ping" ∷ "state.apply" ∷ "state.highstate" ∷ "pkg.install" ∷ "pkg.remove"
    ∷ "service.restart" ∷ "service.status" ∷ "ps.kill_pid" ∷ "mine.update"
    ∷ "saltutil.refresh_pillar" ∷ "saltutil.sync_all" ∷ "schedule.run_job" ∷ "schedule.list"
    ∷ "schedule.add" ∷ "schedule.enable_job" ∷ "schedule.disable_job" ∷ "schedule.delete"
    ∷ "beacons.list" ∷ "beacons.enable_beacon" ∷ "beacons.disable_beacon" ∷ "grains.items"
    ∷ "pillar.items" ∷ "mine.get" ∷ "sys.doc" ∷ "sys.list_functions" ∷ "state.show_highstate"
    ∷ "state.show_sls" ∷ "saltutil.kill_job" ∷ []

unfoldable pub is_allowed_fun : String → Bool
is_allowed_fun fun = contains allowed_funs fun

-- The class of a function, by its name in the source.
pub data Class : Type 0 where
  read change state orchestrate : Class

abbrev pub class_name : Class → String
class_name read = "read"
class_name change = "change"
class_name state = "state"
class_name orchestrate = "orchestrate"

unfoldable pub function_class : String → Option Class
function_class fun =
    if contains read_class fun
    then some read
    else if contains change_class fun
    then some change
    else if contains state_class fun
    then some state
    else if fun == "state.orchestrate"
    then some orchestrate
    else none

unfoldable pub other_perm : String → Option String
other_perm fun =
    if fun == "pillar.items" || fun == "grains.items" || fun == "state.show_highstate"
    then some "pillar.read"
    else if fun == "mine.get"
    then some "mine.read"
    else if fun == "beacons.enable_beacon" || fun == "beacons.disable_beacon"
    then some "beacon.write"
    else if fun == "saltutil.kill_job"
    then some "job.kill"
    else if fun == "schedule.add" || (starts_with fun "schedule." && is_allowed_fun fun)
    then some "schedule.write"
    else none

-- An execution class has its own permission; orchestration falls through to the other functions.
abbrev pub class_perm : Option Class → String → Option String
class_perm none fun = other_perm fun
class_perm (some orchestrate) fun = other_perm fun
class_perm (some c) fun = some ("job.run." <> class_name c)

unfoldable pub publish_perm : String → Option String
publish_perm fun = class_perm (function_class fun) fun

unfoldable pub can_see_return_body : World → User → String → String → Bool
can_see_return_body w user fun mid =
    if not (scoped_mode w)
    then true
    else if fun == "state.apply" || fun == "state.highstate" || fun == "state.show_sls"
    then decide w user "job.run.state" (some mid) none
    else if fun == "state.show_highstate"
        || fun == "pillar.items"
        || fun == "grains.items"
        || fun == "beacons.list"
    then decide w user "pillar.read" (some mid) none
    else if fun == "state.orchestrate"
    then has_fleet w user "pillar.read"
    else if fun == "mine.get"
    then decide w user "mine.read" (some mid) none
    else decide w user "job.read" (some mid) none

abbrev fleet_class : World → User → Option Class → Bool
fleet_class w user none = false
fleet_class w user (some orchestrate) = has_fleet w user "job.run.orchestrate"
fleet_class w user (some c) =
    has_fleet w user ("job.run." <> class_name c)
    || has_fleet w user ("schedule.allow." <> class_name c)

abbrev on_minion_class : World → User → String → Option Class → Bool
on_minion_class w user mid none = false
on_minion_class w user mid (some orchestrate) = decide w user "job.run.orchestrate" none none
on_minion_class w user mid (some c) =
    decide w user ("job.run." <> class_name c) (some mid) none
    || decide w user ("schedule.allow." <> class_name c) (some mid) none

-- A null function is written as the empty text, which the source treats alike.
unfoldable pub may_define_schedule_fleet : World → User → String → Bool
may_define_schedule_fleet w user fun =
    if fun == "" || not (is_allowed_fun fun)
    then false
    else if not (has_fleet w user "schedule.write")
    then false
    else fleet_class w user (function_class fun)

unfoldable pub may_define_schedule : World → User → String → String → Bool
may_define_schedule w user mid fun =
    if not (is_allowed_fun fun)
    then false
    else if not (decide w user "schedule.write" (some mid) none)
    then false
    else on_minion_class w user mid (function_class fun)
