-- ===== src/Jobs/Launch.antt =====
-- overstate_ui/jobs_service.py: `launch`. Salt and the clocks are an argument; what Salt received is
-- a list of calls. The pods are asked in the order of the client list: with two or more the source
-- asks them in parallel, so only the order of the missed names may differ. The job's id is fresh.
pub mod Run
use overstate.Prelude.{
  Bool, List, Option, String, [], if◌then◌else◌, none, not, some, ◌&&◌, ◌++◌, ◌==◌, ◌∷◌, false, ℕ,
  all,
}
use overstate.Json.{Json, Fields}
use overstate.Sets.{diff, is_empty}
use overstate.Store.{User, World}
use overstate.Authz.Flags.{scoped_mode}
use overstate.Authz.Decide.{has_fleet}
use overstate.Authz.Functions.{publish_perm, may_define_schedule, may_define_schedule_fleet}
use overstate.Authz.Targets.{
  Denied, Result, Target, ok, denied, authz_denied, constrain_target_verbose,
}
use overstate.Jobs.{SaltReturn, Tables}
use overstate.Jobs.Args.{force_beacon_kwargs, schedule_inner_fun}
use overstate.Jobs.Sync.{Moment}

-- What the caller asks for.
pub record Fire : Type 0 where
  pub tgt : String
  pub tgt_type : String
  pub fun : String
  pub args : List Json
  pub kwarg : Option Fields
  pub asynchronous : Bool
  pub via : String
  pub tgt_requested : Option String
  pub actor_user : Option User

-- One call that a pod receives.
pub record Call : Type 0 where
  pub pod : String
  pub tgt : String
  pub tgt_type : String
  pub fun : String
  pub args : List Json
  pub kwarg : Option Fields
  pub jid : String

-- A round of the wait for the returner: the moment, the rows by then, and whether the budget is over.
pub record Round : Type 0 where
  pub moment : Moment
  pub rows : List SaltReturn
  pub over : Bool

-- Salt around a request: the pods, the error with which one refuses a publish, the reply of salt-ssh
-- or its error, the ids that are made up, the clock of the database, and the rounds of a wait.
pub data Reply : Type 0 where
  reply : Json → Reply
  failed : String → Reply

pub record Salt : Type 0 where
  pub pods : List String
  pub refuses : String → Option String
  pub ssh : Reply
  pub new_jid : String
  pub ssh_jid : String
  pub db_now : ℕ
  pub current_user : User
  pub rounds : List Round

pub record State : Type 0 where
  pub tables : Tables
  pub sent : List Call
  pub flashes : List (String × String)

pub data Outcome : Type 0 where
  fired : String → Outcome
  refused : Denied → Outcome
  salt_error : String → Outcome

-- The publish after the checks.
pub record Plan : Type 0 where
  pub tgt : String
  pub tgt_type : String
  pub args : List Json
  pub kwarg : Option Fields
  pub narrowed : List String
  pub perm : String

abbrev pub with_world : (World → World) → State → State
with_world f s = record s { tables = record s.tables { world = f s.tables.world } }

-- `flash(text, category)`
abbrev pub flash : String → String → State → State
flash text category s = record s { flashes = s.flashes ++ (text, category) ∷ [] }

abbrev pub who : Salt → Option User → User
who salt none = salt.current_user
who salt (some actor) = actor

-- `getattr(who, "username", None) or "unknown"`
abbrev pub name_of : User → String
name_of user = if user.username == "" then "unknown" else user.username

abbrev pub or_blank : Option String → String
or_blank none = ""
or_blank (some s) = s

abbrev pub all_scheduled : World → User → Option String → List String → Bool
all_scheduled w user none hit = false
all_scheduled w user (some inner) hit =
    not (is_empty hit) && all (λ mid. may_define_schedule w user mid inner) hit

-- Whether the inner function of a `schedule.add` may be scheduled on the target.
unfoldable pub schedule_allowed : World → User → Option String → Option (List String) → Bool
unfolding all
schedule_allowed w user inner none = may_define_schedule_fleet w user (or_blank inner)
schedule_allowed w user inner (some hit) = all_scheduled w user inner hit

abbrev pub narrowed_ids : Option (List String) → Option (List String) → List String
narrowed_ids (some requested) (some hit) = diff requested hit
narrowed_ids _ _ = []

-- The plan for a narrowed target, or the denial of the schedule.
unfoldable pub scheduled_plan : World → User → Fire → String → Target → Result Plan
scheduled_plan w user fire perm t =
    let (args, kwarg) = force_beacon_kwargs fire.fun fire.args fire.kwarg in
    let plan : Plan = record {
      tgt = t.tgt;
      tgt_type = t.tgt_type;
      args = args;
      kwarg = kwarg;
      narrowed = narrowed_ids t.requested t.hit;
      perm = perm;
    } in
    if fire.fun == "schedule.add"
      && not (schedule_allowed w user (schedule_inner_fun args kwarg) t.hit)
    then denied (authz_denied perm "schedule not allowed here" none)
    else ok plan

abbrev pub targeted_plan : World → User → Fire → String → Result Target → Result Plan
targeted_plan w user fire perm (denied d) = denied d
targeted_plan w user fire perm (ok t) = scheduled_plan w user fire perm t

-- The checks of scoped mode, in their order, for the permission of the function or none.
unfoldable pub scoped_plan : World → User → Fire → String → Result Plan
scoped_plan w user fire perm =
    if perm == ""
    then denied (authz_denied fire.fun "unknown function class" none)
    else if fire.via == "ssh" && not (has_fleet w user perm)
    then denied (authz_denied perm "ssh needs a fleet grant" (some "needs-fleet"))
    else targeted_plan w user fire perm
        (constrain_target_verbose w user perm fire.tgt fire.tgt_type)

unfoldable pub plan_of : World → User → Fire → Result Plan
plan_of w user fire =
    if scoped_mode w
    then scoped_plan w user fire (or_blank (publish_perm fire.fun))
    else ok (record {
      tgt = fire.tgt;
      tgt_type = fire.tgt_type;
      args = fire.args;
      kwarg = fire.kwarg;
      narrowed = [];
      perm = "";
    })

-- `publish_all_async`: every pod gets the call; the names of those that raise, with their errors.
abbrev pub call_of : Fire → Plan → String → String → Call
call_of fire plan jid pod = record {
  pod = pod;
  tgt = plan.tgt;
  tgt_type = plan.tgt_type;
  fun = fire.fun;
  args = plan.args;
  kwarg = plan.kwarg;
  jid = jid;
}

unfoldable pub missed_pods : Salt → List String → List (String × String)
missed_pods salt [] = []
missed_pods salt (pod ∷ pods) =
    let rest = missed_pods salt pods in
    elim (salt.refuses pod) [ none ↦ rest | some error ↦ (pod, error) ∷ rest ]

unfoldable pub last_error : List (String × String) → String
last_error [] = ""
last_error ((pod, error) ∷ []) = error
last_error ((pod, error) ∷ e ∷ es) = last_error (e ∷ es)
