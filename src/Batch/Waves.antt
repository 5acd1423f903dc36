-- ===== src/Batch/Waves.antt =====
-- overstate_ui/tasks_batch.py: `run_wave_batch`. What the loop meets outside of itself is an argument:
-- the cancel flag, the database, the answer of the pods and the returns that are there when the wait
-- for a wave ends.
pub mod Gate
pub mod Counted
pub mod Authorized
use overstate.Prelude.{
  Bool, List, Option, String, [], false, if◌then◌else◌, leb, none, not, some, suc, true, ℕ, ◌++◌,
  ◌+◌, ◌-◌, ◌<>◌, ◌==◌, ◌||◌, ◌∷◌,
}
use overstate.Authz.Functions.{publish_perm}
use overstate.Batch.Split.{length}
use overstate.Sets.Sorting.{sorted}
use overstate.Store.{User, World}
use overstate.Text.{join}
use overstate.Text.Words.{show_int}
use overstate.Authz.Decide.{minions_with, has_fleet}
use overstate.Authz.Flags.{scoped_mode}
use overstate.Sets.{filter, contains, is_empty, subset}

-- A child job.
pub record Job : Type 0 where
  pub jid : String
  pub targets : List String
  pub complete : Bool

-- An audit row: action, jid and detail.
pub record Event : Type 0 where
  pub action : String
  pub jid : String
  pub detail : String

-- `batch_state` of the parent job.
pub record BatchState : Type 0 where
  pub failures : ℕ
  pub waves_done : ℕ
  pub status : String
  pub missing : ℕ

-- An answer of the pods: an error, or the names of those that did not answer.
pub data Published : Type 0 where
  failed : Published
  sent : List String → Published

-- By wave number: the cancel flag, the database, the answer to a publish, and the counts of all and of
-- failed returns under a jid.
pub record Outside : Type 0 where
  pub cancelled : ℕ → Bool
  pub world : ℕ → World
  pub publish : ℕ → List String → Published
  pub returned : String → ℕ
  pub failed_returns : String → ℕ

pub record Batch : Type 0 where
  pub group : String
  pub fun : String
  pub stop_after : ℕ
  pub user : String

pub record Progress : Type 0 where
  pub failures : ℕ
  pub missing : ℕ
  pub jobs : List Job
  pub events : List Event
  pub state : BatchState

-- How a wave ends: the loop goes on, or it breaks with a status.
pub data Step : Type 0 where
  go_on : Progress → Step
  stop : String → Progress → Step

-- `session.query(User).filter_by(username=user).first()`
unfoldable pub user_by_name : List User → String → Option User
user_by_name [] name = none
user_by_name (u ∷ us) name = if u.username == name then some u else user_by_name us name

-- What the check of the defining user makes of a wave.
pub data WaveCheck : Type 0 where
  publish_to : List String → WaveCheck
  skipped : WaveCheck
  unauthorized : String → WaveCheck

abbrev perm_or_empty : Option String → String
perm_or_empty none = ""
perm_or_empty (some p) = p

abbrev pub run_perm : Batch → String
run_perm b = perm_or_empty (publish_perm b.fun)

-- The second check, of the batch grant itself.
unfoldable pub check_batch_grant : World → Batch → User → List String → List String → WaveCheck
check_batch_grant w b actor targets kept =
    let batch_allowed = minions_with w actor "job.batch" in
    if has_fleet w actor "job.batch"
    then publish_to kept
    else if is_empty batch_allowed || not (subset targets batch_allowed)
    then unauthorized ("batch:" <> (b.group <> ":no-batch-grant"))
    else publish_to kept

unfoldable pub check_actor : World → Batch → List String → User → WaveCheck
check_actor w b targets actor =
    let allowed = minions_with w actor (run_perm b) in
    let kept = filter (contains allowed) targets in
    if run_perm b == "" || is_empty allowed
    then unauthorized ("batch:" <> b.group)
    else if is_empty kept
    then skipped
    else check_batch_grant w b actor targets kept

abbrev pub check_user : World → Batch → List String → Option User → WaveCheck
check_user w b targets none = unauthorized ("batch:" <> b.group)
check_user w b targets (some actor) = check_actor w b targets actor

unfoldable pub check_wave : World → Batch → List String → WaveCheck
check_wave w b targets =
    if scoped_mode w
    then check_user w b targets (user_by_name w.users b.user)
    else publish_to targets

abbrev event : String → String → String → Event
event action jid detail = record { action = action; jid = jid; detail = detail }

abbrev pub wave_jid : Batch → ℕ → String
wave_jid b num = "batch-" <> (b.group <> ("-w" <> show_int num))

-- `f"{name}:{group}:{num}"`
abbrev wave_action : String → Batch → ℕ → String
wave_action name b num = name <> (":" <> (b.group <> (":" <> show_int num)))

abbrev add_event : Event → Progress → Progress
add_event e p = record p { events = p.events ++ e ∷ [] }

-- A publish that raises: every target counts as failed.
unfoldable pub failed_wave : Batch → ℕ → List String → Progress → Step
failed_wave b num targets p =
    let jid = wave_jid b num <> "-failed" in
    let p' = add_event (event (wave_action "batch-wave-failed" b num) jid "") (record p {
      failures = p.failures + length targets;
      jobs = p.jobs ++ record { jid = jid; targets = targets; complete = true } ∷ [];
    }) in
    if leb b.stop_after p'.failures then stop "stopped" p' else go_on p'

abbrev partial_event : Batch → ℕ → List String → Progress → Progress
partial_event b num [] p = p
partial_event b num (pod ∷ pods) p =
    add_event
      (event (wave_action "batch-wave-partial" b num <> (":" <> join (pod ∷ pods))) (wave_jid b num)
        "")
      p

-- The progress after the returns of a published wave are counted.
unfoldable pub counted : Outside → Batch → ℕ → List String → List String → Progress → Progress
counted o b num targets missed p =
    let jid = wave_jid b num in
    let gone = length targets - o.returned jid in
    let failures = p.failures + (o.failed_returns jid + gone) in
    let missing = p.missing + gone in
    let q = partial_event b num missed p in
    record {
      failures = failures;
      missing = missing;
      jobs = p.jobs ++ record { jid = jid; targets = targets; complete = false } ∷ [];
      events = q.events ++ event (wave_action "batch-wave" b num) jid "" ∷ [];
      state = record {
        failures = failures;
        waves_done = num;
        status = "running";
        missing = missing;
      };
    }

unfoldable pub sent_wave : Outside → Batch → ℕ → List String → List String → Progress → Step
sent_wave o b num targets missed p =
    let p' = counted o b num targets missed p in
    if leb b.stop_after p'.failures
    then stop "stopped" (add_event (event ("batch-stopped:" <> b.group) "" "") p')
    else go_on p'

abbrev pub published_wave : Outside → Batch → ℕ → List String → Progress → Published → Step
published_wave o b num targets p failed = failed_wave b num targets p
published_wave o b num targets p (sent missed) = sent_wave o b num targets missed p

abbrev pub checked_wave : Outside → Batch → ℕ → Progress → WaveCheck → Step
checked_wave o b num p (publish_to targets) =
    published_wave o b num targets p (o.publish num targets)
checked_wave o b num p skipped = go_on p
checked_wave o b num p (unauthorized detail) =
    stop "stopped" (add_event (event "batch-stopped-authz" "" detail) p)

-- One round of the loop.
unfoldable pub run_wave : Outside → Batch → ℕ → List String → Progress → Step
run_wave o b num wave p =
    let checked = checked_wave o b num p (check_wave (o.world num) b (sorted wave)) in
    if o.cancelled num
    then stop "cancelled" (add_event (event ("batch-cancelled:" <> b.group) "" "") p)
    else checked

-- The rest of the loop after a step.
abbrev pub after : (Progress → String × Progress) → Step → String × Progress
after rest (go_on p) = rest p
after rest (stop status p) = (status, p)

unfoldable pub run_waves : Outside → Batch → ℕ → List (List String) → Progress → String × Progress
run_waves o b num [] p = ("complete", p)
run_waves o b num (wave ∷ waves) p =
    after (λ p'. run_waves o b (suc num) waves p') (run_wave o b num wave p)

-- The parent job is closed with the totals, and the end is logged.
abbrev closed : Batch → String × Progress → String × Progress
closed b (status, p) = (
  status,
  record p {
    events = p.events ++ event ("batch-" <> (status <> (":" <> b.group))) "" "" ∷ [];
    state = record p.state { failures = p.failures; status = status; missing = p.missing };
  },
)

unfoldable pub run_wave_batch :
    Outside → Batch → List (List String) → BatchState → String × Progress
run_wave_batch o b waves state = closed b (
    run_waves o b 1 waves
      (record { failures = 0; missing = 0; jobs = []; events = []; state = state }))
