-- ===== src/Jobs/Batched.antt =====
-- overstate_ui/jobs_service.py: `run_batched`, up to the queue. Decisions are those of the rows: the
-- memos of a request agree with them. The waves that are enqueued, or run at once where the queue
-- cannot be reached, are those of `run_wave_batch`.
pub mod Safe
use overstate.Prelude.{
  Bool, List, Option, String, [], if◌then◌else◌, none, not, some, ◌&&◌, ◌++◌, ◌<>◌, ◌==◌, ◌∷◌, ◌||◌,
  true, false, ℕ,
}
use overstate.Json.{Json, Fields}
use overstate.Sets.{contains, diff, is_empty, subset}
use overstate.Sets.Sorting.{sorted}
use overstate.Store.{User, World}
use overstate.Batch.Split.{length, split_roster}
use overstate.Batch.Waves.{BatchState}
use overstate.Authz.Flags.{scoped_mode}
use overstate.Authz.Decide.{decide, has_fleet, minions_with}
use overstate.Authz.Functions.{publish_perm}
use overstate.Authz.Gates.{audit_deny, log_event}
use overstate.Authz.Targets.{Denied, Result, Target, ok, denied, constrain_target_verbose}
use overstate.Jobs.{Job}
use overstate.Jobs.Args.{force_beacon_kwargs}
use overstate.Jobs.Launch.{Plan, Salt, State, name_of, or_blank, who, with_world}
use overstate.Jobs.Launch.Run.{audit_narrowed}
use overstate.Jobs.Roster.{resolve_batch_roster}

-- What `parse_batch_fields` reads from the form.
pub record BatchFields : Type 0 where
  pub mode : String
  pub size : ℕ
  pub stop_after : ℕ

pub record Request : Type 0 where
  pub tgt : String
  pub tgt_type : String
  pub fun : String
  pub args : List Json
  pub batch : BatchFields
  pub save_as : String
  pub actor_user : Option User

-- The outcome of the checks: an audited 403, a message to the form, or the roster with the ids that
-- the scope dropped.
pub data Checked : Type 0 where
  barred : String → String → Checked
  turned_back : String → Checked
  roster : List String → List String → Checked

-- A roster that the snapshot gives.
abbrev checked_roster : Option (List String) → Checked
checked_roster none = turned_back "Batch mode supports list, glob, and group targets."
checked_roster (some ids) =
    if is_empty ids then turned_back "No known minions match." else roster ids []

abbrev hit_roster : World → Request → Option (List String) → Option (List String) → Checked
hit_roster w r requested none = checked_roster (resolve_batch_roster w r.tgt r.tgt_type)
hit_roster w r none (some hit) = roster (sorted hit) []
hit_roster w r (some requested) (some hit) = roster (sorted hit) (diff requested hit)

abbrev target_roster : World → Request → Result Target → Checked
target_roster w r (denied d) = barred d.perm d.detail
target_roster w r (ok t) = hit_roster w r t.requested t.hit

-- `has_fleet(who, perm) or set(roster) <= minions_with(who, perm)`
unfoldable pub holds_roster : World → User → String → List String → Bool
holds_roster w user perm ids = has_fleet w user perm || subset ids (minions_with w user perm)

-- The grants that a batch and a saved job need on the whole roster.
abbrev pub granted : World → User → Request → Checked → Checked
granted w user r (roster ids narrowed) =
    if not (holds_roster w user "job.batch" ids)
    then barred "job.batch" "out-of-scope"
    else if not (r.save_as == "") && not (holds_roster w user "job.save" ids)
    then barred "job.save" "out-of-scope"
    else roster ids narrowed
granted w user r other = other

-- `require(perm)` and `require("job.batch")` for a logged-in user. For a token the source calls
-- `authorize` instead and drops its answer.
unfoldable pub first_missing : World → User → Request → String → Option String
first_missing w user r perm = elim r.actor_user [
  | some actor ↦ none
  | none ↦
      if not (decide w user perm none none)
      then some perm
      else if not (decide w user "job.batch" none none)
      then some "job.batch"
      else none
]

abbrev unless_missing : Option String → Checked → Checked
unless_missing none c = c
unless_missing (some perm) c = barred perm "no-grant"

unfoldable pub check_scoped : World → User → Request → String → Checked
check_scoped w user r perm =
    if perm == ""
    then barred r.fun "no-grant"
    else unless_missing (first_missing w user r perm) (
        granted w user r
          (target_roster w r (constrain_target_verbose w user perm r.tgt r.tgt_type)))

unfoldable pub check_request : World → User → Request → Checked
check_request w user r =
    if scoped_mode w
    then check_scoped w user r (or_blank (publish_perm r.fun))
    else checked_roster (resolve_batch_roster w r.tgt r.tgt_type)

pub record SavedJob : Type 0 where
  pub name : String
  pub fun : String
  pub tgt : String
  pub tgt_type : String
  pub args : List Json
  pub batch : BatchFields

-- What is handed to the queue.
pub record WaveTask : Type 0 where
  pub group : String
  pub waves : List (List String)
  pub fun : String
  pub args : List Json
  pub kwarg : Option Fields
  pub stop_after : ℕ
  pub user : String

pub record Started : Type 0 where
  pub state : State
  pub saved : List SavedJob
  pub batch_state : BatchState
  pub task : WaveTask

pub data BatchAnswer : Type 0 where
  aborted : State → BatchAnswer
  flashed : String → BatchAnswer
  started : Started → BatchAnswer

abbrev parent_job : Salt → User → Request → String → Job
parent_job salt user r group = record {
  jid = "batch-" <> group;
  fun = r.fun;
  tgt = r.tgt;
  tgt_type = r.tgt_type;
  user = name_of user;
  started_at = salt.db_now;
  complete = false;
  batch_group = some group;
  tgt_requested = none;
}

-- The rows that start a batch, and its task.
unfoldable pub start : Salt → User → Request → String → List String → List String → State → Started
start salt user r group ids narrowed s =
    let waves = split_roster ids r.batch.mode r.batch.size in
    let (args, kwarg) = force_beacon_kwargs r.fun r.args none in
    let perm = if scoped_mode s.tables.world then or_blank (publish_perm r.fun) else "" in
    let parent = parent_job salt user r group in
    let added = record s { tables = record s.tables { jobs = s.tables.jobs ++ parent ∷ [] } } in
    let logged =
      with_world (log_event (name_of user) ("batch-start:" <> group) none none none none) added in
    record {
      state = audit_narrowed salt r.actor_user narrowed perm logged;
      saved =
          if r.save_as == ""
          then []
          else record {
            name = r.save_as;
            fun = r.fun;
            tgt = r.tgt;
            tgt_type = r.tgt_type;
            args = r.args;
            batch = r.batch;
          }
            ∷ [];
      batch_state = record { failures = 0; waves_done = 0; status = "running"; missing = 0 };
      task = record {
        group = group;
        waves = waves;
        fun = r.fun;
        args = args;
        kwarg = kwarg;
        stop_after = r.batch.stop_after;
        user = name_of user;
      };
    }

abbrev pub answer_of : Salt → User → Request → String → State → Checked → BatchAnswer
answer_of salt user r group s (barred perm detail) =
    aborted (with_world (audit_deny user perm none detail (some (name_of user))) s)
answer_of salt user r group s (turned_back text) = flashed text
answer_of salt user r group s (roster ids narrowed) =
    started (start salt user r group ids narrowed s)

-- `group` is the name that `uuid4` gives.
unfoldable pub run_batched : Salt → String → Request → State → BatchAnswer
run_batched salt group r s =
    let user = who salt r.actor_user in
    answer_of salt user r group s (check_request s.tables.world user r)
