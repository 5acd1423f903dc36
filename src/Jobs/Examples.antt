-- ===== src/Jobs/Examples.antt =====
-- Jobs on the sample fleet.
pub mod Launches
use overstate.Jobs.Verdicts.Landed.{Landed, apply-Landed}
use overstate.Prelude.{
  List, Option, String, Bool, [], true, false, none, some, refl, ◌∷◌, ◌≡◌, ◌≤◌, ◌&&◌, ◌||◌, ◌==◌,
  ◌+◌, ◌<◌, not, any, keep, if◌then◌else◌, ℕ, inl, inr, ◌⊎◌, starts_with, arith, eq_iff,
}
use overstate.Json.{Json, bool, obj, str, field, end, null, get, truthy}
use overstate.Sets.{contains, is_empty}
use overstate.Authz.Examples.{runs}
use overstate.Authz.Sample.{site}
use overstate.Text.Words.{lower_is, show_int, digits_text, digits_of, next_digits, text_at}
use overstate.Jobs.{
  Conformity, Job, JobReturn, SaltReturn, Tables, Verdict, conformity_of, find_return, job_by_jid,
  returner_rows, set_complete, set_conformity,
}
use overstate.Jobs.Roster.{resolve_batch_roster, resolve_group_target, texts}
use overstate.Jobs.Verdicts.{
  apply_sync_verdicts, has_newer, history_limit, narrow_to_watched, prune, record_history,
  return_of, returned_status, stamp, stamp_all, state_maps, status_of, touched, with_minion,
  write_verdict, type_or_glob,
}
use overstate.Jobs.Verdicts.History.{IsBounded, apply-IsBounded, trail}
use overstate.Jobs.Sync.{
  Moment, decide_job, is_done, is_synthetic, keys, master_minions, merge_one, merge_returns,
  row_minions, sync_job, sync_rows, sync_silent, update_return, verdicts_eligible, youngest,
  complete_after,
}
use overstate.Jobs.Sync.Completion.{IsQuiet}
use overstate.Jobs.Sync.Done.{Heard, IsSettled, sync_job-IsSettled, sync_job-completes}
use overstate.Jobs.Sync.Returns.{Copied, IsKeyed, after_rows, row_of, sync_job-Copied}
use overstate.Jobs.Sync.Sticky.{NothingNew, sync_job-sticky}
use overstate.Jobs.Sync.Waves.{count_failed, count_returns, poll, wave_never_counted}
use overstate.Batch.Split.{length}
use overstate.Batch.Waves.{Batch, Outside, Progress, counted, wave_jid, sent}

-- What a sync computes with.
unfoldable pub sync_runs : Unit {0}
unfolding runs lower_is show_int conformity_of find_return job_by_jid returner_rows set_complete
    set_conformity resolve_batch_roster resolve_group_target texts apply_sync_verdicts has_newer
    narrow_to_watched prune record_history return_of returned_status stamp stamp_all state_maps
    status_of touched with_minion write_verdict decide_job is_done is_synthetic keys master_minions
    merge_one merge_returns sync_job sync_rows sync_silent update_return verdicts_eligible youngest
    row_of trail digits_text digits_of next_digits text_at
sync_runs = tt

abbrev highstate : Job
highstate = record {
  jid = "j1";
  fun = "state.apply";
  tgt = "web-*";
  tgt_type = "glob";
  user = "lead";
  started_at = 1000000;
  complete = false;
  batch_group = none;
  tgt_requested = none;
}

abbrev ok_row : SaltReturn
ok_row = record {
  jid = "j1";
  minion_id = "web-1";
  fun = "state.apply";
  success = "True";
  payload = obj (field "s" (obj (field "result" (bool true) end)) end);
  alter_time = some 2000000;
}

abbrev pub landed : Tables
landed = record {
  world = site;
  jobs = highstate ∷ [];
  job_returns = [];
  salt_returns = ok_row ∷ [];
  conformity = [];
  history = [];
  watched = [];
}

-- A minute and more later; the master has forgotten the job.
abbrev later_on : Moment
later_on = record { now = 90000000; db_now = 90000000; current_user = none; lookup_jid = λ _. none }

real : is_synthetic "j1" ≡ false
unfolding sync_runs
real = refl

keyed : IsKeyed (returner_rows landed.salt_returns "j1")
unfolding sync_runs
keyed = (refl, tt)

found : job_by_jid landed.jobs "j1" ≡ some highstate
unfolding sync_runs
found = refl

sync_job-Copied_example :
    find_return (sync_job later_on "j1" none landed).job_returns "j1" "web-1" ≡ (
      if "j1" == "j1"
      then after_rows
          (row_of (returner_rows landed.salt_returns "j1") "web-1")
          (find_return landed.job_returns "j1" "web-1")
      else find_return landed.job_returns "j1" "web-1")
sync_job-Copied_example = sync_job-Copied later_on "j1" none landed real keyed "j1" "web-1"

completed :
    job_by_jid (sync_job later_on "j1" none landed).jobs "j1"
    ≡ some (record highstate { complete = true })
unfolding sync_runs
completed = refl

sync_job-IsSettled_example :
    IsSettled later_on highstate landed (sync_job later_on "j1" none landed)
sync_job-IsSettled_example =
    sync_job-IsSettled later_on highstate landed none found real keyed refl completed

forgotten : master_minions later_on "j1" ≡ none
unfolding sync_runs
forgotten = refl

quiet_row : (a : ℕ) → some 2000000 ≡ some a → a + complete_after < 90000000
quiet_row a e = ground arith

quiet : IsQuiet later_on.now (returner_rows landed.salt_returns "j1")
unfolding sync_runs
quiet = (quiet_row, tt)

sync_job-completes_example :
    job_by_jid (sync_job later_on "j1" none landed).jobs "j1"
    ≡ some (record highstate { complete = true })
sync_job-completes_example =
    sync_job-completes later_on highstate landed none found real keyed (inl forgotten) (omega arith)
      quiet

abbrev done_job : Job
done_job = record highstate { complete = true }

abbrev stored : Tables
stored = record landed {
  jobs = done_job ∷ [];
  job_returns =
      record { jid = "j1"; minion_id = "web-1"; success = false; retcode = 0; payload = null } ∷ [];
}

done_found : job_by_jid stored.jobs "j1" ≡ some done_job
unfolding sync_runs
done_found = refl

nothing_new : NothingNew later_on done_job stored refl (returner_rows stored.salt_returns "j1")
unfolding sync_runs
nothing_new mid e = ground (arith, eq_iff "web-1" mid)

abbrev wave_batch : Batch
wave_batch = record { group = "g"; fun = "test.ping"; stop_after = 1; user = "boss" }

abbrev wave_tables : Tables
wave_tables = record landed {
  jobs = record highstate { jid = "batch-g-w1" } ∷ [];
  salt_returns = record ok_row { jid = "batch-g-w1" } ∷ [];
}

abbrev wave_outside : Outside
wave_outside = record {
  cancelled = λ _. false;
  world = λ _. site;
  publish = λ _ _. sent [];
  returned = λ _. 0;
  failed_returns = λ _. 0;
}

abbrev fresh_progress : Progress
fresh_progress = record {
  failures = 0;
  missing = 0;
  jobs = [];
  events = [];
  state = record { failures = 0; waves_done = 0; status = "running"; missing = 0 };
}

abbrev wave_rounds : List (Moment × List SaltReturn)
wave_rounds = (later_on, wave_tables.salt_returns) ∷ []

wave_found :
    job_by_jid wave_tables.jobs (wave_jid wave_batch 1)
    ≡ some (record highstate { jid = "batch-g-w1" })
unfolding sync_runs
wave_found = refl

wave_empty : count_returns wave_tables.job_returns (wave_jid wave_batch 1) ≡ 0
unfolding count_returns
wave_empty = refl

wave_counts :
    (0
      ≡ count_returns
          (poll (wave_jid wave_batch 1) wave_rounds wave_tables).job_returns
          (wave_jid wave_batch 1))
    × (0
        ≡ count_failed
            (poll (wave_jid wave_batch 1) wave_rounds wave_tables).job_returns
            (wave_jid wave_batch 1))
unfolding sync_runs poll count_returns count_failed
wave_counts = (refl, refl)

wave_never_counted_example :
    (counted wave_outside wave_batch 1 ("web-1" ∷ []) [] fresh_progress).failures
    ≡ 0 + length {A = String} ("web-1" ∷ [])
wave_never_counted_example =
    wave_never_counted wave_outside wave_batch 1 ("web-1" ∷ []) [] fresh_progress wave_tables
      (record highstate { jid = "batch-g-w1" }) wave_rounds wave_found wave_empty wave_counts.0
      wave_counts.1

apply-Landed_example :
    Landed 90000000 highstate (ok_row ∷ []) landed "web-1" (
      conformity_of
        (apply_sync_verdicts 90000000 highstate (ok_row ∷ []) landed).conformity
        "web-1")
apply-Landed_example = apply-Landed 90000000 highstate (ok_row ∷ []) landed "web-1"

no_trail : IsBounded landed.history
unfolding trail
no_trail mid = omega arith

apply-IsBounded_example :
    trail (apply_sync_verdicts 90000000 highstate (ok_row ∷ []) landed).history "web-1" ≤ 20
apply-IsBounded_example = apply-IsBounded 90000000 highstate (ok_row ∷ []) landed no_trail "web-1"
