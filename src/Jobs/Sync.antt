-- ===== src/Jobs/Sync.antt =====
-- overstate_ui/jobs_service.py: `sync_job` and what it calls. The job that the source returns is the
-- row under the jid in the tables that are left.
pub mod Frame
pub mod Returns
pub mod Completion
pub mod Done
pub mod Sticky
pub mod Waves
use overstate.Prelude.{
  Bool, List, Option, String, [], false, if◌then◌else◌, leb, ltb, map, none, not, some, starts_with,
  true, ℕ, ◌&&◌, ◌++◌, ◌-◌, ◌<>◌, ◌==◌, ◌∷◌, any, keep,
}
use overstate.Json.{Json, Fields, obj, field, end, get}
use overstate.Sets.{contains, filter, is_empty, subset, union, from_list}
use overstate.Text.Words.{lower_is}
use overstate.Jobs.{Job, JobReturn, SaltReturn, Tables, job_by_jid, returner_rows, set_complete}
use overstate.Jobs.Verdicts.{apply_sync_verdicts}

-- A call: the clocks of the process and of the database, the user who is logged in, and what the
-- master's `jobs.lookup_jid` answers, none where the call raises.
pub record Moment : Type 0 where
  pub now : ℕ
  pub db_now : ℕ
  pub current_user : Option String
  pub lookup_jid : String → Option Json

abbrev pub complete_after : ℕ
complete_after = 60000000

abbrev pub synthetic_jid_prefixes : List String
synthetic_jid_prefixes = "batch-" ∷ "orch-" ∷ "ssh-" ∷ "sync-" ∷ []

unfoldable pub is_synthetic : String → Bool
unfolding any
is_synthetic jid = any (starts_with jid) synthetic_jid_prefixes

abbrev is_batch_parent : String → Option String → Bool
is_batch_parent jid none = false
is_batch_parent jid (some group) = if group == "" then false else jid == "batch-" <> group

unfoldable pub verdicts_eligible : Job → Bool
verdicts_eligible job =
    if starts_with job.jid "batch-"
    then false
    else if is_batch_parent job.jid job.batch_group
    then false
    else not (job.tgt_type == "runner")

unfoldable pub keys : Fields → List String
keys end = []
keys (field k v fs) = k ∷ keys fs

abbrev minions_of : Json → Option (List String)
minions_of (obj (field k v fs)) = some (from_list (keys (field k v fs)))
minions_of _ = none

abbrev entry_of : String → Option Json → Option (List String)
entry_of jid (some (obj fs)) = minions_of (get jid fs)
entry_of jid _ = none

-- `_master_minions`
unfoldable pub master_minions : Moment → String → Option (List String)
master_minions m jid = entry_of jid (m.lookup_jid jid)

abbrev pub knows_none : Option (List String) → Bool
knows_none none = true
knows_none (some mids) = is_empty mids

abbrev pub within_known : List String → Option (List String) → Bool
within_known known none = true
within_known known (some mids) = subset mids known

abbrev pub verdicts_of : Moment → Job → List SaltReturn → Tables → Tables
verdicts_of m job rows t = if verdicts_eligible job then apply_sync_verdicts m.now job rows t else t

abbrev dict_or_empty : Json → Json
dict_or_empty (obj fs) = obj fs
dict_or_empty _ = obj end

-- `existing.success = success; existing.payload = payload`
unfoldable pub update_return : SaltReturn → List JobReturn → List JobReturn
update_return r [] = []
update_return r (x ∷ xs) =
    (if x.jid == r.jid && x.minion_id == r.minion_id
      then record x { success = lower_is r.success "true"; payload = dict_or_empty r.payload }
      else x)
    ∷ update_return r xs

abbrev pub return_row : SaltReturn → JobReturn
return_row r = record {
  jid = r.jid;
  minion_id = r.minion_id;
  success = lower_is r.success "true";
  retcode = 0;
  payload = dict_or_empty r.payload;
}

-- One round of the loop over the returner rows, beside the minions that were stored before it.
unfoldable pub merge_one : List String → SaltReturn → List JobReturn → List JobReturn
merge_one stored r returns =
    if contains stored r.minion_id then update_return r returns else returns ++ return_row r ∷ []

unfoldable pub merge_returns : List String → List SaltReturn → List JobReturn → List JobReturn
unfolding merge_one
merge_returns stored [] returns = returns
merge_returns stored (r ∷ rs) returns = merge_returns stored rs (merge_one stored r returns)

abbrev pub stored_minions : List JobReturn → String → List String
stored_minions returns jid = map (λ r. r.minion_id) (keep (λ r. r.jid == jid) returns)

abbrev pub row_minions : List SaltReturn → List String
row_minions rows = map (λ r. r.minion_id) rows

abbrev later : Option ℕ → Option ℕ → Option ℕ
later none y = y
later (some a) none = some a
later (some a) (some b) = some (if leb a b then b else a)

-- `max((r.alter_time for r in rows if r.alter_time), default=None)`
unfoldable pub youngest : List SaltReturn → Option ℕ
youngest [] = none
youngest (r ∷ rs) = later r.alter_time (youngest rs)

abbrev pub time_or : ℕ → Option ℕ → ℕ
time_or t none = t
time_or t (some y) = y

-- Whether a job with these rows is done.
unfoldable pub is_done : Moment → Job → List SaltReturn → List String → Bool
is_done m job rows known =
    within_known known (master_minions m job.jid)
    && ltb complete_after (m.now - time_or job.started_at (youngest rows))

abbrev user_or_unknown : Option String → String
user_or_unknown none = "unknown"
user_or_unknown (some user) = user

-- `actor or (current_user.username if current_user.is_authenticated else "unknown")`
abbrev user_or : Option String → Option String → String
user_or none current = user_or_unknown current
user_or (some actor) current = if actor == "" then user_or_unknown current else actor

-- The job row that returner rows without a job get.
abbrev pub new_job : Moment → String → Option String → SaltReturn → Job
new_job m jid actor first = record {
  jid = jid;
  fun = first.fun;
  tgt = "";
  tgt_type = "glob";
  user = user_or actor m.current_user;
  started_at = m.db_now;
  complete = false;
  batch_group = none;
  tgt_requested = none;
}

-- `job.complete = complete`, and the verdicts.
unfoldable pub decide_job : Moment → Job → List SaltReturn → Bool → Tables → Tables
decide_job m job rows complete t =
    verdicts_of m (record job { complete = complete }) rows
      (record t { jobs = set_complete job.jid complete t.jobs })

-- No returner rows.
unfoldable pub sync_silent : Moment → Job → Tables → Tables
sync_silent m job t =
    if not job.complete
      && knows_none (master_minions m job.jid)
      && ltb complete_after (m.now - job.started_at)
    then decide_job m job [] true t
    else t

-- The minions of `rows` that had no stored return.
abbrev pub new_minions : Job → List SaltReturn → Tables → List String
new_minions job rows t =
    filter (λ mid. not (contains (stored_minions t.job_returns job.jid) mid)) (row_minions rows)

abbrev pub known_minions : Job → List SaltReturn → Tables → List String
known_minions job rows t = union (stored_minions t.job_returns job.jid) (new_minions job rows t)

abbrev pub merged_tables : Job → List SaltReturn → Tables → Tables
merged_tables job rows t = record t {
  job_returns = merge_returns (stored_minions t.job_returns job.jid) rows t.job_returns;
}

-- Some returner rows.
unfoldable pub sync_rows : Moment → Job → List SaltReturn → Tables → Tables
sync_rows m job rows t =
    if job.complete && is_empty (new_minions job rows t)
    then merged_tables job rows t
    else decide_job m job rows (is_done m job rows (known_minions job rows t))
        (merged_tables job rows t)

abbrev pub sync_found :
    Moment → Option String → String → Option Job → List SaltReturn → Tables → Tables
sync_found m actor jid none [] t = t
sync_found m actor jid (some job) [] t = sync_silent m job t
sync_found m actor jid none (r ∷ rs) t =
    let job = new_job m jid actor r in
    sync_rows m job (r ∷ rs) (record t { jobs = t.jobs ++ job ∷ [] })
sync_found m actor jid (some job) (r ∷ rs) t = sync_rows m job (r ∷ rs) t

abbrev pub skips : Option Job → Bool
skips none = false
skips (some job) = is_synthetic job.jid

unfoldable pub sync_job : Moment → String → Option String → Tables → Tables
sync_job m jid actor t =
    let found = job_by_jid t.jobs jid in
    if skips found then t else sync_found m actor jid found (returner_rows t.salt_returns jid) t
