-- ===== src/Jobs/Verdicts.antt =====
-- overstate_ui/states.py: the conformity verdicts that `apply_sync_verdicts` stamps.
pub mod Stamped
pub mod Outcomes
pub mod Status
pub mod Landed
pub mod History
use overstate.Prelude.{
  Bool, List, Option, String, [], any, false, if◌then◌else◌, keep, ltb, map, none, not, some,
  starts_with, true, ℕ, zero, suc, ◌&&◌, ◌++◌, ◌==◌, ◌∷◌,
}
use overstate.Json.{Json, Fields, obj, field, end, str, bool, null, get, truthy}
use overstate.Store.{World}
use overstate.Sets.{contains, from_list, is_empty, union}
use overstate.Sets.Sorting.{sorted}
use overstate.Text.Words.{lower_is}
use overstate.Jobs.{
  Conformity, Job, SaltReturn, Tables, Verdict, conformity_of, job_by_jid, set_conformity,
}
use overstate.Jobs.Roster.{minion_ids, resolve_batch_roster}

-- The states of a payload: its values that are mappings.
unfoldable pub state_maps : Fields → List Fields
state_maps end = []
state_maps (field k (obj fs) rest) = fs ∷ state_maps rest
state_maps (field k _ rest) = state_maps rest

abbrev is_text_in : List String → Json → Bool
is_text_in names (str s) = contains names s
is_text_in names _ = false

-- `result is False or (result is None and bool(st.get("changes")))`
abbrev drifts : Json → Json → Bool
drifts (bool b) changes = not b
drifts null changes = truthy changes
drifts _ changes = false

abbrev pub state_drifts : Fields → Bool
state_drifts st = drifts (get "result" st) (get "changes" st)

abbrev pub is_watched : List String → Fields → Bool
is_watched watched st = is_text_in watched (get "__sls__" st)

abbrev narrowed_status : List Fields → Option String × Bool
narrowed_status [] = (none, true)
narrowed_status (st ∷ sts) = (some (if any state_drifts (st ∷ sts) then "drifted" else "ok"), false)

-- `_narrow_to_watched`; an empty payload has no state.
unfoldable pub narrow_to_watched : Json → List String → Option String × Bool
unfolding state_maps keep any
narrow_to_watched (obj fs) watched = narrowed_status (keep (is_watched watched) (state_maps fs))
narrow_to_watched _ watched = (none, true)

abbrev pub history_limit : ℕ
history_limit = 20

-- The rows of the history beyond the newest `left` of a minion are deleted.
unfoldable pub prune : String → ℕ → List Verdict → List Verdict
prune mid left [] = []
prune mid zero (v ∷ vs) =
    let rest = prune mid zero vs in if v.minion_id == mid then rest else v ∷ rest
prune mid (suc left) (v ∷ vs) =
    let mine = prune mid left vs in
    let other = prune mid (suc left) vs in if v.minion_id == mid then v ∷ mine else v ∷ other

-- `_record_history`
unfoldable pub record_history : String → String → String → ℕ → List Verdict → List Verdict
unfolding prune
record_history mid jid status now history =
    prune mid history_limit
      (record { minion_id = mid; jid = jid; status = status; checked_at = now } ∷ history)

-- `returns_by_minion`: the last of the job's rows for a minion.
unfoldable pub return_of : String → List SaltReturn → String → Option SaltReturn
return_of jid [] mid = none
return_of jid (r ∷ rs) mid = elim (return_of jid rs mid) [
  | some later ↦ some later
  | none ↦ if r.jid == jid && r.minion_id == mid then some r else none
]

abbrev pub whole_job : String → String
whole_job success = if lower_is success "true" then "ok" else "drifted"

abbrev pub or_whole_job : String → Option String × Bool → String × Bool
or_whole_job success (some status, partial) = (status, partial)
or_whole_job success (none, partial) = (whole_job success, partial)

abbrev dict_or_empty : Json → Json
dict_or_empty (obj fs) = obj fs
dict_or_empty _ = obj end

-- Status and partial mark of a minion that returned.
unfoldable pub returned_status : List String → SaltReturn → String × Bool
returned_status watched r =
    if is_empty watched
    then (whole_job r.success, false)
    else or_whole_job r.success (narrow_to_watched (dict_or_empty r.payload) watched)

abbrev pub in_roster : Option (List String) → String → Bool
in_roster none mid = false
in_roster (some roster) mid = contains roster mid

-- The verdict of a minion, none where the loop passes on.
unfoldable pub status_of :
    Job → List String → Option (List String) → Option SaltReturn → String → Option (String × Bool)
status_of job watched roster (some r) mid = some (returned_status watched r)
status_of job watched roster none mid =
    if job.complete && in_roster roster mid then some ("unreachable", false) else none

-- `_aware(ejob.started_at) > _aware(job.started_at)`
abbrev pub started_later : Job → Option Job → Bool
started_later job none = false
started_later job (some other) = ltb job.started_at other.started_at

-- Whether the verdict on the minion is that of a job which started later.
abbrev pub held_by : Tables → Job → Option Conformity → Bool
held_by t job none = false
held_by t job (some c) =
    not (c.jid == "") && not (c.jid == job.jid) && started_later job (job_by_jid t.jobs c.jid)

unfoldable pub has_newer : Tables → Job → String → Bool
has_newer t job mid =
    contains (minion_ids t.world) mid && held_by t job (conformity_of t.conformity mid)

-- `Minion(id=mid, grains={}, conformity={})` where the snapshot lacks the minion
unfoldable pub with_minion : String → World → World
with_minion mid w =
    if contains (minion_ids w) mid
    then w
    else record w { minions = w.minions ++ record { id = mid; grains = obj end } ∷ [] }

unfoldable pub write_verdict : ℕ → Job → String → String × Bool → Tables → Tables
write_verdict now job mid (status, partial) t = record t {
  world = with_minion mid t.world;
  conformity =
      set_conformity mid
        (record {
          status = status;
          jid = job.jid;
          checked_at = some now;
          targeted = true;
          partial = partial;
        })
        t.conformity;
  history = record_history mid job.jid status now t.history;
}

abbrev pub stamp_with : ℕ → Job → String → Option (String × Bool) → Tables → Tables
stamp_with now job mid none t = t
stamp_with now job mid (some verdict) t =
    if has_newer t job mid then t else write_verdict now job mid verdict t

-- One round of the loop over the touched minions.
unfoldable pub stamp :
    ℕ → Job → List SaltReturn → List String → Option (List String) → String → Tables → Tables
stamp now job rows watched roster mid t =
    stamp_with now job mid (status_of job watched roster (return_of job.jid rows mid) mid) t

unfoldable pub stamp_all :
    ℕ → Job → List SaltReturn → List String → Option (List String) → List String → Tables → Tables
stamp_all now job rows watched roster [] t = t
stamp_all now job rows watched roster (mid ∷ mids) t =
    stamp_all now job rows watched roster mids (stamp now job rows watched roster mid t)

abbrev roster_ids : Option (List String) → List String
roster_ids none = []
roster_ids (some roster) = roster

-- The minions that the loop visits.
unfoldable pub touched : Job → List SaltReturn → Option (List String) → List String
touched job rows roster =
    let mids = from_list (map (λ r. r.minion_id) (keep (λ r. r.jid == job.jid) rows)) in
    if job.complete then union mids (from_list (roster_ids roster)) else mids

-- `job.tgt_type or "glob"`
abbrev pub type_or_glob : String → String
type_or_glob tgt_type = if tgt_type == "" then "glob" else tgt_type

unfoldable pub apply_sync_verdicts : ℕ → Job → List SaltReturn → Tables → Tables
apply_sync_verdicts now job rows t =
    let roster = resolve_batch_roster t.world job.tgt (type_or_glob job.tgt_type) in
    if starts_with job.fun "state."
    then stamp_all now job rows t.watched roster (sorted (touched job rows roster)) t
    else t
