-- ===== src/Authz/Targets.antt =====
-- overstate_ui/authz.py: narrowing a job's target to the caller's minions, and the kill rule.
pub mod Narrowing
pub mod Stored
use overstate.Prelude.{
  String, Bool, true, false, not, ◌||◌, Option, none, some, List, [], ◌∷◌, ◌==◌, if◌then◌else◌,
  ◌&&◌,
}
use overstate.Text.{strip, join}
use overstate.Text.Lists.{csv_set}
use overstate.Sets.{inter, subset, is_empty}
use overstate.Sets.Sorting.{sorted}
use overstate.Store.{World, User}
use overstate.Authz.Scopes.{snapshot_ids, glob_ids, grain_ids, job_group_members}
use overstate.Authz.Decide.{has_fleet, minions_with}

-- `AuthzDenied`
pub record Denied : Type 0 where
  pub perm : String
  pub reason : String
  pub detail : String

-- `_REASON_DETAILS.get(reason, "no-grant")`
unfoldable pub reason_detail : String → String
reason_detail reason =
    if reason == "target type needs a fleet grant"
    then "needs-fleet"
    else if reason == "unknown target type"
    then "needs-fleet"
    else if reason == "unknown function class"
    then "no-grant"
    else if reason == "empty intersection"
    then "empty-intersection"
    else if reason == "out of scope"
    then "out-of-scope"
    else "no-grant"

-- `AuthzDenied(perm, reason, detail)`; an empty detail counts as absent.
unfoldable pub authz_denied : String → String → Option String → Denied
authz_denied perm reason none = record {
  perm = perm;
  reason = reason;
  detail = reason_detail reason;
}
authz_denied perm reason (some detail) = record {
  perm = perm;
  reason = reason;
  detail = if detail == "" then reason_detail reason else detail;
}

pub data Result {ℓ} (A : Type ℓ) : Type ℓ where
  ok : A → Result A
  denied : Denied → Result A

-- What `constrain_target_verbose` returns.
pub record Target : Type 0 where
  pub tgt : String
  pub tgt_type : String
  pub requested : Option (List String)
  pub hit : Option (List String)

abbrev pub refuse {ℓ} : {A : Type ℓ} → String → String → Result A
refuse perm reason = denied (authz_denied perm reason none)

-- The request against the snapshot, by target type.
unfoldable pub requested_ids : World → String → String → String → Result (List String)
requested_ids w perm tgt tgt_type =
    if tgt_type == "list"
    then ok (inter (csv_set tgt) (snapshot_ids w))
    else if tgt_type == "glob"
    then ok (glob_ids w tgt)
    else if tgt_type == "group"
    then ok (inter (job_group_members w tgt) (snapshot_ids w))
    else if tgt_type == "grain"
    then ok (grain_ids w tgt)
    else if tgt_type == "compound" || tgt_type == "nodegroup"
    then refuse perm "target type needs a fleet grant"
    else refuse perm "unknown target type"

-- The intersection, published as a list.
unfoldable pub narrow : String → List String → List String → Result Target
narrow perm allowed requested =
    let hit = inter requested allowed in
    if is_empty hit
    then refuse perm "empty intersection"
    else ok (record {
      tgt = join (sorted hit);
      tgt_type = "list";
      requested = some requested;
      hit = some hit;
    })

abbrev narrow_result : String → List String → Result (List String) → Result Target
narrow_result perm allowed (ok requested) = narrow perm allowed requested
narrow_result perm allowed (denied d) = denied d

unfoldable pub constrain_target_verbose : World → User → String → String → String → Result Target
constrain_target_verbose w user perm tgt tgt_type =
    if has_fleet w user perm
    then ok (record { tgt = tgt; tgt_type = tgt_type; requested = none; hit = none })
    else narrow_result perm (minions_with w user perm) (requested_ids w perm tgt tgt_type)

abbrev published : Result Target → Result (String × String)
published (ok t) = ok (t.tgt, t.tgt_type)
published (denied d) = denied d

unfoldable pub constrain_target : World → User → String → String → String → Result (String × String)
constrain_target w user perm tgt tgt_type =
    published (constrain_target_verbose w user perm tgt tgt_type)

-- The stored targets that a scoped caller may kill, against the snapshot.
unfoldable pub kill_ids : World → String → String → Result (List String)
kill_ids w tgt tgt_type =
    if tgt_type == "list"
    then ok (inter (csv_set tgt) (snapshot_ids w))
    else if tgt_type == "glob"
    then ok (glob_ids w tgt)
    else if tgt_type == "group"
    then ok (inter (job_group_members w tgt) (snapshot_ids w))
    else refuse "job.kill" "unknown target type"

unfoldable pub kill_within : List String → List String → Result (String × String)
kill_within allowed resolved =
    if is_empty resolved || not (subset resolved allowed)
    then refuse "job.kill" "out of scope"
    else ok (join (sorted resolved), "list")

abbrev kill_result : List String → Result (List String) → Result (String × String)
kill_result allowed (ok resolved) = kill_within allowed resolved
kill_result allowed (denied d) = denied d

unfoldable pub constrain_kill : World → User → String → String → Result (String × String)
constrain_kill w user tgt tgt_type =
    if has_fleet w user "job.kill"
    then ok (tgt, tgt_type)
    else if tgt_type == "compound" || tgt_type == "nodegroup" || tgt_type == "grain"
    then refuse "job.kill" "target type needs a fleet grant"
    else if tgt_type == "glob" && strip tgt == "*"
    then refuse "job.kill" "target type needs a fleet grant"
    else kill_result (minions_with w user "job.kill") (kill_ids w tgt tgt_type)

abbrev or_blank : Option String → String
or_blank none = ""
or_blank (some s) = s

-- A null target type equals none of the strings.
abbrev type_is : Option String → String → Bool
type_is none kind = false
type_is (some s) kind = s == kind

unfoldable pub published_snapshot_ids : World → Option String → Option String → Option (List String)
published_snapshot_ids w tgt tgt_type =
    if type_is tgt_type "list"
    then some (inter (csv_set (or_blank tgt)) (snapshot_ids w))
    else if type_is tgt_type "glob"
    then some (glob_ids w (or_blank tgt))
    else if type_is tgt_type "group"
    then some (inter (job_group_members w (or_blank tgt)) (snapshot_ids w))
    else if type_is tgt_type "grain"
    then some (grain_ids w (or_blank tgt))
    else none
