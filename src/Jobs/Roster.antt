-- ===== src/Jobs/Roster.antt =====
-- overstate_ui/jobs_service.py: `resolve_group_target` and `resolve_batch_roster`. A group's members
-- are hashable values; one that is not a text is in no roster.
use overstate.Prelude.{
  List, Option, String, [], if◌then◌else◌, map, none, some, ◌-◌, ◌==◌, ◌∷◌, ℕ, ◌<>◌,
}
use overstate.Json.{Json, str, list_or_nil}
use overstate.Store.{MinionGroup, World, group_by_name}
use overstate.Glob.{fnmatchcase}
use overstate.Sets.{contains, filter, is_empty}
use overstate.Sets.Sorting.{sorted}
use overstate.Text.Lists.{split_csv}
use overstate.Batch.Split.{length}

-- The texts among the members.
unfoldable pub texts : List Json → List String
texts [] = []
texts (str s ∷ vs) = s ∷ texts vs
texts (_ ∷ vs) = texts vs

abbrev pub minion_ids : World → List String
minion_ids w = map (λ m. m.id) w.minions

-- The members in the snapshot, sorted, with the number of the others, or the text of the
-- `SaltApiError` that the source raises.
pub data Resolved : Type 0 where
  resolved : List String → ℕ → Resolved
  unresolved : String → Resolved

abbrev group_targets : World → MinionGroup → Resolved
group_targets w group =
    let members = list_or_nil group.members in
    let targets = sorted (filter (contains (minion_ids w)) (texts members)) in
    if is_empty targets
    then unresolved ("group '" <> (group.name <> "' matches no known minions"))
    else resolved targets (length members - length targets)

abbrev found_group : World → String → Option MinionGroup → Resolved
found_group w name none = unresolved ("unknown group '" <> (name <> "'"))
found_group w name (some group) = group_targets w group

unfoldable pub resolve_group_target : World → String → Resolved
resolve_group_target w name = found_group w name (group_by_name w.minion_groups name)

abbrev targets_or_none : Resolved → List String
targets_or_none (unresolved error) = []
targets_or_none (resolved targets stale) = targets

unfoldable pub resolve_batch_roster : World → String → String → Option (List String)
resolve_batch_roster w tgt tgt_type =
    let roster = sorted (minion_ids w) in
    if tgt_type == "list"
    then some (filter (contains (split_csv tgt)) roster)
    else if tgt_type == "glob"
    then some (filter (λ mid. fnmatchcase mid tgt) roster)
    else if tgt_type == "group"
    then some (targets_or_none (resolve_group_target w tgt))
    else none
