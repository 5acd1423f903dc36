-- ===== src/Authz/Scopes.antt =====
-- overstate_ui/authz.py: the minions of the snapshot, of groups and of scopes.
pub mod Laws
use overstate.Prelude.{String, not, Option, none, some, List, [], ◌==◌, map, keep, if◌then◌else◌}
use overstate.Text.{strip, parse_id}
use overstate.Json.{Json, obj, arr, Fields, elements, truthy, list_or_nil, to_str}
use overstate.Glob.{fnmatchcase}
use overstate.Sets.{from_list, filter, inter}
use overstate.Store.{World, MinionGroup, group_by_id, group_by_name}
use overstate.Authz.Grains.{match_grain}

unfoldable pub snapshot_ids : World → List String
snapshot_ids w = from_list (map (λ m. m.id) w.minions)

-- `row[1] or {}`
abbrev or_empty : Json → Json
or_empty v = if truthy v then v else obj Fields.end

unfoldable pub snapshot_grains : World → List (String × Json)
snapshot_grains w = map (λ m. (m.id, or_empty m.grains)) w.minions

-- `{mid for mid, grains in snapshot_grains().items() if match_grain(grains, expr)}`
unfoldable pub grain_ids : World → String → List String
grain_ids w expr =
    from_list (map (λ row. row.0) (keep (λ row. match_grain row.1 expr) (snapshot_grains w)))

-- `{m for m in snapshot_ids() if fnmatchcase(m, pattern)}`
unfoldable pub glob_ids : World → String → List String
glob_ids w pattern = filter (λ m. fnmatchcase m pattern) (snapshot_ids w)

-- `{str(m) for m in members} & snapshot_ids()`
abbrev known_members : World → Option MinionGroup → List String
known_members w none = []
known_members w (some group) =
    inter (from_list (map (to_str w.show) (list_or_nil group.members))) (snapshot_ids w)

unfoldable pub scope_group_members : World → String → List String
scope_group_members w group_id = elim (parse_id group_id) [
  | none ↦ []
  | some gid ↦ known_members w (group_by_id w.minion_groups gid)
]

unfoldable pub job_group_members : World → String → List String
job_group_members w name = known_members w (group_by_name w.minion_groups name)

-- `{str(i).strip() for i in ids if str(i).strip()} & snapshot_ids()`
abbrev listed_ids : World → Option Json → List String
listed_ids w (some (arr vs)) =
    inter (from_list (keep (λ p. not (p == "")) (map (λ v. strip (to_str w.show v)) (elements vs))))
      (snapshot_ids w)
listed_ids w _ = []

-- The minions of a scope that is not the fleet.
unfoldable pub resolve_scope : World → String → String → List String
resolve_scope w scope_kind scope_value =
    if scope_kind == "group"
    then scope_group_members w scope_value
    else if scope_kind == "list"
    then listed_ids w (w.json_loads scope_value)
    else if scope_kind == "glob"
    then glob_ids w scope_value
    else if scope_kind == "grain"
    then grain_ids w scope_value
    else []
