-- ===== src/Authz/Prefixes.antt =====
-- overstate_ui/authz.py: the file prefixes of a caller, and the group of the run form.
pub mod Visibility
use overstate.Prelude.{
  Bool, List, Option, String, [], any, false, if◌then◌else◌, keep, map, none, not, some, ℕ, ◌&&◌,
  ◌==◌, ◌||◌, ◌∷◌,
}
use overstate.Text.{under_prefix, parse_id}
use overstate.Sets.{from_list, contains, add}
use overstate.Sets.Sorting.{sorted}
use overstate.Store.{World, User, MinionGroup, group_by_id}
use overstate.Authz.Catalog.{has_perm}
use overstate.Authz.Entries.{Entry, grant_entries, effective_entries}
use overstate.Authz.Decide.{has_fleet}

unfoldable pub prefix_visible : List String → String → Bool
prefix_visible prefixes rel = any (λ p. under_prefix rel p) prefixes

-- What one entry adds to the granted prefixes.
unfoldable pub grants_prefix : Entry → Bool
grants_prefix e =
    if not (e.kind == "prefix") || e.value == ""
    then false
    else has_perm e.role "file.read" || has_perm e.role "file.write"

unfoldable pub prefixes_from : List Entry → List String
prefixes_from [] = []
prefixes_from (e ∷ es) =
    let rest = prefixes_from es in if grants_prefix e then add e.value rest else rest

-- None stands for the whole tree.
unfoldable pub visible_prefixes : World → User → Option (List String)
visible_prefixes w user =
    if has_fleet w user "file.read" || has_fleet w user "file.write"
    then none
    else some (sorted (prefixes_from (effective_entries w user)))

unfoldable pub own_group_ids : World → User → List String
own_group_ids w user =
    from_list (map (λ e. e.value) (keep (λ e. e.kind == "group") (grant_entries w user)))

unfoldable pub group_scopes_from : List String → List Entry → List String
group_scopes_from perms [] = []
group_scopes_from perms (e ∷ es) =
    let rest = group_scopes_from perms es in
    if e.kind == "group" && any (has_perm e.role) perms then add e.value rest else rest

abbrev name_of : Option MinionGroup → Option String
name_of none = none
name_of (some g) = some g.name

abbrev named_by : World → Option ℕ → Option String
named_by w none = none
named_by w (some gid) = name_of (group_by_id w.minion_groups gid)

abbrev single : World → List String → Option String
single w (value ∷ []) = named_by w (parse_id value)
single w _ = none

unfoldable pub single_group_scope : World → User → List String → Option String
single_group_scope w user perms = single w (group_scopes_from perms (effective_entries w user))
