-- ===== src/Users/Groups.antt =====
-- overstate_ui/users.py: the writers of local groups, their members and their grants.
pub mod Members
pub mod Joining
use overstate.Prelude.{
  Bool, List, Option, String, [], any, if◌then◌else◌, keep, map, none, not, some, suc, ℕ, ◌&&◌,
  ◌++◌, ◌<>◌, ◌==◌, ◌=?◌, ◌∷◌,
}
use overstate.Store.{LocalGroup, LocalGroupMember, World, User}
use overstate.Text.{parse_id, strip}
use overstate.Authz.Entries.{is_id}
use overstate.Authz.Memo.{Memo}
use overstate.Text.Words.{is_digit, show_int}
use overstate.Authz.Gates.{Passage, permission_required}
use overstate.Users.{
  Form, Page, fleet_user_admin, deny, flashed, guarded, refresh_members, get_or_empty, log_write,
}
use overstate.Authz.Delegation.{delegate_group_error}

-- `session.get(LocalGroup, gid)`
unfoldable pub local_group_by_id : List LocalGroup → ℕ → Option LocalGroup
local_group_by_id [] gid = none
local_group_by_id (g ∷ gs) gid = if g.id =? gid then some g else local_group_by_id gs gid

unfoldable pub name_taken : String → List LocalGroup → Bool
name_taken name gs = any (λ g. g.name == name) gs

abbrev to_groups : String → String → World → Memo → Page
to_groups category text w m = flashed "users.groups" category text w m

abbrev pub member_gate : World → User → Memo → Passage
member_gate w me m = permission_required w me ("user.admin" ∷ "grant.delegate" ∷ []) m

unfoldable pub create_local_group_view : World → Memo → String → Page
create_local_group_view w m name =
    if name == ""
    then to_groups "error" "Group needs a name." w m
    else if name_taken name w.local_groups
    then to_groups "error" ("Group '" <> (name <> "' already exists.")) w m
    else to_groups "success" ("Local group '" <> (name <> "' created."))
        (record w {
          local_groups = w.local_groups ++ record { id = w.next_group_id; name = name } ∷ [];
          next_group_id = suc w.next_group_id;
        })
        m

unfoldable pub create_local_group : World → User → Memo → Form → Page
create_local_group w me m form =
    guarded (member_gate w me m)
      (λ w' m'. create_local_group_view w' m' (strip (get_or_empty form "name")))

unfoldable pub rename_row : ℕ → String → List LocalGroup → List LocalGroup
rename_row gid name [] = []
rename_row gid name (g ∷ gs) =
    let rest = rename_row gid name gs in
    if g.id =? gid then record g { name = name } ∷ rest else g ∷ rest

unfoldable pub rename_local_group_view : World → Memo → ℕ → String → Option LocalGroup → Page
rename_local_group_view w m gid name none = to_groups "error" "Unknown group." w m
rename_local_group_view w m gid name (some group) =
    if name == ""
    then to_groups "error" "Group needs a name." w m
    else if any (λ g. g.name == name && not (g.id =? gid)) w.local_groups
    then to_groups "error" ("Group '" <> (name <> "' already exists.")) w m
    else to_groups "success" ("Local group renamed to '" <> (name <> "'."))
        (record w { local_groups = rename_row gid name w.local_groups }) m

unfoldable pub rename_local_group : World → User → Memo → ℕ → Form → Page
rename_local_group w me m gid form = guarded (member_gate w me m) (λ w' m'.
    rename_local_group_view w' m' gid (strip (get_or_empty form "name"))
      (local_group_by_id w'.local_groups gid))

-- `n in s` and `s - t` for sets of ids
unfoldable pub has_id : List ℕ → ℕ → Bool
has_id ids n = any (λ m. m =? n) ids

unfoldable pub without_ids : List ℕ → List ℕ → List ℕ
without_ids ids gone = keep (λ n. not (has_id gone n)) ids

-- The posted ids.
unfoldable pub posted_ids : List String → List ℕ
posted_ids [] = []
posted_ids (raw ∷ raws) =
    let rest = posted_ids raws in
    let n : List ℕ = elim (parse_id raw) [ none ↦ rest | some n ↦ n ∷ rest ] in
    if is_digit (strip raw) then n else rest

-- The ids of the users that exist among them.
unfoldable pub known_ids : World → List ℕ → List ℕ
known_ids w ids = map (λ u. u.id) (keep (λ u. has_id ids u.id) w.users)

unfoldable pub members_of : World → ℕ → List ℕ
members_of w gid = map (λ r. r.user_id) (keep (λ r. r.group_id =? gid) w.local_group_members)

-- The rows after the replacement of the members of one group.
unfoldable pub replace_members : ℕ → List ℕ → List ℕ → List LocalGroupMember → List LocalGroupMember
replace_members gid wanted current rows =
    keep (λ r. not (r.group_id =? gid && has_id (without_ids current wanted) r.user_id)) rows
    ++ map (λ uid. record { group_id = gid; user_id = uid }) (without_ids wanted current)

unfoldable pub count_ids : List ℕ → ℕ
count_ids [] = 0
count_ids (n ∷ ns) = suc (count_ids ns)

-- The members are replaced, everyone who was or is one is refreshed, and the change is logged.
unfoldable pub edited_page : World → User → Memo → ℕ → LocalGroup → Bool → List ℕ → Page
edited_page w me m gid group delegated wanted =
    let current = members_of w gid in
    let rows = replace_members gid wanted current w.local_group_members in
    let (w', m') =
      refresh_members (wanted ++ without_ids current wanted)
        (record w { local_group_members = rows }) m in
    let perm = if delegated then "grant.delegate" else "user.admin" in
    to_groups "success"
      ("Local group '"
        <> (group.name <> ("' now has " <> (show_int (count_ids wanted) <> " members."))))
      (log_write me ("local-group-members:" <> group.name) perm none w') m'

abbrev pub group_error : World → User → ℕ → Option String
group_error w me gid = if not (fleet_user_admin w me) then delegate_group_error w me gid else none

abbrev pub edited_members :
    World → User → Memo → ℕ → List String → LocalGroup → Option String → Page
edited_members w me m gid raws group (some err) = deny me w m
edited_members w me m gid raws group none =
    edited_page w me m gid group (not (fleet_user_admin w me)) (known_ids w (posted_ids raws))

unfoldable pub edit_members_view : World → User → Memo → ℕ → List String → Option LocalGroup → Page
edit_members_view w me m gid raws none = to_groups "error" "Unknown group." w m
edit_members_view w me m gid raws (some group) =
    edited_members w me m gid raws group (group_error w me gid)

-- `edit_local_group_members`; the texts are those of `user_ids`.
unfoldable pub edit_local_group_members : World → User → Memo → ℕ → List String → Page
edit_local_group_members w me m gid raws =
    guarded (member_gate w me m)
      (λ w' m'. edit_members_view w' me m' gid raws (local_group_by_id w'.local_groups gid))

-- The group, its members and its grants go, and the members that it had are refreshed.
unfoldable pub deleted_group : World → ℕ → World
deleted_group w gid = record w {
  local_group_members = keep (λ r. not (r.group_id =? gid)) w.local_group_members;
  grants =
      keep (λ g. not (g.subject_kind == "local_group" && is_id g.subject_group_id gid)) w.grants;
  local_groups = keep (λ g. not (g.id =? gid)) w.local_groups;
}

abbrev pub deleted_group_page : World → User → Memo → ℕ → LocalGroup → Option String → Page
deleted_group_page w me m gid group (some err) = deny me w m
deleted_group_page w me m gid group none =
    let (w', m') = refresh_members (members_of w gid) (deleted_group w gid) m in
    to_groups "success" ("Local group '" <> (group.name <> "' deleted.")) w' m'

unfoldable pub delete_group_view : World → User → Memo → ℕ → Option LocalGroup → Page
delete_group_view w me m gid none = to_groups "error" "Unknown group." w m
delete_group_view w me m gid (some group) =
    deleted_group_page w me m gid group (group_error w me gid)

unfoldable pub delete_local_group : World → User → Memo → ℕ → Page
delete_local_group w me m gid =
    guarded (member_gate w me m)
      (λ w' m'. delete_group_view w' me m' gid (local_group_by_id w'.local_groups gid))
