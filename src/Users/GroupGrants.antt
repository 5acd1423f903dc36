-- ===== src/Users/GroupGrants.antt =====
-- overstate_ui/users.py: `create_local_group_grant` and `delete_local_group_grant`.
pub mod Escalation
use overstate.Prelude.{Bool, Option, String, if◌then◌else◌, none, not, some, ℕ, ◌<>◌, ◌==◌, ◌||◌}
use overstate.Store.{LocalGroup, World, User, Grant}
use overstate.Authz.Memo.{Memo}
use overstate.Text.Words.{show_int}
use overstate.Users.{
  Form, Page, deny, flashed, fleet_grant_admin, guarded, delegate_grant_write_error, get_or_empty,
  log_write, refresh_members, grant_perm,
}
use overstate.Users.Scope.{refused, accepted, Checked, validate_grant_scope}
use overstate.Authz.Entries.{is_id}
use overstate.Text.{strip}
use overstate.Users.Grants.{
  add_grant, grant_detail, grant_gate, is_taken, manual_grant, grant_by_id, delete_row,
}
use overstate.Users.Groups.{local_group_by_id, members_of}

abbrev to_groups : String → String → World → Memo → Page
to_groups category text w m = flashed "users.groups" category text w m

-- After the commit: the audit row and the refresh of the members.
unfoldable pub group_granted_page : World → User → Memo → LocalGroup → Bool → Grant → Page
group_granted_page w me m group delegated g =
    let detail = grant_detail g.role g.scope_kind g.scope_value ("local_group:" <> group.name) in
    let (w', m') =
      refresh_members (members_of w group.id)
        (log_write me "grant-create" (grant_perm delegated) (some detail) w) m in
    to_groups "success" ("Granted " <> (g.role <> (" to group '" <> (group.name <> "'.")))) w' m'

unfoldable pub insert_group_grant : World → User → Memo → LocalGroup → Bool → Grant → Page
insert_group_grant w me m group delegated g =
    let page = group_granted_page (add_grant g w) me m group delegated g in
    if is_taken g w.grants then to_groups "error" "That grant already exists." w m else page

abbrev pub write_error : World → User → String → String → String → Option Grant → Option String
write_error w me role scope_kind scope_value g =
    if not (fleet_grant_admin w me)
    then delegate_grant_write_error w me role scope_kind scope_value g none
    else none

abbrev pub written_group_grant :
    World → User → Memo → LocalGroup → String → String → String → Option String → Page
written_group_grant w me m group role scope_kind scope_value (some err) = deny me w m
written_group_grant w me m group role scope_kind scope_value none =
    insert_group_grant w me m group (not (fleet_grant_admin w me))
      (manual_grant w me "local_group" none (some group.id) role scope_kind scope_value)

unfoldable pub write_group_grant :
    World → User → Memo → LocalGroup → String → String → String → Page
write_group_grant w me m group role scope_kind scope_value =
    written_group_grant w me m group role scope_kind scope_value
      (write_error w me role scope_kind scope_value none)

abbrev pub checked_group_grant : World → User → Memo → LocalGroup → String → String → Checked → Page
checked_group_grant w me m group role scope_kind (refused err) = to_groups "error" err w m
checked_group_grant w me m group role scope_kind (accepted value) =
    write_group_grant w me m group role scope_kind value

unfoldable pub create_group_grant_view : World → User → Memo → Form → Option LocalGroup → Page
create_group_grant_view w me m form none = to_groups "error" "Unknown group." w m
create_group_grant_view w me m form (some group) =
    let role = strip (get_or_empty form "role") in
    let scope_kind = strip (get_or_empty form "scope_kind") in
    checked_group_grant w me m group role scope_kind (validate_grant_scope w role scope_kind form)

unfoldable pub create_local_group_grant : World → User → Memo → ℕ → Form → Page
create_local_group_grant w me m gid form =
    guarded (grant_gate w me m)
      (λ w' m'. create_group_grant_view w' me m' form (local_group_by_id w'.local_groups gid))

abbrev name_or_id : Option LocalGroup → ℕ → String
name_or_id none gid = show_int gid
name_or_id (some group) gid = group.name

-- The page once the row is gone.
unfoldable pub group_deleted_page : World → User → Memo → ℕ → Bool → Grant → Page
group_deleted_page w me m gid delegated g =
    let label = "local_group:" <> name_or_id (local_group_by_id w.local_groups gid) gid in
    let detail = grant_detail g.role g.scope_kind g.scope_value label in
    let logged =
      log_write me "grant-delete" (grant_perm delegated) (some detail)
        (record w { grants = delete_row g.id w.grants }) in
    let (w', m') = refresh_members (members_of w gid) logged m in
    to_groups "success" "Grant deleted." w' m'

abbrev pub edited_group_grant : World → User → Memo → ℕ → Grant → Option String → Page
edited_group_grant w me m gid g (some err) = deny me w m
edited_group_grant w me m gid g none =
    group_deleted_page w me m gid (not (fleet_grant_admin w me)) g

unfoldable pub delete_found_group_grant : World → User → Memo → ℕ → Grant → Page
delete_found_group_grant w me m gid g =
    edited_group_grant w me m gid g (write_error w me g.role g.scope_kind g.scope_value (some g))

unfoldable pub delete_group_grant_view : World → User → Memo → ℕ → Option Grant → Page
delete_group_grant_view w me m gid none = to_groups "error" "Unknown grant." w m
delete_group_grant_view w me m gid (some g) =
    let page = delete_found_group_grant w me m gid g in
    if not (g.subject_kind == "local_group") || not (is_id g.subject_group_id gid)
    then to_groups "error" "Unknown grant." w m
    else page

unfoldable pub delete_local_group_grant : World → User → Memo → ℕ → ℕ → Page
delete_local_group_grant w me m gid grant_id =
    guarded (grant_gate w me m)
      (λ w' m'. delete_group_grant_view w' me m' gid (grant_by_id w'.grants grant_id))
