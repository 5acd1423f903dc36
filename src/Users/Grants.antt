-- ===== src/Users/Grants.antt =====
-- overstate_ui/users.py: `create_grant` and `delete_grant`, the writers of user grants.
pub mod Added
pub mod Escalation
use overstate.Prelude.{
  Bool, List, Option, String, [], any, if◌then◌else◌, keep, map, none, not, some, suc, ℕ, ◌&&◌,
  ◌++◌, ◌<>◌, ◌==◌, ◌=?◌, ◌||◌, ◌∷◌,
}
use overstate.Store.{Grant, User, World, user_by_id}
use overstate.Authz.Entries.{is_id, same_id}
use overstate.Authz.Memo.{Memo}
use overstate.Sets.{contains}
use overstate.Text.Words.{show_int}
use overstate.Users.{
  fleet_grant_admin, Form, Page, delegate_grant_write_error, deny, flashed, guarded, log_write,
  get_or_empty, grant_perm, refresh_members,
}
use overstate.Authz.Gates.{Passage, permission_required}
use overstate.Users.Scope.{refused, accepted, Checked, validate_grant_scope}
use overstate.Authz.RoleCache.{refresh_role_cache}
use overstate.Text.{strip}

-- The two partial unique indexes: a user or a local group, the role and the scope. A null column
-- equals nothing.
unfoldable pub is_taken : Grant → List Grant → Bool
is_taken g gs =
    any
      (λ h.
        (same_id h.subject_user_id g.subject_user_id
          || same_id h.subject_group_id g.subject_group_id)
        && h.role == g.role
        && h.scope_kind == g.scope_kind
        && h.scope_value == g.scope_value)
      gs

-- The row that a grant dialog of the caller adds.
abbrev pub manual_grant :
    World → User → String → Option ℕ → Option ℕ → String → String → String → Grant
manual_grant w me subject_kind uid gid role scope_kind scope_value = record {
  id = w.next_grant_id;
  subject_kind = subject_kind;
  subject_user_id = uid;
  subject_group_id = gid;
  role = role;
  scope_kind = scope_kind;
  scope_value = scope_value;
  source = "manual";
  created_by = some me.id;
}

abbrev pub add_grant : Grant → World → World
add_grant g w = record w { grants = w.grants ++ g ∷ []; next_grant_id = suc w.next_grant_id }

-- `role scope_kind scope_value subject`
abbrev pub grant_detail : String → String → String → String → String
grant_detail role scope_kind scope_value subject =
    role <> (" " <> (scope_kind <> (" " <> (scope_value <> (" " <> subject)))))

-- After the commit: the audit row and the refresh of the subject.
unfoldable pub granted_page : World → User → Memo → User → Bool → Grant → Page
granted_page w me m user delegated g =
    let detail = grant_detail g.role g.scope_kind g.scope_value ("user:" <> user.username) in
    let r =
      refresh_role_cache (log_write me "grant-create" (grant_perm delegated) (some detail) w) user
        m in
    flashed "users.index" "success" ("Granted " <> (g.role <> (" to '" <> (user.username <> "'."))))
      r.world r.memo

unfoldable pub insert_user_grant : World → User → Memo → User → Bool → Grant → Page
insert_user_grant w me m user delegated g =
    let page = granted_page (add_grant g w) me m user delegated g in
    if is_taken g w.grants
    then flashed "users.index" "error" "That grant already exists." w m
    else page

abbrev pub user_grant_error : World → User → User → String → String → String → Option String
user_grant_error w me user role scope_kind scope_value =
    if not (fleet_grant_admin w me)
    then delegate_grant_write_error w me role scope_kind scope_value none (some user.id)
    else none

abbrev pub written_user_grant :
    World → User → Memo → User → String → String → String → Option String → Page
written_user_grant w me m user role scope_kind scope_value (some err) = deny me w m
written_user_grant w me m user role scope_kind scope_value none =
    insert_user_grant w me m user (not (fleet_grant_admin w me))
      (manual_grant w me "user" (some user.id) none role scope_kind scope_value)

unfoldable pub write_user_grant : World → User → Memo → User → String → String → String → Page
write_user_grant w me m user role scope_kind scope_value =
    written_user_grant w me m user role scope_kind scope_value
      (user_grant_error w me user role scope_kind scope_value)

abbrev pub checked_user_grant : World → User → Memo → User → String → String → Checked → Page
checked_user_grant w me m user role scope_kind (refused err) = flashed "users.index" "error" err w m
checked_user_grant w me m user role scope_kind (accepted value) =
    write_user_grant w me m user role scope_kind value

unfoldable pub create_grant_view : World → User → Memo → Form → Option User → Page
create_grant_view w me m form none = flashed "users.index" "error" "Unknown user." w m
create_grant_view w me m form (some user) =
    let role = strip (get_or_empty form "role") in
    let scope_kind = strip (get_or_empty form "scope_kind") in
    checked_user_grant w me m user role scope_kind (validate_grant_scope w role scope_kind form)

abbrev pub grant_gate : World → User → Memo → Passage
grant_gate w me m = permission_required w me ("grant.admin" ∷ "grant.delegate" ∷ []) m

unfoldable pub create_grant : World → User → Memo → ℕ → Form → Page
create_grant w me m uid form =
    guarded (grant_gate w me m) (λ w' m'. create_grant_view w' me m' form (user_by_id w'.users uid))

-- `session.get(Grant, gid)`
unfoldable pub grant_by_id : List Grant → ℕ → Option Grant
grant_by_id [] gid = none
grant_by_id (g ∷ gs) gid = if g.id =? gid then some g else grant_by_id gs gid

-- `session.delete(grant)`
unfoldable pub delete_row : ℕ → List Grant → List Grant
delete_row gid [] = []
delete_row gid (g ∷ gs) = let rest = delete_row gid gs in if g.id =? gid then gs else g ∷ rest

abbrev pub is_fleet_admin : ℕ → Grant → Bool
is_fleet_admin uid g =
    g.subject_kind == "user"
    && is_id g.subject_user_id uid
    && g.role == "admin"
    && g.scope_kind == "fleet"

-- An admin mapping on the fleet that applies to the user.
unfoldable pub has_admin_mapping : World → ℕ → Bool
has_admin_mapping w uid =
    let names = map (λ m. m.group_name) (keep (λ m. m.user_id =? uid) w.user_idp_groups) in
    any (λ m. contains names m.idp_group && m.role == "admin" && m.scope_kind == "fleet") w.mappings

unfoldable pub has_other_fleet_admin : World → ℕ → ℕ → Bool
has_other_fleet_admin w uid exclude =
    any (λ g. is_fleet_admin uid g && not (g.id =? exclude)) w.grants || has_admin_mapping w uid

abbrev username_or_id : Option User → ℕ → String
username_or_id none uid = show_int uid
username_or_id (some u) uid = u.username

-- The page once the row is gone.
unfoldable pub deleted_page : World → User → Memo → ℕ → Bool → Grant → Page
deleted_page w me m uid delegated g =
    let label = "user:" <> username_or_id (user_by_id w.users uid) uid in
    let detail = grant_detail g.role g.scope_kind g.scope_value label in
    let logged =
      log_write me "grant-delete" (grant_perm delegated) (some detail)
        (record w { grants = delete_row g.id w.grants }) in
    let (w', m') = refresh_members (uid ∷ []) logged m in
    flashed "users.index" "success" "Grant deleted." w' m'

-- The lockout guard.
abbrev pub is_last_admin : World → User → Grant → Bool
is_last_admin w me g =
    is_id g.subject_user_id me.id
    && g.role == "admin"
    && g.scope_kind == "fleet"
    && not (has_other_fleet_admin w me.id g.id)

abbrev pub edit_error : World → User → Grant → Option String
edit_error w me g =
    if not (fleet_grant_admin w me)
    then delegate_grant_write_error w me g.role g.scope_kind g.scope_value (some g)
        g.subject_user_id
    else none

abbrev pub edited_user_grant : World → User → Memo → ℕ → Grant → Option String → Page
edited_user_grant w me m uid g (some err) = deny me w m
edited_user_grant w me m uid g none =
    let page = deleted_page w me m uid (not (fleet_grant_admin w me)) g in
    if is_last_admin w me g
    then flashed "users.index" "error" "You cannot delete your own last fleet admin grant." w m
    else page

unfoldable pub delete_found : World → User → Memo → ℕ → Grant → Page
delete_found w me m uid g = edited_user_grant w me m uid g (edit_error w me g)

unfoldable pub delete_grant_view : World → User → Memo → ℕ → Option Grant → Page
delete_grant_view w me m uid none = flashed "users.index" "error" "Unknown grant." w m
delete_grant_view w me m uid (some g) =
    let page = delete_found w me m uid g in
    if not (g.subject_kind == "user") || not (is_id g.subject_user_id uid)
    then flashed "users.index" "error" "Unknown grant." w m
    else page

unfoldable pub delete_grant : World → User → Memo → ℕ → ℕ → Page
delete_grant w me m uid gid =
    guarded (grant_gate w me m)
      (λ w' m'. delete_grant_view w' me m' uid (grant_by_id w'.grants gid))
