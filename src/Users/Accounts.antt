-- ===== src/Users/Accounts.antt =====
-- overstate_ui/users.py: `set_role`, `create_service_account` and `delete`.
use overstate.Prelude.{
  Bool, List, Option, String, [], any, if◌then◌else◌, keep, ltb, map, none, not, some, suc, ℕ, ◌&&◌,
  ◌++◌, ◌<>◌, ◌==◌, ◌=?◌, ◌||◌, ◌∷◌,
}
use overstate.Authz.RoleCache.{set_role as write_role, refresh_role_cache}
use overstate.Store.{Grant, User, World, user_by_id}
use overstate.Authz.Entries.{is_id}
use overstate.Authz.Memo.{Memo}
use overstate.Users.Grants.{add_grant, manual_grant}
use overstate.Users.{Form, Page, flashed, get_or_empty, guarded, log_write, require_scoped}
use overstate.Authz.Flags.{scoped_mode}
use overstate.Text.{strip}
use overstate.Authz.Gates.{roles_required}

abbrev to_users : String → String → World → Memo → Page
to_users category text w m = flashed "users.index" category text w m

-- `LEVELS`
unfoldable pub is_level : String → Bool
is_level role = role == "viewer" || role == "operator" || role == "admin"

-- The rows that a change of the global rung deletes.
abbrev pub is_rung_of : ℕ → Grant → Bool
is_rung_of uid g =
    g.subject_kind == "user"
    && is_id g.subject_user_id uid
    && g.scope_kind == "fleet"
    && is_level g.role

unfoldable pub without_rungs : ℕ → List Grant → List Grant
without_rungs uid gs = keep (λ g. not (is_rung_of uid g)) gs

abbrev now_text : User → String → String
now_text user role = "'" <> (user.username <> ("' is now " <> (role <> ".")))

-- Scoped mode: one manual fleet grant of the rung in place of the user's others.
unfoldable pub replace_rung : World → User → User → String → World
replace_rung w me user role =
    add_grant (manual_grant w me "user" (some user.id) none role "fleet" "*")
      (record w { grants = without_rungs user.id w.grants })

unfoldable pub set_scoped_role : World → User → Memo → User → String → Page
set_scoped_role w me m user role =
    let r =
      refresh_role_cache
        (log_write me "grant-create" "grant.admin"
          (some (role <> (" fleet * user:" <> user.username))) (replace_rung w me user role))
        user m in
    to_users "success" (now_text user role) r.world r.memo

unfoldable pub set_role_view : World → User → Memo → String → Option User → Page
set_role_view w me m role none = to_users "error" "Unknown user." w m
set_role_view w me m role (some user) =
    let scoped = set_scoped_role w me m user role in
    if not (is_level role)
    then to_users "error" "Unknown role." w m
    else if user.id =? me.id && not (role == "admin")
    then to_users "error" "You cannot demote yourself." w m
    else if not (scoped_mode w)
    then to_users "success" (now_text user role)
        (record w { users = write_role user.id role w.users }) m
    else scoped

-- `roles_required("admin")`, and `user.admin` in scoped mode
unfoldable pub admin_only : World → User → Memo → (World → Memo → Page) → Page
admin_only w me m view =
    guarded (roles_required w me 2 m) (λ w' m'. guarded (require_scoped w' me "user.admin" m') view)

unfoldable pub set_role : World → User → Memo → ℕ → Form → Page
set_role w me m uid form =
    admin_only w me m
      (λ w' m'. set_role_view w' me m' (get_or_empty form "role") (user_by_id w'.users uid))

unfoldable pub text_length : String → ℕ
text_length String.[] = 0
text_length (String.◌∷◌ c s) = suc (text_length s)

abbrev pub service_account : World → String → User
service_account w name = record {
  id = w.next_user_id;
  username = name;
  role = "none";
  kind = "service";
}

unfoldable pub create_account_view : World → Memo → String → Page
create_account_view w m name =
    let user = service_account w name in
    let r =
      refresh_role_cache
        (record w { users = w.users ++ user ∷ []; next_user_id = suc w.next_user_id }) user m in
    if name == "" || ltb 64 (text_length name)
    then to_users "error" "Service account name is required (max 64 chars)." w m
    else if any (λ u. u.username == name) w.users
    then to_users "error" ("'" <> (name <> "' is already taken.")) w m
    else to_users "success" ("Service account '" <> (name <> "' created with no grants.")) r.world
        r.memo

unfoldable pub create_service_account : World → User → Memo → Form → Page
create_service_account w me m form =
    admin_only w me m (λ w' m'. create_account_view w' m' (strip (get_or_empty form "name")))

abbrev pub disown : ℕ → Grant → Grant
disown uid g = record g { created_by = if is_id g.created_by uid then none else g.created_by }

-- On PostgreSQL the row goes, and with it, by the foreign keys, its grants, memberships and claims; the grants that
-- the user has made stay, without a maker.
unfoldable pub delete_user : World → ℕ → World
delete_user w uid = record w {
  users = keep (λ u. not (u.id =? uid)) w.users;
  grants = map (disown uid) (keep (λ g. not (is_id g.subject_user_id uid)) w.grants);
  local_group_members = keep (λ r. not (r.user_id =? uid)) w.local_group_members;
  user_idp_groups = keep (λ r. not (r.user_id =? uid)) w.user_idp_groups;
}

unfoldable pub delete_view : World → User → Memo → Option User → Page
delete_view w me m none = to_users "error" "Unknown user." w m
delete_view w me m (some user) =
    if user.id =? me.id
    then to_users "error" "You cannot delete yourself." w m
    else to_users "success" ("Deleted '" <> (user.username <> "'.")) (delete_user w user.id) m

unfoldable pub delete : World → User → Memo → ℕ → Page
delete w me m uid = admin_only w me m (λ w' m'. delete_view w' me m' (user_by_id w'.users uid))
