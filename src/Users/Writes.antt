-- ===== src/Users/Writes.antt =====
-- overstate_ui/users.py: the requests that write, and what each does.
pub mod Anchor
pub mod Accounts
pub mod Kept
pub mod Views
pub mod Lockout
use overstate.Prelude.{List, String, [], none, ℕ, ◌∷◌, Option, some}
use overstate.Store.{World, User, user_by_id}
use overstate.Users.{Form, Page}
use overstate.Authz.Memo.{Memo}
use overstate.Users.Grants.{create_grant, delete_grant}
use overstate.Users.Groups.{
  create_local_group, rename_local_group, edit_local_group_members, delete_local_group,
}
use overstate.Users.GroupGrants.{create_local_group_grant, delete_local_group_grant}
use overstate.Users.Accounts.{set_role, create_service_account, delete}

pub data Write : Type 0 where
  grant : ℕ → Form → Write
  revoke : ℕ → ℕ → Write
  add_group : Form → Write
  rename_group : ℕ → Form → Write
  edit_members : ℕ → List String → Write
  drop_group : ℕ → Write
  grant_group : ℕ → Form → Write
  revoke_group : ℕ → ℕ → Write
  change_role : ℕ → Form → Write
  add_account : Form → Write
  drop_user : ℕ → Write

-- One request, with the memos that it starts from.
unfoldable pub perform : World → User → Memo → Write → Page
perform w me m (grant uid form) = create_grant w me m uid form
perform w me m (revoke uid gid) = delete_grant w me m uid gid
perform w me m (add_group form) = create_local_group w me m form
perform w me m (rename_group gid form) = rename_local_group w me m gid form
perform w me m (edit_members gid raws) = edit_local_group_members w me m gid raws
perform w me m (drop_group gid) = delete_local_group w me m gid
perform w me m (grant_group gid form) = create_local_group_grant w me m gid form
perform w me m (revoke_group gid g) = delete_local_group_grant w me m gid g
perform w me m (change_role uid form) = set_role w me m uid form
perform w me m (add_account form) = create_service_account w me m form
perform w me m (drop_user uid) = delete w me m uid

abbrev pub no_memo : Memo
no_memo = record { grant_entries = none; authz_cache = none }

-- A request of a logged-in user, whose row is read anew; without a row there is no login.
abbrev pub perform_as : World → Option User → Write → World
perform_as w none x = w
perform_as w (some me) x = (perform w me no_memo x).world

-- Requests of one user, one after the other.
unfoldable pub perform_all : World → ℕ → List Write → World
perform_all w uid [] = w
perform_all w uid (x ∷ xs) = perform_all (perform_as w (user_by_id w.users uid) x) uid xs
