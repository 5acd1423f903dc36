-- ===== src/Users.antt =====
-- overstate_ui/users.py: the writers of the user administration, and what they share. A writer
-- takes the database, the logged-in user, the memos of the request and the posted form, and answers
-- with the database and the memos that it leaves and with a flashed message or 403. Reads of the
-- caller's own entries go to the rows here: until the first write of a request the memos agree with
-- them, and `permission_required` has filled them. The pages that only list are not modelled.
pub mod Scope
pub mod Frame
pub mod Grants
pub mod Groups
pub mod GroupGrants
pub mod Accounts
pub mod Writes
mod Examples
use overstate.Prelude.{
  Bool, List, Option, String, [], false, if◌then◌else◌, none, not, some, true, ℕ, ◌&&◌, ◌==◌, ◌=?◌,
  ◌||◌, ◌∷◌,
}
use overstate.Authz.Gates.{Passage, log_event, audit_deny, require}
use overstate.Store.{Grant, User, World, user_by_id}
use overstate.Authz.Catalog.{is_ladder}
use overstate.Authz.Entries.{is_id}
use overstate.Authz.Flags.{scoped_mode}
use overstate.Authz.Memo.{Memo}
use overstate.Authz.Decide.{has_fleet}
use overstate.Authz.Delegation.{delegate_grant_error}
use overstate.Authz.RoleCache.{refresh_role_cache}

-- `request.form`
abbrev pub Form : Type 0
Form = String → Option String

-- `form.get(key, "")`
abbrev pub get_or_empty : Form → String → String
get_or_empty form key = elim (form key) [ none ↦ "" | some s ↦ s ]

-- A redirect to an endpoint with a flashed message, or `abort(403)`.
pub data Answer : Type 0 where
  redirected : String → String → String → Answer
  forbidden : Answer

pub record Page : Type 0 where
  pub world : World
  pub memo : Memo
  pub answer : Answer

abbrev pub flashed : String → String → String → World → Memo → Page
flashed endpoint category text w m = record {
  world = w;
  memo = m;
  answer = redirected endpoint category text;
}

abbrev pub denied_page : World → Memo → Page
denied_page w m = record { world = w; memo = m; answer = forbidden }

-- A gate before a view.
unfoldable pub guarded : Passage → (World → Memo → Page) → Page
guarded p view =
    let page = view p.world p.memo in if p.passed then page else denied_page p.world p.memo

-- `if rbac_mode() == "scoped": require(perm)` at the head of a view
unfoldable pub require_scoped : World → User → String → Memo → Passage
require_scoped w me perm m =
    let p = require w me perm none none "no-grant" m in
    if scoped_mode w then p else record { passed = true; world = w; memo = m }

unfoldable pub fleet_grant_admin : World → User → Bool
fleet_grant_admin w me = not (scoped_mode w) || has_fleet w me "grant.admin"

unfoldable pub fleet_user_admin : World → User → Bool
fleet_user_admin w me = not (scoped_mode w) || has_fleet w me "user.admin"

-- `_deny("grant.delegate", detail="out-of-scope")`
unfoldable pub deny : User → World → Memo → Page
deny me w m = denied_page (audit_deny me "grant.delegate" none "out-of-scope" none w) m

abbrev is_backfilled : Option Grant → Bool
is_backfilled none = false
is_backfilled (some g) = g.source == "backfill" && is_ladder g.role && g.scope_kind == "fleet"

-- `_delegate_grant_write_error`; the grant is that of an edit, the subject that of a user grant.
unfoldable pub delegate_grant_write_error :
    World → User → String → String → String → Option Grant → Option ℕ → Option String
delegate_grant_write_error w me role scope_kind scope_value grant subject =
    if is_backfilled grant
    then some "Backfill ladder grants need a fleet admin."
    else if is_id subject me.id
    then some "You cannot edit your own grants."
    else delegate_grant_error w me role scope_kind scope_value

-- The permission that an audit row of a grant write names.
abbrev pub grant_perm : Bool → String
grant_perm delegated = if delegated then "grant.delegate" else "grant.admin"

-- `log_event` with a permission and a detail
abbrev pub log_write : User → String → String → Option String → World → World
log_write me action perm detail w = log_event me.username action none (some perm) none detail w

abbrev pub refresh_one : Option User → World → Memo → World × Memo
refresh_one none w m = (w, m)
refresh_one (some u) w m = let r = refresh_role_cache w u m in (r.world, r.memo)

-- `for ...: member = session.get(User, user_id)` and a refresh of each that is found
unfoldable pub refresh_members : List ℕ → World → Memo → World × Memo
refresh_members [] w m = (w, m)
refresh_members (uid ∷ uids) w m =
    let (w', m') = refresh_one (user_by_id w.users uid) w m in refresh_members uids w' m'
