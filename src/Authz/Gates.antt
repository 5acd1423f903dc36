-- ===== src/Authz/Gates.antt =====
-- overstate_ui/authz.py and overstate_ui/auth.py: what stands before a view. A gate answers whether
-- the view runs; where it does not, the request is aborted with 403. The login that comes first is
-- Flask-Login's. `log_event` is that of overstate_ui/audit.py.
pub mod Decisions
use overstate.Prelude.{
  Bool, List, Option, String, [], false, if◌then◌else◌, leb, none, not, some, true, ℕ, ◌==◌, ◌∷◌,
}
use overstate.Store.{World, User, AuditEvent}
use overstate.Authz.Catalog.{floor_perms}
use overstate.Authz.Flags.{scoped_mode}
use overstate.Authz.Memo.{Memo, authorize}

unfoldable pub log_event :
    String → String → Option String → Option String → Option String → Option String → World → World
log_event user action outcome permission minion_id detail w = record w {
  audit_events =
      record {
        user = user;
        action = action;
        outcome = outcome;
        permission = permission;
        minion_id = minion_id;
        detail = detail;
      }
      ∷ w.audit_events;
}

abbrev actor_name : User → Option String → String
actor_name user none = user.username
actor_name user (some name) = if name == "" then user.username else name

-- `audit_deny`, for a logged-in user
unfoldable pub audit_deny : User → String → Option String → String → Option String → World → World
audit_deny user perm minion_id detail actor w =
    log_event (actor_name user actor) "deny" (some "deny") (some perm) minion_id (some detail) w

pub record Passage : Type 0 where
  pub passed : Bool
  pub world : World
  pub memo : Memo

-- `require`
unfoldable pub require :
    World → User → String → Option String → Option String → String → Memo → Passage
require w user perm minion prefix detail m =
    let (allowed, m') = authorize w user perm minion prefix m in
    if not (scoped_mode w)
    then record { passed = true; world = w; memo = m }
    else if allowed
    then record { passed = true; world = w; memo = m' }
    else record { passed = false; world = audit_deny user perm minion detail none w; memo = m' }

-- `any(authorize(current_user, p) for p in perms)`, which stops at the first that is allowed
unfoldable pub any_authorized : World → User → List String → Memo → Bool × Memo
any_authorized w user [] m = (false, m)
any_authorized w user (p ∷ ps) m =
    let (allowed, m') = authorize w user p none none m in
    let later = any_authorized w user ps m' in if allowed then (true, m') else later

abbrev first_or : String → List String → String
first_or other [] = other
first_or other (p ∷ ps) = p

-- `LEVELS.get(role or "", 0)`
unfoldable pub role_level : String → ℕ
role_level role = if role == "operator" then 1 else if role == "admin" then 2 else 0

-- The scoped half that the two decorators share: some permission, or a deny under `named`.
unfoldable pub pass_any : World → User → List String → String → Memo → Passage
pass_any w user perms named m =
    let (allowed, m') = any_authorized w user perms m in
    if allowed
    then record { passed = true; world = w; memo = m' }
    else record { passed = false; world = audit_deny user named none "no-grant" none w; memo = m' }

-- The legacy half: the level of the role column.
unfoldable pub pass_level : World → User → ℕ → Memo → Passage
pass_level w user minimum m = record {
  passed = leb minimum (role_level user.role);
  world = w;
  memo = m;
}

-- `permission_required`
unfoldable pub permission_required : World → User → List String → Memo → Passage
permission_required w user perms m =
    if not (scoped_mode w)
    then pass_level w user 2 m
    else pass_any w user perms (first_or "no-grant" perms) m

-- `roles_required`, at the least level of its roles. The order in which Python walks the set of
-- permissions is that of the list here.
unfoldable pub roles_required : World → User → ℕ → Memo → Passage
roles_required w user minimum m =
    if not (scoped_mode w)
    then pass_level w user minimum m
    else pass_any w user (floor_perms minimum) (first_or "" (floor_perms minimum)) m

-- `read_required`
unfoldable pub read_required : World → User → String → Memo → Passage
read_required w user perm m = require w user perm none none "no-grant" m
