-- ===== src/Authz/RoleCache.antt =====
-- overstate_ui/authz.py: `refresh_role_cache`, which recomputes `users.role` from grants and mappings.
pub mod Refresh
pub mod Ladder
use overstate.Prelude.{
  Bool, List, String, [], any, if◌then◌else◌, none, some, ℕ, ◌&&◌, ◌==◌, ◌=?◌, ◌∷◌,
}
use overstate.Store.{World, User}
use overstate.Authz.Entries.{Entry}
use overstate.Authz.Memo.{Memo, recalled_entries}

-- `any(r == role and kind == "fleet" for ...)`
unfoldable pub ladder : String → List Entry → Bool
ladder role es = any (λ e. e.role == role && e.kind == "fleet") es

abbrev scoped_or_none : List Entry → String
scoped_or_none [] = "none"
scoped_or_none (e ∷ es) = "scoped"

unfoldable pub cached_role : List Entry → String
cached_role es =
    if ladder "admin" es
    then "admin"
    else if ladder "operator" es
    then "operator"
    else if ladder "viewer" es
    then "viewer"
    else scoped_or_none es

-- The row of the user, written.
unfoldable pub set_role : ℕ → String → List User → List User
set_role uid role [] = []
set_role uid role (u ∷ us) =
    let rest = set_role uid role us in
    if u.id =? uid then record u { role = role } ∷ rest else u ∷ rest

unfoldable pub without : ℕ → List (ℕ × List Entry) → List (ℕ × List Entry)
without uid [] = []
without uid ((k, es) ∷ rows) =
    let rest = without uid rows in if k =? uid then rest else (k, es) ∷ rest

-- `cache.pop(uid, None)` and an empty `authz_cache`, each where the dict is there
abbrev drop_memos : ℕ → Memo → Memo
drop_memos uid m = record {
  grant_entries = elim m.grant_entries [ none ↦ none | some rows ↦ some (without uid rows) ];
  authz_cache = elim m.authz_cache [ none ↦ none | some rows ↦ some [] ];
}

-- The committed database, the user object, the memo and the result.
pub record Refreshed : Type 0 where
  pub world : World
  pub user : User
  pub memo : Memo
  pub role : String

abbrev refreshed : World → User → List Entry × Memo → Refreshed
refreshed w user (es, m) =
    let role = cached_role es in
    record {
      world = record w { users = set_role user.id role w.users };
      user = record user { role = role };
      memo = if w.has_app_context then drop_memos user.id m else m;
      role = role;
    }

-- The entries are read through the memo, before it is dropped.
unfoldable pub refresh_role_cache : World → User → Memo → Refreshed
refresh_role_cache w user m = refreshed w user (recalled_entries w user m)
