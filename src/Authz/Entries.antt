-- ===== src/Authz/Entries.antt =====
-- overstate_ui/authz.py: the grants and mappings that apply to a user.
use overstate.Prelude.{
  ℕ, String, Bool, true, false, ◌&&◌, Option, none, some, List, [], ◌∷◌, ◌++◌, ◌==◌, ◌=?◌, map,
  keep, any, if◌then◌else◌,
}
use overstate.Sets.{contains}
use overstate.Store.{World, User, Grant, IdpRoleMapping}
use overstate.Authz.Catalog.{is_ladder}
use overstate.Authz.Flags.{fallback_on}

-- (role, scope_kind, scope_value)
pub record Entry : Type 0 where
  pub role : String
  pub kind : String
  pub value : String

abbrev pub of_grant : Grant → Entry
of_grant g = record { role = g.role; kind = g.scope_kind; value = g.scope_value }

abbrev pub of_mapping : IdpRoleMapping → Entry
of_mapping m = record { role = m.role; kind = m.scope_kind; value = m.scope_value }

-- A nullable id column against an id.
abbrev pub is_id : Option ℕ → ℕ → Bool
is_id none n = false
is_id (some m) n = m =? n

-- Two nullable id columns that are equal and not null.
abbrev pub same_id : Option ℕ → Option ℕ → Bool
same_id none n = false
same_id (some m) n = is_id n m

abbrev pub in_ids : Option ℕ → List ℕ → Bool
in_ids none ids = false
in_ids (some m) ids = any (λ n. m =? n) ids

unfoldable pub user_grants : World → ℕ → List Grant
user_grants w uid = keep (λ g. g.subject_kind == "user" && is_id g.subject_user_id uid) w.grants

unfoldable pub group_grants : World → ℕ → List Grant
group_grants w uid =
    let ids = map (λ m. m.group_id) (keep (λ m. m.user_id =? uid) w.local_group_members) in
    keep (λ g. g.subject_kind == "local_group" && in_ids g.subject_group_id ids) w.grants

unfoldable pub user_mappings : World → ℕ → List IdpRoleMapping
user_mappings w uid =
    let names = map (λ m. m.group_name) (keep (λ m. m.user_id =? uid) w.user_idp_groups) in
    keep (λ m. contains names m.idp_group) w.mappings

-- `_grant_entries` as the rows give it, without the memo on `flask.g`. An empty list of groups or
-- names selects no row, as the two guards of the source have it.
unfoldable pub grant_entries : World → User → List Entry
grant_entries w user =
    map of_grant (user_grants w user.id)
    ++ (map of_grant (group_grants w user.id) ++ map of_mapping (user_mappings w user.id))

-- The migration fallback: with no entry at all, a ladder role holds on the fleet.
unfoldable pub with_fallback : World → String → List Entry → List Entry
with_fallback w role [] =
    if fallback_on w && is_ladder role
    then record { role = role; kind = "fleet"; value = "*" } ∷ []
    else []
with_fallback w role (e ∷ es) = e ∷ es

unfoldable pub effective_entries : World → User → List Entry
effective_entries w user = with_fallback w user.role (grant_entries w user)

abbrev non_empty : List Entry → Bool
non_empty [] = false
non_empty (e ∷ es) = true

unfoldable pub has_any_access : World → User → Bool
has_any_access w user = non_empty (effective_entries w user)
