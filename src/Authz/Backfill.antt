-- ===== src/Authz/Backfill.antt =====
-- overstate_ui/authz.py: `backfill_rbac`, from ladder roles and OIDC groups to grants and mappings.
pub mod Idempotence
pub mod Fleet
use overstate.Prelude.{
  Bool, List, String, [], any, if◌then◌else◌, map, none, not, some, ℕ, ◌&&◌, ◌*◌, ◌++◌, ◌+◌, ◌==◌,
  ◌∷◌,
}
use overstate.Text.Lists.{split_csv}
use overstate.Store.{World, User, Grant, IdpRoleMapping}
use overstate.Authz.Catalog.{is_ladder}
use overstate.Authz.Entries.{is_id}

abbrev pub fleet_grant_of : ℕ → String → Grant → Bool
fleet_grant_of uid role g =
    g.subject_kind == "user"
    && is_id g.subject_user_id uid
    && g.role == role
    && g.scope_kind == "fleet"
    && g.scope_value == "*"

unfoldable pub has_grant : User → List Grant → Bool
has_grant u gs = any (fleet_grant_of u.id u.role) gs

abbrev pub backfill_grant : ℕ → User → Grant
backfill_grant gid u = record {
  id = gid;
  subject_kind = "user";
  subject_user_id = some u.id;
  subject_group_id = none;
  role = u.role;
  scope_kind = "fleet";
  scope_value = "*";
  source = "backfill";
  created_by = none;
}

-- One round of the loop over the users, with the count of grants made; `first` is the id of the first
-- grant that the run makes.
unfoldable pub backfill_user : ℕ → User → List Grant × ℕ → List Grant × ℕ
backfill_user first u (gs, n) =
    if not (is_ladder u.role)
    then (gs, n)
    else if has_grant u gs
    then (gs, n)
    else (gs ++ backfill_grant (first + n) u ∷ [], n + 1)

unfoldable pub backfill_users : ℕ → List User → List Grant × ℕ → List Grant × ℕ
backfill_users first [] s = s
backfill_users first (u ∷ us) s = backfill_users first us (backfill_user first u s)

abbrev pub fleet_mapping_of : String × String → IdpRoleMapping → Bool
fleet_mapping_of (group_name, role) m =
    m.idp_group == group_name && m.role == role && m.scope_kind == "fleet" && m.scope_value == "*"

unfoldable pub has_mapping : String × String → List IdpRoleMapping → Bool
has_mapping pair ms = any (fleet_mapping_of pair) ms

abbrev pub backfill_mapping : String × String → IdpRoleMapping
backfill_mapping (group_name, role) = record {
  idp_group = group_name;
  role = role;
  scope_kind = "fleet";
  scope_value = "*";
  origin = "backfill";
}

unfoldable pub backfill_pair : String × String → List IdpRoleMapping × ℕ → List IdpRoleMapping × ℕ
backfill_pair pair (ms, n) =
    if has_mapping pair ms then (ms, n) else (ms ++ backfill_mapping pair ∷ [], n + 1)

unfoldable pub backfill_pairs :
    List (String × String) → List IdpRoleMapping × ℕ → List IdpRoleMapping × ℕ
backfill_pairs [] s = s
backfill_pairs (p ∷ ps) s = backfill_pairs ps (backfill_pair p s)

-- The pairs of the two settings, in the order of the loop.
unfoldable pub group_pairs : String → String → List (String × String)
group_pairs admin_groups operator_groups =
    map (λ g. (g, "admin")) (split_csv admin_groups)
    ++ map (λ g. (g, "operator")) (split_csv operator_groups)

pub record Backfilled : Type 0 where
  pub world : World
  pub grants : ℕ
  pub mappings : ℕ

unfoldable pub backfill_rbac : World → String → String → Backfilled
backfill_rbac w admin_groups operator_groups =
    let (gs, n) = backfill_users w.next_grant_id w.users (w.grants, 0) in
    let (ms, k) = backfill_pairs (group_pairs admin_groups operator_groups) (w.mappings, 0) in
    record {
      world = record w { grants = gs; mappings = ms; next_grant_id = w.next_grant_id + n };
      grants = n;
      mappings = k;
    }
