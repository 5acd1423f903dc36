-- ===== src/Login/Groups.antt =====
-- overstate_ui/auth.py and overstate_ui/authz.py: the role of a group claim before the switch to scoped
-- access control, beside the mappings that the backfill makes of the same settings.
use overstate.Prelude.{
  All, Bool-cases, List, String, [], any, any-append, any-map-keep, any_mono, arith, eq_iff,
  eq_refl, false, inl, inr, keep, map, true, ℕ, ◌&&◌, ◌++◌, ◌==◌, ◌=?◌, ◌∷◌, ◌≡◌,
}
use overstate.Login.{role_for_groups}
use overstate.Sets.{
  is_empty, contains, inter, from_list, contains-inter, contains-from_list, All-contains,
}
use overstate.Store.{IdpRoleMapping, World, User}
use overstate.Text.Lists.{csv_set, split_csv}
use overstate.Authz.Backfill.{backfill_rbac, group_pairs, has_mapping, fleet_mapping_of}
use overstate.Authz.Decide.{has_fleet}
use overstate.Authz.Backfill.Idempotence.{IsMapped, pairs-IsMapped}
use overstate.Authz.Catalog.{has_perm}
use overstate.Authz.Entries.{
  effective_entries, user_mappings, grant_entries, of_grant, of_mapping, user_grants, group_grants,
}
use overstate.Authz.Backfill.Fleet.{on_fleet}
use overstate.Authz.RoleCache.Ladder.{any-with_fallback}
use overstate.Authz.Catalog.Laws.{is_perm_of_has_perm}

-- The groups of the user's last claim.
abbrev pub claim_names : World → ℕ → List String
claim_names w uid = map (λ m. m.group_name) (keep (λ m. m.user_id =? uid) w.user_idp_groups)

pub some_element : (xs : List String) → is_empty xs ≡ false → (x : String) × (contains xs x ≡ true)
unfolding is_empty contains
some_element [] h = absurd (ground arith)
some_element (x ∷ xs) h = (x, ground (arith, eq_refl x))

All-left {ℓ κ} : {A : Type ℓ} (P : A → Type κ) (xs ys : List A) → All P (xs ++ ys) → All P xs
All-left P [] ys a = tt
All-left P (x ∷ xs) ys (p, a) = (p, All-left P xs ys a)

All-right {ℓ κ} : {A : Type ℓ} (P : A → Type κ) (xs ys : List A) → All P (xs ++ ys) → All P ys
All-right P [] ys a = a
All-right P (x ∷ xs) ys (p, a) = All-right P xs ys a

All-unmap {ℓ κ μ} :
    {A : Type ℓ} {B : Type κ} (P : B → Type μ) (f : A → B) (xs : List A)
    → All P (map f xs)
    → All (λ x. P (f x)) xs
All-unmap P f [] a = tt
All-unmap P f (x ∷ xs) (p, a) = (p, All-unmap P f xs a)

-- A claimed group of a setting has a fleet mapping.
abbrev HasMappedGroup : List String → List IdpRoleMapping → String → Type 0
HasMappedGroup names ms role =
    (g : String) × (contains names g ≡ true) × (has_mapping (g, role) ms ≡ true)

claimed_group :
    (names : List String) (setting role : String) (ms : List IdpRoleMapping)
    → is_empty (inter (from_list names) (csv_set setting)) ≡ false
    → All (IsMapped ms) (map (λ g. (g, role)) (split_csv setting))
    → HasMappedGroup names ms role
unfolding csv_set
claimed_group names setting role ms some_hit mapped =
    let (g, hit) = some_element _ some_hit in
    let both = contains-inter (from_list names) (from_list (split_csv setting)) g in
    let claimed = contains-from_list names g in
    let listed = contains-from_list (split_csv setting) g in
    (
      g,
      ground arith,
      All-contains (λ x. IsMapped ms (x, role)) (split_csv setting) g
          (All-unmap (IsMapped ms) (λ x. (x, role)) (split_csv setting) mapped) (ground arith),
    )

module _ (w : World) (user : User) (perm : String) where
  mapping_on_fleet :
      (role : String)
      → HasMappedGroup (claim_names w user.id) w.mappings role
      → has_perm role perm ≡ true
      → any (on_fleet perm) (map of_mapping (user_mappings w user.id)) ≡ true
  unfolding has_mapping user_mappings
  mapping_on_fleet role (g, claimed, mapped) has = rw any-map-keep (
      any_mono (fleet_mapping_of (g, role))
        (λ m. contains (claim_names w user.id) m.idp_group && on_fleet perm (of_mapping m))
        w.mappings (λ m e. ground (arith, eq_iff m.idp_group g, eq_iff m.role role)) mapped)

  has_fleet_of_mapped :
      (role : String)
      → HasMappedGroup (claim_names w user.id) w.mappings role
      → has_perm role perm ≡ true
      → has_fleet w user perm ≡ true
  unfolding has_fleet effective_entries grant_entries
  has_fleet_of_mapped role mapped has =
      let by_mapping = mapping_on_fleet role mapped has in
      let joined =
        any-append (on_fleet perm) (map of_grant (user_grants w user.id))
          (map of_grant (group_grants w user.id) ++ map of_mapping (user_mappings w user.id)) in
      let tail =
        any-append (on_fleet perm) (map of_grant (group_grants w user.id))
          (map of_mapping (user_mappings w user.id)) in
      let held =
        any-with_fallback w user.role (on_fleet perm) (grant_entries w user) (ground arith) in
      ground (arith, is_perm_of_has_perm role perm, held)

role-viewer :
    (names : List String) (admin_groups operator_groups : String)
    → is_empty (inter (from_list names) (csv_set admin_groups)) ≡ true
    → is_empty (inter (from_list names) (csv_set operator_groups)) ≡ true
    → role_for_groups names admin_groups operator_groups ≡ "viewer"
unfolding role_for_groups
role-viewer names admin_groups operator_groups a o = ground arith

-- The switch keeps what a group claim gave: where `role_for_groups` makes the user's claimed groups an
-- operator or an admin, then after a backfill with the same settings the user holds every permission
-- of that role on the fleet by the mappings.
pub role_for_groups-has_fleet :
    (w : World) (user : User) (admin_groups operator_groups perm : String)
    → (role_for_groups (claim_names w user.id) admin_groups operator_groups == "viewer") ≡ false
    → has_perm (role_for_groups (claim_names w user.id) admin_groups operator_groups) perm ≡ true
    → has_fleet (backfill_rbac w admin_groups operator_groups).world user perm ≡ true
unfolding role_for_groups backfill_rbac group_pairs
role_for_groups-has_fleet w user admin_groups operator_groups perm rung has =
    let names = claim_names w user.id in
    let w' = (backfill_rbac w admin_groups operator_groups).world in
    let admins : List (String × String) = map (λ g. (g, "admin")) (split_csv admin_groups) in
    let operators : List (String × String) =
      map (λ g. (g, "operator")) (split_csv operator_groups) in
    let mapped : All (IsMapped w'.mappings) (admins ++ operators) =
      pairs-IsMapped (admins ++ operators) (w.mappings, 0) in
    elim (Bool-cases (is_empty (inter (from_list names) (csv_set admin_groups)))) [
      | inr hit ↦
          has_fleet_of_mapped w' user perm "admin"
            (claimed_group names admin_groups "admin" w'.mappings hit
              (All-left (IsMapped w'.mappings) admins operators mapped))
            (ground arith)
      | inl miss ↦
          elim (Bool-cases (is_empty (inter (from_list names) (csv_set operator_groups)))) [
            | inr hit ↦
                has_fleet_of_mapped w' user perm "operator"
                  (claimed_group names operator_groups "operator" w'.mappings hit
                    (All-right (IsMapped w'.mappings) admins operators mapped))
                  (ground arith)
            | inl none_hit ↦
                let role = role-viewer names admin_groups operator_groups miss none_hit in
                absurd (cc (rw role at rung))
          ]
    ]
