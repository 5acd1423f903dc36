-- ===== src/Authz/Backfill/Fleet.antt =====
-- overstate_ui/authz.py: the fleet grants that `backfill_rbac` makes.
use overstate.Prelude.{
  All, Bool, String, any, any-append, any-map-keep, any_mono, arith, eq_iff, map, true, ◌&&◌, ◌++◌,
  ◌==◌, ◌≡◌, Bool-cases, List, [], inl, inr, some, subst, ℕ, ◌=?◌, ◌∷◌,
}
use overstate.Store.{World, User, user_by_id}
use overstate.Authz.Catalog.{is_ladder, has_perm}
use overstate.Authz.Catalog.Laws.{is_perm_of_has_perm}
use overstate.Authz.Entries.{
  Entry, grant_entries, effective_entries, user_grants, of_grant, group_grants, of_mapping,
  user_mappings,
}
use overstate.Authz.Decide.{has_fleet}
use overstate.Authz.RoleCache.Ladder.{any-with_fallback}
use overstate.Authz.Backfill.{has_grant, backfill_rbac, fleet_grant_of}
use overstate.Authz.Backfill.Idempotence.{users-IsFilled}

abbrev pub on_fleet : String → Entry → Bool
on_fleet perm e = has_perm e.role perm && e.kind == "fleet"

user_grants-any :
    (w : World) (u : User) (perm : String)
    → has_grant u w.grants ≡ true
    → has_perm u.role perm ≡ true
    → any (on_fleet perm) (map of_grant (user_grants w u.id)) ≡ true
unfolding has_grant user_grants
user_grants-any w u perm h has = rw any-map-keep (
    any_mono (fleet_grant_of u.id u.role) _ w.grants (λ g e. ground (arith, eq_iff g.role u.role))
      h)

filled-has_fleet :
    (w : World) (u : User) (perm : String)
    → has_grant u w.grants ≡ true
    → has_perm u.role perm ≡ true
    → has_fleet w u perm ≡ true
unfolding has_fleet effective_entries grant_entries
filled-has_fleet w u perm h has =
    let by_user = user_grants-any w u perm h has in
    let joined =
      any-append (on_fleet perm) (map of_grant (user_grants w u.id))
        (map of_grant (group_grants w u.id) ++ map of_mapping (user_mappings w u.id)) in
    let held = any-with_fallback w u.role (on_fleet perm) (grant_entries w u) (ground arith) in
    ground (arith, is_perm_of_has_perm u.role perm, held)

All-found :
    (P : User → Type 0) (us : List User) (uid : ℕ) (u : User)
    → All P us
    → user_by_id us uid ≡ some u
    → P u
unfolding user_by_id
All-found P [] uid u h e = absurd (ground arith)
All-found P (x ∷ us) uid u (p, ps) e = elim (Bool-cases (x.id =? uid)) [
  | inl hit ↦ subst P (ground arith) p
  | inr other ↦ All-found P us uid u ps (ground arith)
]

-- After a backfill every user whose role column is a rung of the ladder holds each permission of
-- that role on the fleet.
pub backfill_rbac-has_fleet :
    (w : World) (admin_groups operator_groups perm : String) (uid : ℕ) (u : User)
    → user_by_id w.users uid ≡ some u
    → is_ladder u.role ≡ true
    → has_perm u.role perm ≡ true
    → has_fleet (backfill_rbac w admin_groups operator_groups).world u perm ≡ true
unfolding backfill_rbac
backfill_rbac-has_fleet w admin_groups operator_groups perm uid u found rung has =
    let filled = users-IsFilled w.next_grant_id w.users (w.grants, 0) in
    filled-has_fleet (backfill_rbac w admin_groups operator_groups).world u perm
      (All-found _ w.users uid u filled found rung) has
