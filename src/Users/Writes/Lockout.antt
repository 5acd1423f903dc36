-- ===== src/Users/Writes/Lockout.antt =====
-- overstate_ui/users.py: what a fleet admin keeps through their own requests.
use overstate.Prelude.{
  List, Option, String, [], any, any-append, any-map-keep, any_mono, arith, eq_iff, map, none, refl,
  some, subst, sym, true, ℕ, ◌∷◌, ◌≡◌,
}
use overstate.Users.Accounts.{admin_only, set_role, create_service_account, delete}
use overstate.Users.Writes.{
  no_memo, Write, grant, revoke, add_group, rename_group, edit_members, drop_group, grant_group,
  revoke_group, change_role, add_account, drop_user, perform, perform_all, perform_as,
}
use overstate.Authz.Decide.{has_fleet}
use overstate.Authz.Entries.{
  user_grants, user_mappings, effective_entries, grant_entries, of_grant, of_mapping,
}
use overstate.Store.{World, User, user_by_id}
use overstate.Users.{Page, guarded, require_scoped}
use overstate.Users.Grants.{
  has_admin_mapping, create_grant, delete_grant, is_fleet_admin, grant_gate, grant_by_id,
}
use overstate.Users.Writes.Anchor.{anchored}
use overstate.Authz.Catalog.{has_perm}
use overstate.Authz.Memo.{Memo}
use overstate.Users.Frame.{SameAccess}
use overstate.Users.Writes.Kept.{
  Kept, same-Kept, create_grant_view-Kept, delete_grant_view-Kept, create_group_grant_view-Kept,
  delete_group_grant_view-Kept,
}
use overstate.Authz.Backfill.Fleet.{on_fleet}
use overstate.Authz.RoleCache.Ladder.{any-with_fallback}
use overstate.Users.Frame.Pages.{
  guarded-world, permission_required-IsGate, roles_required-IsGate, require_scoped-IsGate,
}
use overstate.Users.Groups.{
  create_local_group, member_gate, rename_local_group, edit_local_group_members, delete_local_group,
  local_group_by_id,
}
use overstate.Authz.Catalog.Laws.{is_perm_of_has_perm}
use overstate.Authz.Gates.{roles_required}
use overstate.Users.GroupGrants.{create_local_group_grant, delete_local_group_grant}
use overstate.Users.Writes.Views.{
  add_group-Keeps, rename_group-Keeps, edit_members-Keeps, drop_group-Keeps, set_role-Keeps,
  add_account-Keeps, drop_user-Keeps,
}

module _ (w : World) (me : User) where
  abbrev Keeps : World → Type 0
  Keeps = Kept w me

  abbrev same-Keeps : (w' : World) → SameAccess w w' → Keeps w'
  same-Keeps = same-Kept w me

  admin_only-Keeps :
      (m : Memo) (view : World → Memo → Page)
      → ((m' : Memo) → Keeps (view w m').world)
      → Keeps (admin_only w me m view).world
  unfolding admin_only
  admin_only-Keeps m view k =
      guarded-world Keeps w (roles_required w me 2 m) _ (roles_required-IsGate w me 2 m) same-Keeps
        (guarded-world Keeps w (require_scoped w me "user.admin" _) view
          (require_scoped-IsGate w me "user.admin" _) same-Keeps (k _))

  granting :
      (m : Memo) (view : World → Memo → Page)
      → ((m' : Memo) → Keeps (view w m').world)
      → Keeps (guarded (grant_gate w me m) view).world
  granting m view k =
      guarded-world Keeps w (grant_gate w me m) view (permission_required-IsGate w me _ m)
        same-Keeps (k _)

  grouping :
      (m : Memo) (view : World → Memo → Page)
      → ((m' : Memo) → Keeps (view w m').world)
      → Keeps (guarded (member_gate w me m) view).world
  grouping m view k =
      guarded-world Keeps w (member_gate w me m) view (permission_required-IsGate w me _ m)
        same-Keeps (k _)

  pub perform-Keeps : (m : Memo) (x : Write) → Keeps (perform w me m x).world
  unfolding perform create_grant delete_grant create_local_group rename_local_group
      edit_local_group_members delete_local_group create_local_group_grant delete_local_group_grant
      set_role create_service_account delete
  perform-Keeps m (grant uid form) =
      granting m _ (λ m'. create_grant_view-Kept w me m' form (user_by_id w.users uid))
  perform-Keeps m (revoke uid gid) =
      granting m _ (λ m'. delete_grant_view-Kept w me m' uid gid (grant_by_id w.grants gid) refl)
  perform-Keeps m (add_group form) = grouping m _ (λ m'. add_group-Keeps w me m' _)
  perform-Keeps m (rename_group gid form) =
      grouping m _ (λ m'. rename_group-Keeps w me m' gid _ (local_group_by_id w.local_groups gid))
  perform-Keeps m (edit_members gid raws) =
      grouping m _
        (λ m'. edit_members-Keeps w me m' gid raws (local_group_by_id w.local_groups gid))
  perform-Keeps m (drop_group gid) =
      grouping m _ (λ m'. drop_group-Keeps w me m' gid (local_group_by_id w.local_groups gid))
  perform-Keeps m (grant_group gid form) =
      granting m _
        (λ m'. create_group_grant_view-Kept w me m' form (local_group_by_id w.local_groups gid))
  perform-Keeps m (revoke_group gid i) =
      granting m _ (λ m'. delete_group_grant_view-Kept w me m' gid i (grant_by_id w.grants i) refl)
  perform-Keeps m (change_role uid form) =
      admin_only-Keeps m _ (λ m'. set_role-Keeps w me m' _ (user_by_id w.users uid))
  perform-Keeps m (add_account form) = admin_only-Keeps m _ (λ m'. add_account-Keeps w me m' _)
  perform-Keeps m (drop_user uid) =
      admin_only-Keeps m _ (λ m'. drop_user-Keeps w me m' (user_by_id w.users uid))

pub user_id : (us : List User) (uid : ℕ) (u : User) → user_by_id us uid ≡ some u → u.id ≡ uid
unfolding user_by_id
user_id [] uid u e = absurd (ground arith)
user_id (x ∷ xs) uid u e = ground (arith, user_id xs uid u)

perform_as-anchored :
    (w : World) (uid : ℕ) (o : Option User) (x : Write)
    → user_by_id w.users uid ≡ o
    → anchored w uid ≡ true
    → anchored (perform_as w o x) uid ≡ true
perform_as-anchored w uid none x e h = h
perform_as-anchored w uid (some me) x e h =
    let same = user_id w.users uid me e in
    subst (λ i. anchored (perform w me no_memo x).world i ≡ true) same
      (perform-Keeps w me no_memo x (subst (λ i. anchored w i ≡ true) (sym same) h))

perform_all-anchored :
    (w : World) (uid : ℕ) (xs : List Write)
    → anchored w uid ≡ true
    → anchored (perform_all w uid xs) uid ≡ true
unfolding perform_all
perform_all-anchored w uid [] h = h
perform_all-anchored w uid (x ∷ xs) h =
    perform_all-anchored (perform_as w (user_by_id w.users uid) x) uid xs
      (perform_as-anchored w uid (user_by_id w.users uid) x refl h)

anchored-grants :
    (w : World) (v : User) (perm : String)
    → has_perm "admin" perm ≡ true
    → any (is_fleet_admin v.id) w.grants ≡ true
    → any (on_fleet perm) (map of_grant (user_grants w v.id)) ≡ true
unfolding user_grants
anchored-grants w v perm has h =
    rw any-map-keep
      (any_mono (is_fleet_admin v.id) _ w.grants (λ g e. ground (arith, eq_iff g.role "admin")) h)

anchored-mappings :
    (w : World) (v : User) (perm : String)
    → has_perm "admin" perm ≡ true
    → has_admin_mapping w v.id ≡ true
    → any (on_fleet perm) (map of_mapping (user_mappings w v.id)) ≡ true
unfolding user_mappings has_admin_mapping
anchored-mappings w v perm has h =
    rw any-map-keep (any_mono _ _ w.mappings (λ m e. ground (arith, eq_iff m.role "admin")) h)

anchored-has_fleet :
    (w : World) (v : User) (perm : String)
    → has_perm "admin" perm ≡ true
    → anchored w v.id ≡ true
    → has_fleet w v perm ≡ true
unfolding has_fleet effective_entries anchored
anchored-has_fleet w v perm has h =
    let held = any-with_fallback w v.role (on_fleet perm) (grant_entries w v) (
      unfold grant_entries in
      rw (any-append, any-append)
        (ground (arith, anchored-grants w v perm has, anchored-mappings w v perm has))) in
    ground (arith, is_perm_of_has_perm "admin" perm, held)

-- No lockout. A user with a fleet admin grant or mapping of their own, not one through a local group,
-- still holds every permission of the admin role on the fleet after any sequence of their own
-- requests to the user administration.
pub no_lockout :
    (w : World) (v : User) (xs : List Write) (perm : String)
    → anchored w v.id ≡ true
    → has_perm "admin" perm ≡ true
    → has_fleet (perform_all w v.id xs) v perm ≡ true
no_lockout w v xs perm h has =
    anchored-has_fleet (perform_all w v.id xs) v perm has (perform_all-anchored w v.id xs h)
