-- ===== src/Users/Frame.antt =====
-- overstate_ui/users.py: the tables that no access decision reads, audit rows, role columns and the
-- names of local groups among them.
pub mod Pages
use overstate.Prelude.{
  List, String, refl, ℕ, ◌≡◌, Option, [], any_congr, ap, arith, false, if◌then◌else◌, none, not,
  some, ◌∷◌, if-both, subst, sym, true, ◌∙◌,
}
use overstate.Store.{World, User, AuditEvent, LocalGroup}
use overstate.Authz.Decide.{covers_minion, decide, entry_covers}
use overstate.Authz.Entries.{
  effective_entries, with_fallback, Entry, grant_entries, user_grants, group_grants, user_mappings,
}
use overstate.Authz.Scopes.{
  resolve_scope, scope_group_members, glob_ids, grain_ids, snapshot_ids, snapshot_grains,
}
use overstate.Authz.Catalog.{is_perm}
use overstate.Authz.Flags.{fallback_on, rbac_flag, scoped_mode}
use overstate.Authz.Gates.{
  Passage, audit_deny, log_event, pass_any, pass_level, permission_required, roles_required,
  any_authorized,
}
use overstate.Authz.Memo.{Memo}
use overstate.Authz.RoleCache.{refresh_role_cache}
use overstate.Users.{deny, refresh_members, user_by_id}
use overstate.Users.Grants.{has_admin_mapping}

abbrev rows_set : World → List User → List AuditEvent → List LocalGroup → ℕ → ℕ → ℕ → World
rows_set w us evs groups a b c = record w {
  users = us;
  audit_events = evs;
  local_groups = groups;
  next_user_id = a;
  next_group_id = b;
  next_grant_id = c;
}

-- Two databases that differ at most in those tables.
pub record SameAccess (w w' : World) : Type 0 where
  pub us : List User
  pub evs : List AuditEvent
  pub groups : List LocalGroup
  pub a : ℕ
  pub b : ℕ
  pub c : ℕ
  pub same : w' ≡ rows_set w us evs groups a b c

module _ (w : World) (us : List User) (evs : List AuditEvent) (groups : List LocalGroup)
    (a b c : ℕ) where
  resolve_scope-rows :
      (kind value : String)
      → resolve_scope (rows_set w us evs groups a b c) kind value ≡ resolve_scope w kind value
  unfolding resolve_scope scope_group_members glob_ids grain_ids snapshot_ids snapshot_grains
  resolve_scope-rows kind value = refl

  fallback-rows :
      (role : String) (es : List Entry)
      → with_fallback (rows_set w us evs groups a b c) role es ≡ with_fallback w role es
  unfolding with_fallback fallback_on rbac_flag
  fallback-rows role [] = refl
  fallback-rows role (e ∷ es) = refl

  entries-rows :
      (v : User) → effective_entries (rows_set w us evs groups a b c) v ≡ effective_entries w v
  unfolding effective_entries grant_entries user_grants group_grants user_mappings
  entries-rows v = fallback-rows v.role (grant_entries w v)

  covers_minion-rows :
      (e : Entry) (asked : Option String)
      → covers_minion (rows_set w us evs groups a b c) e asked ≡ covers_minion w e asked
  unfolding covers_minion
  covers_minion-rows e none = refl
  covers_minion-rows e (some mid) = rw resolve_scope-rows refl

  entry_covers-rows :
      (e : Entry) (perm : String) (asked path : Option String)
      → entry_covers (rows_set w us evs groups a b c) e perm asked path
        ≡ entry_covers w e perm asked path
  unfolding entry_covers
  entry_covers-rows e perm asked path = ground (arith, covers_minion-rows e asked)

  decide-rows :
      (v : User) (perm : String) (asked path : Option String)
      → decide (rows_set w us evs groups a b c) v perm asked path ≡ decide w v perm asked path
  unfolding decide
  decide-rows v perm asked path = rw entries-rows (
      ap (λ b'. if not (is_perm perm) then false else b')
        (any_congr _ _ (effective_entries w v) (λ e. entry_covers-rows e perm asked path)))

pub SameAccess-refl : (w : World) → SameAccess w w
SameAccess-refl w = record {
  us = w.users;
  evs = w.audit_events;
  groups = w.local_groups;
  a = w.next_user_id;
  b = w.next_group_id;
  c = w.next_grant_id;
  same = refl;
}

pub SameAccess-trans : (u v w : World) → SameAccess u v → SameAccess v w → SameAccess u w
SameAccess-trans u v w p q = record {
  us = q.us;
  evs = q.evs;
  groups = q.groups;
  a = q.a;
  b = q.b;
  c = q.c;
  same = q.same ∙ ap (λ x. rows_set x q.us q.evs q.groups q.a q.b q.c) p.same;
}

module _ (w w' : World) (s : SameAccess w w') where
  pub SameAccess-decide :
      (v : User) (perm : String) (asked path : Option String)
      → decide w' v perm asked path ≡ decide w v perm asked path
  SameAccess-decide v perm asked path =
      ap (λ x. decide x v perm asked path) s.same
      ∙ decide-rows w s.us s.evs s.groups s.a s.b s.c v perm asked path

  pub SameAccess-entries : (v : User) → effective_entries w' v ≡ effective_entries w v
  SameAccess-entries v =
      ap (λ x. effective_entries x v) s.same ∙ entries-rows w s.us s.evs s.groups s.a s.b s.c v

  pub SameAccess-grants : w'.grants ≡ w.grants
  SameAccess-grants = ap (λ (x : World). x.grants) s.same

  pub SameAccess-members : w'.local_group_members ≡ w.local_group_members
  SameAccess-members = ap (λ (x : World). x.local_group_members) s.same

  pub SameAccess-admin_mapping : (uid : ℕ) → has_admin_mapping w' uid ≡ has_admin_mapping w uid
  unfolding has_admin_mapping
  SameAccess-admin_mapping uid = ap (λ x. has_admin_mapping x uid) s.same

pub log_event-SameAccess :
    (user action : String) (outcome perm mid detail : Option String) (w : World)
    → SameAccess w (log_event user action outcome perm mid detail w)
unfolding log_event
log_event-SameAccess user action outcome perm mid detail w = record {
  us = w.users;
  evs = (log_event user action outcome perm mid detail w).audit_events;
  groups = w.local_groups;
  a = w.next_user_id;
  b = w.next_group_id;
  c = w.next_grant_id;
  same = refl;
}

pub refresh-SameAccess :
    (w : World) (u : User) (m : Memo) → SameAccess w (refresh_role_cache w u m).world
unfolding refresh_role_cache
refresh-SameAccess w u m = record {
  us = (refresh_role_cache w u m).world.users;
  evs = w.audit_events;
  groups = w.local_groups;
  a = w.next_user_id;
  b = w.next_group_id;
  c = w.next_grant_id;
  same = refl;
}
