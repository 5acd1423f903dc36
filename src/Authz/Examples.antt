-- ===== src/Authz/Examples.antt =====
-- Runs over the sample fleet: the bundle of what they compute with.
mod Decisions
mod Targets
mod Grants
use overstate.Prelude.{
  any, all, keep, false, none, refl, some, true, ◌≡◌, All, List, String, [], not, ◌&&◌, ◌==◌, ◌||◌,
  ◌∷◌, ◌⊎◌, arith,
}
use overstate.Sets.{
  contains, add, from_list, union, filter, inter, diff, subset, is_empty, All-contains,
}
use overstate.Sets.Sorting.{insert_sorted, sorted}
use overstate.Text.{
  is_space, lstrip, rstrip, strip, split, partition, join, read_digits, parse_id, under_prefix,
}
use overstate.Text.Lists.{split_csv, csv_set}
use overstate.Json.{elements, get, truthy, list_or_nil, to_str, Fields, obj, field, str, end}
use overstate.Glob.{
  close_at, close_after_first, body_length, take, items, set_of, parse, in_item, in_set, matches,
  fnmatchcase,
}
use overstate.Glob.Matching.{has_glob}
use overstate.Store.{setting_row, group_by_id, group_by_name, user_by_id}
use overstate.Authz.Flags.{rbac_flag, scoped_mode, fallback_on}
use overstate.Authz.Catalog.{
  role_perms, is_perm, has_perm, is_fleet_only, is_ladder, perm_domain, all_perms, floor_perms,
  fleet, minion, delegate,
}
use overstate.Authz.Grains.{fits, match_grain, candidates, snapshot_grain_keys}
use overstate.Authz.Scopes.{
  snapshot_ids, snapshot_grains, grain_ids, glob_ids, scope_group_members, job_group_members,
  resolve_scope,
}
use overstate.Authz.Entries.{
  user_grants, group_grants, user_mappings, grant_entries, with_fallback, effective_entries,
  has_any_access, Entry, is_id,
}
use overstate.Authz.Decide.{
  is_ignored, covers_prefix, covers_minion, entry_covers, decide, has_fleet, entry_minions,
  minions_from, minions_with, scope_minions_from, perm_scope_minions, runnable_ids,
}
use overstate.Authz.Targets.{
  reason_detail, authz_denied, requested_ids, narrow, constrain_target_verbose, constrain_target,
  kill_ids, kill_within, constrain_kill, published_snapshot_ids, ok, Denied, Target, denied,
}
use overstate.Authz.Functions.{
  is_allowed_fun, function_class, other_perm, publish_perm, can_see_return_body,
  may_define_schedule_fleet, may_define_schedule,
}
use overstate.Authz.Delegation.{
  holds_on_all, first_unheld, delegate_role_error, delegate_grant_error, scope_inside,
  first_outside, delegate_group_error, delegate_scope_kinds,
}
use overstate.Authz.Prefixes.{
  prefix_visible, grants_prefix, prefixes_from, visible_prefixes, own_group_ids, group_scopes_from,
  single_group_scope,
}
use overstate.Authz.Memo.{
  key_eq, find_entries, find_decision, recalled_entries, authorize, Memo, rows_of,
}
use overstate.Authz.RoleCache.{ladder, cached_role, set_role, without, refresh_role_cache}
use overstate.Authz.Backfill.{
  has_grant, backfill_user, backfill_users, has_mapping, backfill_pair, backfill_pairs, group_pairs,
  backfill_rbac,
}
use overstate.Authz.Gates.{
  log_event, audit_deny, require, any_authorized, role_level, pass_any, pass_level,
  permission_required, roles_required, read_required,
}
use overstate.Authz.Memo.Coherence.{
  user_role, IsCoherent, IsCurrent, IsCoherent-empty, authorize-decide,
}
use overstate.Authz.Sample.{boss, lead, site, editor, guest, no_memo, odd}
use overstate.Authz.Gates.Decisions.{
  Settled, require-decide, permission_required-decide, zero_grant_denied,
}
use overstate.Authz.Backfill.Fleet.{backfill_rbac-has_fleet}
use overstate.Authz.Backfill.Idempotence.{backfill_rbac-idempotent}
use overstate.Authz.Decide.Agreement.{
  has_fleet-decide, minions_with-decide, fleet_domain-decide, perm_scope-minions_with,
  runnable_ids-decide,
}
use overstate.Authz.Targets.Narrowing.{
  IsNarrowed, constrain_kill_safe, constrain_target_refusal, constrain_target_safe,
}
use overstate.Authz.Delegation.Escalation.{delegate_grant_safe}
use overstate.Authz.Delegation.Empty.{empty_scope_delegable}
use overstate.Authz.Delegation.Groups.{IsWithin, delegate_group_safe}
use overstate.Authz.Flags.Precedence.{rbac_flag-blank}
use overstate.Authz.Functions.Classes.{
  IsScopable, SeesAsPublished, can_see_return_body-publish, publish_perm-IsScopable, body_funs,
}
use overstate.Authz.Functions.Schedules.{fleet-may_define_schedule}
use overstate.Authz.Grains.Snapshot.{SameGrains, match_grain_same}
use overstate.Authz.Prefixes.Visibility.{prefix_visible-decide, unbraked_prefix_visible}
use overstate.Authz.RoleCache.Ladder.{refresh-has_fleet}
use overstate.Authz.RoleCache.Refresh.{
  IsCoherentBut, refresh-IsCoherent, refresh-effective_entries, refresh-stale,
}

-- Everything that a run computes with.
unfoldable pub runs : Unit {0}
unfolding any all keep contains add from_list union filter inter diff subset is_empty insert_sorted
    sorted is_space lstrip rstrip strip split partition join read_digits parse_id under_prefix
    split_csv csv_set elements get truthy list_or_nil to_str close_at close_after_first body_length
    take items set_of parse in_item in_set matches fnmatchcase has_glob setting_row user_by_id
    group_by_id group_by_name rbac_flag scoped_mode fallback_on role_perms is_perm has_perm
    is_fleet_only is_ladder perm_domain all_perms floor_perms fits match_grain candidates
    snapshot_ids snapshot_grains grain_ids glob_ids scope_group_members job_group_members
    resolve_scope user_grants group_grants user_mappings grant_entries with_fallback
    effective_entries has_any_access is_ignored covers_prefix covers_minion entry_covers decide
    has_fleet entry_minions minions_from minions_with scope_minions_from perm_scope_minions
    runnable_ids reason_detail authz_denied requested_ids narrow constrain_target_verbose
    constrain_target kill_ids kill_within constrain_kill published_snapshot_ids is_allowed_fun
    function_class other_perm publish_perm can_see_return_body may_define_schedule_fleet
    may_define_schedule holds_on_all first_unheld delegate_role_error delegate_grant_error
    scope_inside first_outside delegate_group_error prefix_visible grants_prefix prefixes_from
    visible_prefixes own_group_ids group_scopes_from single_group_scope key_eq find_entries
    find_decision recalled_entries authorize ladder cached_role set_role without refresh_role_cache
    has_grant backfill_user backfill_users has_mapping backfill_pair backfill_pairs group_pairs
    backfill_rbac log_event audit_deny require any_authorized role_level pass_any pass_level
    permission_required roles_required read_required user_role
runs = tt

fresh : IsCoherent site no_memo
fresh = IsCoherent-empty site

pub site_scoped : scoped_mode site ≡ true
unfolding runs
site_scoped = refl
