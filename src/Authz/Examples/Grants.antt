-- ===== src/Authz/Examples/Grants.antt =====
-- Delegation, the backfill and the role cache on the sample fleet.
use overstate.Authz.Sample.{user_grant}
use overstate.Authz.RoleCache.{set_role, ladder}
use overstate.Authz.RoleCache.Refresh.{fresh}
use overstate.Authz.Memo.{authorize}
use overstate.Authz.Entries.{grant_entries}
use overstate.Authz.Catalog.{is_perm}
use overstate.Store.{Grant}
use overstate.Prelude.{
  List, String, [], arith, false, none, refl, some, true, ◌∷◌, ◌≡◌, ◌≢◌, sym, ◌∙◌, ap, ◌==◌,
}
use overstate.Authz.Examples.{runs}
use overstate.Authz.Catalog.{has_perm, is_fleet_only, is_ladder, role_perms}
use overstate.Authz.Delegation.{delegate_grant_error, delegate_group_error, delegate_scope_kinds}
use overstate.Authz.Memo.{Memo, find_entries}
use overstate.Authz.Memo.Coherence.{IsCoherent}
use overstate.Authz.RoleCache.{refresh_role_cache, cached_role}
use overstate.Sets.{contains, is_empty, inter}
use overstate.Authz.RoleCache.Refresh.{IsCoherentBut, refresh-IsCoherent, refresh-stale}
use overstate.Authz.Sample.{site, boss, guest, lead, no_memo}
use overstate.Authz.Scopes.{resolve_scope, snapshot_ids}
use overstate.Authz.Delegation.Empty.{empty_scope_delegable}
use overstate.Authz.Delegation.Escalation.{IsContained, delegate_grant_safe}
use overstate.Store.{user_by_id}

may_appoint : delegate_grant_error site lead "team-viewer" "glob" "web-1" ≡ none
unfolding runs
may_appoint = refl

delegate_grant_safe_example : IsContained site lead "team-viewer" "glob" "web-1" may_appoint
delegate_grant_safe_example = delegate_grant_safe site lead "team-viewer" "glob" "web-1" may_appoint

boss_row : user_by_id site.users 2 ≡ some boss
unfolding runs
boss_row = refl

boss_admin : is_ladder boss.role ≡ true
unfolding runs
boss_admin = refl

admin_reads : has_perm boss.role "job.read" ≡ true
unfolding runs
admin_reads = refl

abbrev old_memo : Memo
old_memo = record { grant_entries = some ((1, []) ∷ []); authz_cache = none }

-- The lead becomes a fleet admin.
abbrev promoted : List Grant
promoted = user_grant 10 1 "admin" "fleet" "*" ∷ []

old_role : cached_role (grant_entries site lead) ≡ "scoped"
unfolding runs cached_role ladder
old_role = refl

new_role : cached_role (grant_entries (record site { grants = promoted }) lead) ≡ "admin"
unfolding runs cached_role ladder
new_role = refl

abbrev top : String
top = "admin"

other_word : top ≢ "scoped"
other_word e = let differs : true ≡ false = ap (λ s. s == top) e in absurd (cc)

roles_differ :
    cached_role (grant_entries (record site { grants = promoted }) lead)
    ≢ cached_role (grant_entries site lead)
roles_differ same = other_word (sym new_role ∙ same ∙ old_role)

knows_run : is_perm "job.run.read" ≡ true
unfolding runs
knows_run = refl

refresh-stale_example :
    let checked = authorize site lead "job.run.read" (some "web-1") none fresh in
    let r = refresh_role_cache (record site { grants = promoted }) lead checked.1 in
    (r.role ≡ cached_role (grant_entries site lead))
    × (r.world.users ≡ set_role 1 (cached_role (grant_entries site lead)) site.users)
    × (r.role ≢ cached_role (grant_entries (record site { grants = promoted }) lead))
refresh-stale_example =
    refresh-stale site lead "job.run.read" (some "web-1") none promoted knows_run refl roles_differ

stale_but : IsCoherentBut site old_memo 1
unfolding find_entries
stale_but v es ne e = absurd (ground arith)

refresh-IsCoherent_example :
    IsCoherent
      (refresh_role_cache site lead old_memo).world
      (refresh_role_cache site lead old_memo).memo
refresh-IsCoherent_example = refresh-IsCoherent site lead old_memo stale_but refl

boss_rung : is_ladder (refresh_role_cache site boss no_memo).role ≡ true
unfolding runs
boss_rung = refl

boss_writes : has_perm (refresh_role_cache site boss no_memo).role "settings.write" ≡ true
unfolding runs
boss_writes = refl

abbrev reader_perms : List String
reader_perms = "minion.read" ∷ "pillar.read" ∷ "mine.read" ∷ []

reader_known : role_perms "secrets-reader" ≡ some reader_perms
unfolding runs
reader_known = refl

reader_open : is_fleet_only "secrets-reader" ≡ false
unfolding runs
reader_open = refl

reader_no_admin : contains reader_perms "grant.admin" ≡ false
unfolding runs
reader_no_admin = refl

glob_kind : contains delegate_scope_kinds "glob" ≡ true
unfolding runs
glob_kind = refl

no_match_yet : is_empty (inter (resolve_scope site "glob" "db-9*") (snapshot_ids site)) ≡ true
unfolding runs
no_match_yet = refl

empty_scope_delegable_example :
    delegate_grant_error site guest "secrets-reader" "glob" "db-9*" ≡ none
empty_scope_delegable_example =
    empty_scope_delegable site guest "secrets-reader" "glob" "db-9*" reader_perms reader_known
      reader_open reader_no_admin glob_kind no_match_yet

group_passes : delegate_group_error site lead 9 ≡ none
unfolding runs
group_passes = refl
