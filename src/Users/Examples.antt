-- ===== src/Users/Examples.antt =====
-- Requests to the user administration on the sample fleet, and the theorems at concrete data.
use overstate.Prelude.{
  List, String, [], false, if◌then◌else◌, none, refl, some, true, ◌++◌, ◌==◌, ◌∷◌, ◌≡◌, ◌≢◌, ◌⊎◌,
}
use overstate.Authz.Examples.{runs}
use overstate.Users.Accounts.{
  set_role, create_service_account, delete, is_level, without_rungs, replace_rung, set_scoped_role,
  set_role_view, admin_only, text_length, create_account_view, delete_user, delete_view,
}
use overstate.Authz.Catalog.{has_perm, perm_domain, delegate, minion}
use overstate.Authz.Decide.{decide, has_fleet}
use overstate.Authz.Delegation.{delegate_group_error}
use overstate.Authz.Sample.{site, boss, guest, lead, no_memo}
use overstate.Store.{World}
use overstate.Text.Dumps.{dumps, escape, escape_all}
use overstate.Text.Paths.{
  normpath, lstrip_char, rstrip_char, strip_char, join_with, norm_step, norm_components,
}
use overstate.Text.Words.{
  replace_char, show_int, open_words, split_words, all_digits, is_digit, next_digits, digits_of,
  text_at, digits_text,
}
use overstate.Users.{
  Form, fleet_grant_admin, forbidden, redirected, guarded, require_scoped, fleet_user_admin, deny,
  delegate_grant_write_error, refresh_members,
}
use overstate.Users.Grants.{
  create_grant, delete_grant, is_taken, granted_page, insert_user_grant, write_user_grant,
  create_grant_view, grant_by_id, delete_row, has_admin_mapping, has_other_fleet_admin,
  deleted_page, delete_found, delete_grant_view,
}
use overstate.Users.Groups.{
  has_id, edit_members_view, edited_page, known_ids, posted_ids, local_group_by_id, name_taken,
  create_local_group_view, create_local_group, rename_row, rename_local_group_view,
  rename_local_group, without_ids, members_of, replace_members, count_ids, edit_local_group_members,
  deleted_group, delete_group_view, delete_local_group,
}
use overstate.Users.Groups.Joining.{group_covers, joined_member_holds}
use overstate.Users.Groups.Members.{in_group}
use overstate.Users.Scope.{
  validate_grant_scope, accepted, dedup, parse_member_ids, is_file_role, check_prefix, check_group,
  check_list, check_glob, check_grain, check_matcher, is_role,
}
use overstate.Users.Writes.{Write, perform_all, revoke, change_role, drop_user, drop_group, perform}
use overstate.Users.Writes.Anchor.{anchored}
use overstate.Users.GroupGrants.{
  create_local_group_grant, group_granted_page, insert_group_grant, write_group_grant,
  create_group_grant_view, group_deleted_page, delete_found_group_grant, delete_group_grant_view,
  delete_local_group_grant,
}
use overstate.Users.Grants.Escalation.{create_grant_safe}
use overstate.Users.Writes.Lockout.{no_lockout}

-- Everything that a run computes with.
writes : Unit {0}
unfolding runs replace_char open_words split_words all_digits is_digit next_digits digits_of text_at
    digits_text show_int lstrip_char rstrip_char strip_char join_with norm_step norm_components
    normpath escape escape_all dumps guarded require_scoped fleet_grant_admin fleet_user_admin deny
    delegate_grant_write_error refresh_members dedup parse_member_ids is_file_role check_prefix
    check_group check_list check_glob check_grain check_matcher is_role validate_grant_scope
    is_taken granted_page insert_user_grant write_user_grant create_grant_view create_grant
    grant_by_id delete_row has_admin_mapping has_other_fleet_admin deleted_page delete_found
    delete_grant_view delete_grant local_group_by_id name_taken create_local_group_view
    create_local_group rename_row rename_local_group_view rename_local_group has_id without_ids
    posted_ids known_ids members_of replace_members count_ids edited_page edit_members_view
    edit_local_group_members deleted_group delete_group_view delete_local_group group_granted_page
    insert_group_grant write_group_grant create_group_grant_view create_local_group_grant
    group_deleted_page delete_found_group_grant delete_group_grant_view delete_local_group_grant
    is_level without_rungs replace_rung set_scoped_role set_role_view admin_only set_role
    text_length create_account_view create_service_account delete_user delete_view delete perform
    perform_all anchored in_group
writes = tt

abbrev glob_form : String → String → Form
glob_form role pattern key =
    if key == "role"
    then some role
    else if key == "scope_kind"
    then some "glob"
    else if key == "scope_value"
    then some pattern
    else none

stored_list : dumps ("a\"b" ∷ "é" ∷ []) ≡ "[\"a\\\"b\", \"\\u00e9\"]"
unfolding writes
stored_list = refl

decimal : show_int 1203 ≡ "1203"
unfolding writes
decimal = refl

clean_prefix : normpath "a//b/../c/." ≡ "a/c"
unfolding writes
clean_prefix = refl

granted_in_scope :
    (create_grant site lead no_memo 3 (glob_form "team-viewer" "web-1")).answer
    ≡ redirected "users.index" "success" "Granted team-viewer to 'guest'."
unfolding writes
granted_in_scope = refl

-- The same grant again runs into the unique index, of a user and of a local group alike.
granted_twice :
    let first = create_grant site lead no_memo 3 (glob_form "team-viewer" "web-1") in
    (create_grant first.world lead no_memo 3 (glob_form "team-viewer" "web-1")).answer
    ≡ redirected "users.index" "error" "That grant already exists."
unfolding writes
granted_twice = refl

group_granted_twice :
    (create_local_group_grant site boss no_memo 9 (glob_form "team-viewer" "web-*")).answer
    ≡ redirected "users.groups" "error" "That grant already exists."
unfolding writes
group_granted_twice = refl

granted_out_of_scope :
    (create_grant site lead no_memo 3 (glob_form "team-viewer" "db-*")).answer ≡ forbidden
unfolding writes
granted_out_of_scope = refl

own_grant : (create_grant site lead no_memo 1 (glob_form "team-viewer" "web-1")).answer ≡ forbidden
unfolding writes
own_grant = refl

last_admin :
    (delete_grant site boss no_memo 2 2).answer
    ≡ redirected "users.index" "error" "You cannot delete your own last fleet admin grant."
unfolding writes
last_admin = refl

demoted :
    (set_role site boss no_memo 2 (λ key. some "viewer")).answer
    ≡ redirected "users.index" "error" "You cannot demote yourself."
unfolding writes
demoted = refl

lead_delegates : fleet_grant_admin site lead ≡ false
unfolding writes
lead_delegates = refl

read_perm : perm_domain "job.read" ≡ minion
unfolding writes
read_perm = refl

read_no_view : perm_domain "job.read" ≢ delegate
read_no_view e = absurd (cc (read_perm, e))

guest_reads :
    decide
      (create_grant site lead no_memo 3 (glob_form "team-viewer" "web-1")).world
      guest
      "job.read"
      (some "web-1")
      none
    ≡ true
unfolding writes
guest_reads = refl

create_grant_safe_example :
    (decide site guest "job.read" (some "web-1") none ≡ true)
    ⊎ (decide site lead "job.read" (some "web-1") none ≡ true)
create_grant_safe_example =
    create_grant_safe site lead lead_delegates guest "job.read" "web-1" none read_no_view no_memo 3
      (glob_form "team-viewer" "web-1") guest_reads

abbrev joined : World
joined = record site { local_group_members = record { group_id = 9; user_id = 3 } ∷ [] }

joined_delegates : fleet_grant_admin joined lead ≡ false
unfolding writes
joined_delegates = refl

member_reads :
    decide
      (create_local_group_grant joined lead no_memo 9 (glob_form "team-viewer" "web-1")).world
      guest
      "job.read"
      (some "web-1")
      none
    ≡ true
unfolding writes
member_reads = refl

boss_anchored : anchored site 2 ≡ true
unfolding writes
boss_anchored = refl

admin_writes : has_perm "admin" "settings.write" ≡ true
unfolding writes
admin_writes = refl

abbrev attempts : List Write
attempts =
    revoke 2 2
    ∷ change_role 2 (λ key. some "viewer")
    ∷ drop_user 2
    ∷ drop_group 9
    ∷ drop_user 1
    ∷ []

no_lockout_example : has_fleet (perform_all site 2 attempts) boss "settings.write" ≡ true
no_lockout_example = no_lockout site boss attempts "settings.write" boss_anchored admin_writes

accepted_glob :
    validate_grant_scope site "team-viewer" "glob" (glob_form "team-viewer" "web-1")
    ≡ accepted "web-1"
unfolding writes
accepted_glob = refl

-- A group whose role the lead does not hold.
abbrev secrets_duty : World
secrets_duty = record site {
  grants =
      site.grants
      ++ record {
        id = 6;
        subject_kind = "local_group";
        subject_user_id = none;
        subject_group_id = some 9;
        role = "secrets-reader";
        scope_kind = "glob";
        scope_value = "web-1";
        source = "manual";
        created_by = none;
      }
        ∷ [];
}

secrets_unheld : decide secrets_duty lead "pillar.read" (some "web-1") none ≡ false
unfolding writes
secrets_unheld = refl

secrets_manageable : delegate_group_error secrets_duty lead 9 ≡ none
unfolding writes
secrets_manageable = refl

lead_listed : has_id (known_ids secrets_duty (posted_ids ("1" ∷ []))) 1 ≡ true
unfolding writes
lead_listed = refl

secrets_covered : group_covers secrets_duty 9 "pillar.read" "web-1" none ≡ true
unfolding writes
secrets_covered = refl

joined_member_holds_example :
    decide
      (edit_members_view secrets_duty lead no_memo 9
        ("1" ∷ [])
        (some (record { id = 9; name = "duty" }))).world
      lead
      "pillar.read"
      (some "web-1")
      none
    ≡ true
joined_member_holds_example =
    joined_member_holds secrets_duty lead lead no_memo 9 ("1" ∷ [])
      (record { id = 9; name = "duty" }) "pillar.read" "web-1" none secrets_manageable lead_listed
      secrets_covered
