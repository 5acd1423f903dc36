-- ===== src/Authz/Catalog.antt =====
-- overstate_ui/authz.py: the built-in roles, their permissions and the domains of permissions.
pub mod Laws
use overstate.Prelude.{
  ◌≡◌, refl, String, Bool, true, false, ◌&&◌, Option, none, some, List, [], ◌∷◌, ◌==◌,
  if◌then◌else◌, suc, zero, ℕ,
}
use overstate.Sets.{contains, union}

abbrev pub ladder_roles : List String
ladder_roles = "viewer" ∷ "operator" ∷ "admin" ∷ []

abbrev pub fleet_only_roles : List String
fleet_only_roles =
    "viewer" ∷ "operator" ∷ "admin" ∷ "security-reader" ∷ "auditor" ∷ "key-custodian" ∷ []

abbrev pub viewer_perms : List String
viewer_perms =
    "minion.read" ∷ "minion.onboard" ∷ "pillar.read" ∷ "mine.read" ∷ "job.read" ∷ "state.read"
    ∷ "schedule.read" ∷ "beacon.read" ∷ "group.read" ∷ "file.read" ∷ "reactor.read" ∷ "event.read"
    ∷ "audit.read" ∷ "key.read" ∷ "settings.read" ∷ []

abbrev pub operator_delta : List String
operator_delta =
    "minion.refresh" ∷ "minion.remove" ∷ "pillar.capture" ∷ "job.run.read" ∷ "job.run.change"
    ∷ "job.run.state" ∷ "job.run.orchestrate" ∷ "job.kill" ∷ "job.save" ∷ "job.batch" ∷ "key.accept"
    ∷ "key.delete" ∷ "schedule.write" ∷ "beacon.write" ∷ "group.write" ∷ "file.write" ∷ "file.sync"
    ∷ "reactor.write" ∷ "state.watch" ∷ "console.runner" ∷ "dashboard.probe" ∷ "pillar.secret.write"
    ∷ []

abbrev pub admin_delta : List String
admin_delta =
    "file.git" ∷ "reactor.persist" ∷ "master.read" ∷ "master.write" ∷ "master.rollout"
    ∷ "settings.write" ∷ "settings.rotate_eauth" ∷ "user.read" ∷ "user.admin" ∷ "grant.admin" ∷ []

abbrev pub team_viewer_perms : List String
team_viewer_perms =
    "minion.read" ∷ "job.read" ∷ "state.read" ∷ "schedule.read" ∷ "beacon.read" ∷ "group.read"
    ∷ "key.read" ∷ []

abbrev pub team_operator_delta : List String
team_operator_delta =
    "minion.refresh" ∷ "job.run.read" ∷ "job.run.change" ∷ "job.kill" ∷ "job.save" ∷ "job.batch"
    ∷ "pillar.secret.write" ∷ []

abbrev pub fleet_domain_perms : List String
fleet_domain_perms =
    "minion.onboard" ∷ "job.run.orchestrate" ∷ "key.accept" ∷ "state.watch" ∷ "file.sync"
    ∷ "file.git" ∷ "reactor.read" ∷ "reactor.write" ∷ "reactor.persist" ∷ "event.read"
    ∷ "master.read" ∷ "master.write" ∷ "master.rollout" ∷ "settings.read" ∷ "settings.write"
    ∷ "settings.rotate_eauth" ∷ "user.admin" ∷ "grant.admin" ∷ "console.runner" ∷ "dashboard.probe"
    ∷ "pillar.secret.write" ∷ []

abbrev pub prefix_domain_perms : List String
prefix_domain_perms = "file.read" ∷ "file.write" ∷ []

abbrev pub delegate_perms : List String
delegate_perms = "user.read" ∷ "audit.read" ∷ []

-- `ROLE_PERMS`, in the order of the source.
abbrev role_table : List (String × List String)
role_table =
    ("viewer", viewer_perms)
    ∷ ("operator", union (viewer_perms) (operator_delta))
    ∷ ("admin", union (union (viewer_perms) (operator_delta)) (admin_delta))
    ∷ ("team-viewer", team_viewer_perms)
    ∷ ("team-operator", union (team_viewer_perms) (team_operator_delta))
    ∷ ("team-state", union (union (team_viewer_perms) (team_operator_delta)) ("job.run.state" ∷ []))
    ∷ ("secrets-reader", "minion.read" ∷ "pillar.read" ∷ "mine.read" ∷ [])
    ∷ (
      "scheduler",
      "minion.read" ∷ "schedule.read" ∷ "schedule.write" ∷ "schedule.allow.read"
          ∷ "schedule.allow.change" ∷ "schedule.allow.state" ∷ "beacon.read" ∷ "beacon.write" ∷ [],
    )
    ∷ (
      "security-reader",
      "minion.read" ∷ "job.read" ∷ "state.read" ∷ "schedule.read" ∷ "beacon.read" ∷ "key.read"
          ∷ "audit.read" ∷ "group.read" ∷ "file.read" ∷ "reactor.read" ∷ [],
    )
    ∷ (
      "auditor",
      "audit.read" ∷ "minion.read" ∷ "job.read" ∷ "state.read" ∷ "schedule.read" ∷ "key.read"
          ∷ "group.read" ∷ "settings.read" ∷ [],
    )
    ∷ (
      "key-custodian",
      "key.read" ∷ "key.accept" ∷ "key.delete" ∷ "minion.read" ∷ "minion.remove" ∷ "minion.onboard"
          ∷ [],
    )
    ∷ ("file-reader", "file.read" ∷ [])
    ∷ ("file-editor", "file.read" ∷ "file.write" ∷ [])
    ∷ (
      "team-lead",
      union (union (team_viewer_perms) (team_operator_delta))
          ("job.run.state" ∷ "grant.delegate" ∷ "group.write" ∷ "user.read" ∷ "audit.read" ∷ []),
    )
    ∷ []

abbrev find_role : String → List (String × List String) → Option (List String)
find_role role [] = none
find_role role ((name, perms) ∷ rows) = if name == role then some perms else find_role role rows

-- `ROLE_PERMS.get(role)`
unfoldable pub role_perms : String → Option (List String)
unfolding union
role_perms role = find_role role role_table

abbrev any_role_has : String → List (String × List String) → Bool
any_role_has perm [] = false
any_role_has perm ((name, perms) ∷ rows) =
    if contains perms perm then true else any_role_has perm rows

-- `perm in _ALL_PERMS`, the union over every built-in role.
unfoldable pub is_perm : String → Bool
unfolding union contains
is_perm perm = any_role_has perm role_table

-- `perms is not None and perm in perms` for `perms = ROLE_PERMS.get(role)`
unfoldable pub has_perm : String → String → Bool
has_perm role perm = elim (role_perms role) [ none ↦ false | some perms ↦ contains perms perm ]

-- `role in FLEET_ONLY_ROLES`
unfoldable pub is_fleet_only : String → Bool
is_fleet_only role = contains fleet_only_roles role

-- `role in LADDER_ROLES`
unfoldable pub is_ladder : String → Bool
is_ladder role = contains ladder_roles role

pub data Domain : Type 0 where
  fleet prefix delegate minion : Domain

unfoldable pub perm_domain : String → Domain
perm_domain perm =
    if contains fleet_domain_perms perm
    then fleet
    else if contains prefix_domain_perms perm
    then prefix
    else if contains delegate_perms perm
    then delegate
    else minion

abbrev all_from : List (String × List String) → List String
all_from [] = []
all_from ((name, perms) ∷ rows) = union perms (all_from rows)

-- `_ALL_PERMS` as a set.
unfoldable pub all_perms : List String
unfolding union
all_perms = all_from role_table

-- `LEGACY_FLOOR_PERMS`, by level; the source has the levels 0, 1 and 2.
unfoldable pub floor_perms : ℕ → List String
floor_perms zero = all_perms
floor_perms (suc zero) = operator_delta
floor_perms (suc (suc level)) = admin_delta
