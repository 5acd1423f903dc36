-- ===== src/Authz/Delegation.antt =====
-- overstate_ui/authz.py: which grants and local groups a delegate may write.
pub mod Escalation
pub mod Empty
pub mod Groups
use overstate.Prelude.{
  Bool, List, Option, String, [], false, if◌then◌else◌, keep, none, not, some, ℕ, ◌&&◌, ◌<>◌, ◌==◌,
  ◌||◌, ◌∷◌,
}
use overstate.Sets.{contains, diff, inter, subset}
use overstate.Sets.Sorting.{sorted}
use overstate.Store.{World, User, Grant}
use overstate.Authz.Catalog.{
  role_perms, is_fleet_only, fleet_domain_perms, prefix_domain_perms, delegate_perms,
}
use overstate.Authz.Scopes.{snapshot_ids, resolve_scope}
use overstate.Authz.Entries.{is_id}
use overstate.Authz.Decide.{minions_with, perm_scope_minions}

abbrev pub delegate_scope_kinds : List String
delegate_scope_kinds = "group" ∷ "list" ∷ "glob" ∷ "grain" ∷ []

-- Whether the delegator holds a permission on every resolved minion.
unfoldable pub holds_on_all : World → User → List String → String → Bool
holds_on_all w user resolved perm =
    if contains delegate_perms perm
    then subset resolved (perm_scope_minions w user perm)
    else subset resolved (minions_with w user perm)

-- The loop over the sorted permissions: the first one that is not held.
unfoldable pub first_unheld : World → User → List String → List String → Option String
first_unheld w user resolved [] = none
first_unheld w user resolved (perm ∷ perms) =
    let later = first_unheld w user resolved perms in
    if holds_on_all w user resolved perm
    then later
    else some ("You do not hold '" <> (perm <> "' on that scope."))

-- The checks of a role whose permissions are known.
unfoldable pub delegate_role_error : World → User → String → String → List String → Option String
delegate_role_error w user scope_kind scope_value perms =
    let resolved = inter (resolve_scope w scope_kind scope_value) (snapshot_ids w) in
    let wanted = diff (diff perms fleet_domain_perms) prefix_domain_perms in
    if contains perms "grant.admin"
    then some "grant.admin cannot be delegated."
    else if not (subset resolved (minions_with w user "grant.delegate"))
    then some "That scope reaches outside your delegated scope."
    else first_unheld w user resolved (sorted wanted)

abbrev cannot_delegate : String → String
cannot_delegate role = "Role '" <> (role <> "' cannot be delegated.")

abbrev role_error : World → User → String → String → String → Option (List String) → Option String
role_error w user role scope_kind scope_value none = some (cannot_delegate role)
role_error w user role scope_kind scope_value (some perms) =
    if is_fleet_only role
    then some (cannot_delegate role)
    else delegate_role_error w user scope_kind scope_value perms

-- None where the grant may be written, else the message.
unfoldable pub delegate_grant_error : World → User → String → String → String → Option String
delegate_grant_error w user role scope_kind scope_value =
    if not (contains delegate_scope_kinds scope_kind)
    then some "Delegated grants need a minion scope, not fleet or a path."
    else role_error w user role scope_kind scope_value (role_perms role)

unfoldable pub scope_inside : World → String → String → List String → Bool
scope_inside w scope_kind scope_value ids =
    if scope_kind == "fleet" || scope_kind == "prefix"
    then false
    else subset (resolve_scope w scope_kind scope_value) ids

unfoldable pub first_outside : World → List String → List Grant → Option String
first_outside w within [] = none
first_outside w within (g ∷ gs) =
    let later = first_outside w within gs in
    if not (contains delegate_scope_kinds g.scope_kind)
    then some "That group holds a grant outside delegated scopes."
    else if not (subset (resolve_scope w g.scope_kind g.scope_value) within)
    then some "That group holds a grant outside your delegated scope."
    else later

-- None where the delegate may edit or delete the local group.
unfoldable pub delegate_group_error : World → User → ℕ → Option String
delegate_group_error w user group_id =
    first_outside w (minions_with w user "grant.delegate")
      (keep (λ g. g.subject_kind == "local_group" && is_id g.subject_group_id group_id) w.grants)
