-- ===== src/Authz/Delegation/Empty.antt =====
-- overstate_ui/authz.py: `delegate_grant_error` on a scope that matches no minion at the time.
use overstate.Prelude.{List, String, [], arith, false, none, refl, some, true, ◌∷◌, ◌≡◌}
use overstate.Sets.{contains, inter, subset, is_empty, diff}
use overstate.Store.{World, User}
use overstate.Authz.Catalog.{role_perms, is_fleet_only, fleet_domain_perms, prefix_domain_perms}
use overstate.Authz.Scopes.{snapshot_ids, resolve_scope}
use overstate.Authz.Delegation.{
  delegate_grant_error, delegate_role_error, first_unheld, holds_on_all, delegate_scope_kinds,
}
use overstate.Authz.Decide.{perm_scope_minions, minions_with}
use overstate.Sets.Sorting.{sorted}

subset-empty : (a b : List String) → is_empty a ≡ true → subset a b ≡ true
unfolding subset is_empty
subset-empty [] b h = refl
subset-empty (x ∷ a) b h = cc

module _ (w : World) (user : User) where
  holds_on-empty :
      (resolved : List String) (perm : String)
      → is_empty resolved ≡ true
      → holds_on_all w user resolved perm ≡ true
  unfolding holds_on_all
  holds_on-empty resolved perm h = ground (
    arith,
    subset-empty resolved (perm_scope_minions w user perm) h,
    subset-empty resolved (minions_with w user perm) h,
  )

  first_unheld-empty :
      (resolved perms : List String)
      → is_empty resolved ≡ true
      → first_unheld w user resolved perms ≡ none
  unfolding first_unheld
  first_unheld-empty resolved [] h = refl
  first_unheld-empty resolved (p ∷ perms) h =
      ground (arith, holds_on-empty resolved p h, first_unheld-empty resolved perms h)

  -- Every user passes the delegate check for every role that is known, is not fleet-only and lacks
  -- `grant.admin`, on a minion scope that resolves to no snapshot minion at the time, also a user
  -- who holds neither `grant.delegate` nor any permission of the role. The scope is read again at
  -- each later decision, when it may match.
  pub empty_scope_delegable :
      (role scope_kind scope_value : String) (perms : List String)
      → role_perms role ≡ some perms
      → is_fleet_only role ≡ false
      → contains perms "grant.admin" ≡ false
      → contains delegate_scope_kinds scope_kind ≡ true
      → is_empty (inter (resolve_scope w scope_kind scope_value) (snapshot_ids w)) ≡ true
      → delegate_grant_error w user role scope_kind scope_value ≡ none
  unfolding delegate_grant_error delegate_role_error
  empty_scope_delegable role scope_kind scope_value perms known open_role no_admin kind gone =
      let resolved = inter (resolve_scope w scope_kind scope_value) (snapshot_ids w) in
      ground (
        arith,
        subset-empty resolved (minions_with w user "grant.delegate") gone,
        first_unheld-empty resolved
            (sorted (diff (diff perms fleet_domain_perms) prefix_domain_perms)) gone,
      )
