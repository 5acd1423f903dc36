-- ===== src/Authz/Delegation/Escalation.antt =====
-- overstate_ui/authz.py: `delegate_grant_error` beside what the delegator holds.
use overstate.Prelude.{
  List, Option-cases, String, [], arith, eq_iff, false, inl, inr, none, some, true, ◌∷◌, ◌≡◌, All,
  Option, refl, ◌==◌, ◌⊎◌, ◌≢◌,
}
use overstate.Sets.{
  contains, diff, inter, subset, All-contains, contains-inter, contains-diff, subset-contains,
}
use overstate.Sets.Sorting.{sorted, contains-sorted}
use overstate.Store.{World, User}
use overstate.Authz.Catalog.{
  role_perms, fleet_domain_perms, prefix_domain_perms, has_perm, perm_domain, delegate, minion,
  delegate_perms,
}
use overstate.Authz.Scopes.{snapshot_ids, resolve_scope}
use overstate.Authz.Decide.{
  minions_with, entry_covers, covers_prefix, decide, perm_scope_minions, covers_minion,
}
use overstate.Authz.Delegation.{
  delegate_grant_error, delegate_scope_kinds, first_unheld, delegate_role_error, holds_on_all,
}
use overstate.Authz.Entries.{Entry}
use overstate.Authz.Scopes.Laws.{resolve-snapshot}
use overstate.Authz.Decide.Agreement.{entry_covers-has_perm, minions_with_sound}

-- What has passed when a grant may be written.
record IsDelegable (w : World) (user : User) (role scope_kind scope_value : String) : Type 0 where
  perms : List String
  known : role_perms role ≡ some perms
  kind : contains delegate_scope_kinds scope_kind ≡ true
  no_admin : contains perms "grant.admin" ≡ false
  inside :
      subset
        (inter (resolve_scope w scope_kind scope_value) (snapshot_ids w))
        (minions_with w user "grant.delegate")
      ≡ true
  held :
      first_unheld w user
        (inter (resolve_scope w scope_kind scope_value) (snapshot_ids w))
        (sorted (diff (diff perms fleet_domain_perms) prefix_domain_perms))
      ≡ none

minion-domain :
    (perm : String)
    → perm_domain perm ≡ minion
    → (contains fleet_domain_perms perm ≡ false)
      × (contains prefix_domain_perms perm ≡ false)
      × (contains delegate_perms perm ≡ false)
unfolding perm_domain
minion-domain perm h = ground arith

delegate-domain :
    (perm : String)
    → perm_domain perm ≡ delegate
    → (contains fleet_domain_perms perm ≡ false)
      × (contains prefix_domain_perms perm ≡ false)
      × (contains delegate_perms perm ≡ true)
unfolding perm_domain
delegate-domain perm h = ground arith

abbrev IsMinionKind : String → Type 0
IsMinionKind kind = ((kind == "fleet") ≡ false) × ((kind == "prefix") ≡ false)

kinds_table : All IsMinionKind delegate_scope_kinds
kinds_table = ((refl, refl), ((refl, refl), ((refl, refl), ((refl, refl), tt))))

delegate_kind : (kind : String) → contains delegate_scope_kinds kind ≡ true → IsMinionKind kind
delegate_kind kind h = All-contains IsMinionKind delegate_scope_kinds kind kinds_table h

module _ (w : World) (user : User) where
  first_unheld-none :
      (resolved perms : List String) (perm : String)
      → first_unheld w user resolved perms ≡ none
      → contains perms perm ≡ true
      → holds_on_all w user resolved perm ≡ true
  unfolding first_unheld contains
  first_unheld-none resolved [] perm h e = absurd (ground arith)
  first_unheld-none resolved (p ∷ perms) perm h e =
      ground (arith, first_unheld-none resolved perms perm, eq_iff p perm)

  module _ (role scope_kind scope_value : String)
      (passed : delegate_grant_error w user role scope_kind scope_value ≡ none) where
    delegable : IsDelegable w user role scope_kind scope_value
    unfolding delegate_grant_error delegate_role_error
    delegable = elim (Option-cases (role_perms role)) [
      | inl unknown ↦ absurd (ground arith)
      | inr (perms, known) ↦ record {
        perms = perms;
        known = known;
        kind = ground arith;
        no_admin = ground arith;
        inside = ground arith;
        held = ground arith;
      }
    ]

    abbrev granted : Entry
    granted = record { role = role; kind = scope_kind; value = scope_value }

    resolved_ids : List String
    resolved_ids = inter (resolve_scope w scope_kind scope_value) (snapshot_ids w)

    in_resolved :
        (mid : String)
        → contains (resolve_scope w scope_kind scope_value) mid ≡ true
        → contains resolved_ids mid ≡ true
    unfolding resolved_ids
    in_resolved mid h =
        rw contains-inter (ground (arith, resolve-snapshot w mid scope_kind scope_value h))

    -- A permission of the role that is not dropped off the fleet is held on every resolved minion.
    held_on_all :
        (perm : String)
        → has_perm role perm ≡ true
        → contains fleet_domain_perms perm ≡ false
        → contains prefix_domain_perms perm ≡ false
        → holds_on_all w user resolved_ids perm ≡ true
    unfolding resolved_ids has_perm
    held_on_all perm has f p =
        let d = delegable in
        let dropped_fleet = contains-diff d.perms fleet_domain_perms perm in
        let wanted = contains-diff (diff d.perms fleet_domain_perms) prefix_domain_perms perm in
        let listed =
          contains-sorted (diff (diff d.perms fleet_domain_perms) prefix_domain_perms) perm in
        let known = d.known in first_unheld-none _ _ perm d.held (ground arith)

    covered_domain :
        (perm : String) (asked path : Option String)
        → entry_covers w granted perm asked path ≡ true
        → (perm_domain perm ≡ minion) ⊎ (perm_domain perm ≡ delegate)
    unfolding entry_covers covers_prefix
    covered_domain perm asked path h =
        let kind = delegate_kind scope_kind (delegable).kind in ground arith

    minion_held :
        (perm mid : String) (path : Option String)
        → perm_domain perm ≡ minion
        → has_perm role perm ≡ true
        → contains resolved_ids mid ≡ true
        → decide w user perm (some mid) path ≡ true
    unfolding holds_on_all
    minion_held perm mid path dom has member =
        let (f, p, no_view) = minion-domain perm dom in
        let held = held_on_all perm has f p in
        let within : subset resolved_ids (minions_with w user perm) ≡ true = ground arith in
        (minions_with_sound w perm mid user path
          (subset-contains resolved_ids _ mid within member)).1

    view_held :
        (perm mid : String)
        → perm_domain perm ≡ delegate
        → has_perm role perm ≡ true
        → contains resolved_ids mid ≡ true
        → contains (perm_scope_minions w user perm) mid ≡ true
    unfolding holds_on_all
    view_held perm mid dom has member =
        let (f, p, view) = delegate-domain perm dom in
        let held = held_on_all perm has f p in
        let within : subset resolved_ids (perm_scope_minions w user perm) ≡ true = ground arith in
        subset-contains resolved_ids _ mid within member

    reaches :
        (mid : String)
        → contains resolved_ids mid ≡ true
        → decide w user "grant.delegate" (some mid) none ≡ true
    unfolding resolved_ids
    reaches mid member =
        (minions_with_sound w "grant.delegate" mid user none
          (subset-contains resolved_ids _ mid (delegable).inside member)).1

    covered_member :
        (perm mid : String) (path : Option String)
        → entry_covers w granted perm (some mid) path ≡ true
        → perm_domain perm ≡ minion
        → contains (resolve_scope w scope_kind scope_value) mid ≡ true
    unfolding entry_covers covers_minion
    covered_member perm mid path covers dom =
        let kind = delegate_kind scope_kind (delegable).kind in ground arith

    -- What the entry of a delegated grant can do.
    pub record IsContained : Type 0 where
      pub kind : ((scope_kind == "fleet") ≡ false) × ((scope_kind == "prefix") ≡ false)
      pub domain :
          (perm : String) (asked path : Option String)
          → entry_covers w granted perm asked path ≡ true
          → (perm_domain perm ≡ minion) ⊎ (perm_domain perm ≡ delegate)
      pub within :
          (mid : String)
          → contains (resolve_scope w scope_kind scope_value) mid ≡ true
          → decide w user "grant.delegate" (some mid) none ≡ true
      pub held :
          (perm mid : String) (path : Option String)
          → perm_domain perm ≡ minion
          → entry_covers w granted perm (some mid) path ≡ true
          → (contains (resolve_scope w scope_kind scope_value) mid ≡ true)
            × (decide w user perm (some mid) path ≡ true)
      pub seen :
          (perm mid : String)
          → perm_domain perm ≡ delegate
          → has_perm role perm ≡ true
          → contains (resolve_scope w scope_kind scope_value) mid ≡ true
          → contains (perm_scope_minions w user perm) mid ≡ true

    -- No escalation. Where the delegate check passes, the scope of the new entry is neither the fleet
    -- nor a path, and it resolves to minions on each of which the delegator holds `grant.delegate`. The
    -- entry authorizes no permission of the fleet and path domains. A minion permission that it
    -- authorizes on a minion is on a minion of the scope, and the delegator already holds it there. What the role's delegated views show of the scope, the
    -- delegator's show as well.
    pub delegate_grant_safe : IsContained
    delegate_grant_safe = record {
      kind = delegate_kind scope_kind (delegable).kind;
      domain = covered_domain;
      within = λ mid member. reaches mid (in_resolved mid member);
      held = λ perm mid path dom covers.
          let member = covered_member perm mid path covers dom in
          let has = entry_covers-has_perm w perm (some mid) path granted covers in
          (member, minion_held perm mid path dom has (in_resolved mid member));
      seen = λ perm mid dom has member. view_held perm mid dom has (in_resolved mid member);
    }

    -- The same in one step: off the delegated views, what the entry authorizes the delegator holds.
    pub delegated_held :
        (perm mid : String) (path : Option String)
        → perm_domain perm ≢ delegate
        → entry_covers w granted perm (some mid) path ≡ true
        → decide w user perm (some mid) path ≡ true
    delegated_held perm mid path no_view covers =
        elim (covered_domain perm (some mid) path covers) [
          | inl dom ↦
              let held = minion_held perm mid path dom in
              held (entry_covers-has_perm w perm (some mid) path granted covers)
                (in_resolved mid (covered_member perm mid path covers dom))
          | inr dom ↦ absurd (no_view dom)
        ]
