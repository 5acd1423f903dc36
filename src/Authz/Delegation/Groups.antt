-- ===== src/Authz/Delegation/Groups.antt =====
-- overstate_ui/authz.py: `delegate_group_error` beside what the delegator holds.
use overstate.Prelude.{
  All, List, String, [], arith, keep, none, some, true, ℕ, ◌&&◌, ◌==◌, ◌∷◌, ◌≡◌,
}
use overstate.Sets.{contains, subset, subset-contains}
use overstate.Store.{World, User, Grant}
use overstate.Authz.Scopes.{resolve_scope}
use overstate.Authz.Decide.{decide, minions_with}
use overstate.Authz.Decide.Agreement.{minions_with_sound}
use overstate.Authz.Delegation.{delegate_scope_kinds, first_outside, delegate_group_error}
use overstate.Authz.Entries.{is_id}

module _ (w : World) (user : User) where
  -- A grant on a minion scope, all of whose minions the delegator reaches.
  pub record IsWithin (g : Grant) : Type 0 where
    pub kind : contains delegate_scope_kinds g.scope_kind ≡ true
    pub reached :
        (mid : String)
        → contains (resolve_scope w g.scope_kind g.scope_value) mid ≡ true
        → decide w user "grant.delegate" (some mid) none ≡ true

  first_outside-none :
      (gs : List Grant)
      → first_outside w (minions_with w user "grant.delegate") gs ≡ none
      → All IsWithin gs
  unfolding first_outside
  first_outside-none [] h = tt
  first_outside-none (g ∷ gs) h =
      let within : subset (resolve_scope w g.scope_kind g.scope_value)
            (minions_with w user "grant.delegate")
          ≡ true =
        ground arith in
      (
        record {
          kind = ground arith;
          reached = λ mid e.
              (minions_with_sound w "grant.delegate" mid user none
                (subset-contains _ _ mid within e)).1;
        },
        first_outside-none gs (ground arith),
      )

  -- Where the check of a local group passes, each grant on the group is on a minion scope, and
  -- the delegator holds `grant.delegate` on each minion of that scope.
  pub delegate_group_safe :
      (group_id : ℕ)
      → delegate_group_error w user group_id ≡ none
      → All IsWithin (
          keep (λ g. g.subject_kind == "local_group" && is_id g.subject_group_id group_id) w.grants)
  unfolding delegate_group_error
  delegate_group_safe group_id h = first_outside-none _ h
