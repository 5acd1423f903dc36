-- ===== src/Authz/Decide/Agreement.antt =====
-- overstate_ui/authz.py: `authorize` on one minion beside the rosters of a permission.
use overstate.Prelude.{
  ◌≡◌, String, true, ◌&&◌, Option, some, List, [], ◌∷◌, ◌==◌, any, arith, any_congr, refl, Bool,
  false, not, ◌||◌, none, inl, inr, Bool-cases, any_mono, ap, if◌then◌else◌,
}
use overstate.Sets.{contains, contains-union, contains-inter, contains-nil}
use overstate.Store.{World, User}
use overstate.Authz.Catalog.{has_perm, is_perm, minion, perm_domain, Domain, fleet}
use overstate.Authz.Catalog.Laws.{is_perm_of_has_perm}
use overstate.Authz.Scopes.{snapshot_ids}
use overstate.Authz.Scopes.Laws.{resolve-snapshot}
use overstate.Authz.Entries.{Entry, effective_entries}
use overstate.Authz.Decide.{
  is_ignored, covers_minion, covers_prefix, entry_covers, decide, has_fleet, entry_minions,
  minions_from, minions_with, is_minion, perm_scope_minions, runnable_ids, scope_minions_from,
}

module _ (w : World) (perm : String) (asked path : Option String) where
  pub entry_covers-has_perm :
      (e : Entry) → entry_covers w e perm asked path ≡ true → has_perm e.role perm ≡ true
  unfolding entry_covers
  entry_covers-has_perm e h = ground arith

  any_covers-is_perm :
      (es : List Entry)
      → any (λ e. entry_covers w e perm asked path) es ≡ true
      → is_perm perm ≡ true
  unfolding any
  any_covers-is_perm [] h = cc
  any_covers-is_perm (e ∷ es) h =
      ground
        (arith, any_covers-is_perm es, entry_covers-has_perm e, is_perm_of_has_perm e.role perm)

  -- The catalogue test of `authorize` refuses nothing that an entry covers.
  pub decide-any :
      (user : User)
      → decide w user perm asked path
        ≡ any (λ e. entry_covers w e perm asked path) (effective_entries w user)
  unfolding decide
  decide-any user = ground (arith, any_covers-is_perm (effective_entries w user))

  fleet_entry_covers :
      (e : Entry)
      → (has_perm e.role perm && e.kind == "fleet") ≡ true
      → entry_covers w e perm asked path ≡ true
  unfolding entry_covers is_ignored covers_minion covers_prefix
  fleet_entry_covers e h = ground arith

  -- A fleet grant of a permission authorizes it on every minion and every path, whatever its domain.
  pub has_fleet-decide :
      (user : User) → has_fleet w user perm ≡ true → decide w user perm asked path ≡ true
  unfolding has_fleet
  has_fleet-decide user h =
      rw decide-any (any_mono _ _ (effective_entries w user) fleet_entry_covers (ground arith))

module _ (w : World) (mid : String) where
  entry_minions-covers :
      (e : Entry)
      → contains (entry_minions w e) mid
        ≡ (contains (snapshot_ids w) mid && covers_minion w e (some mid))
  unfolding entry_minions covers_minion
  entry_minions-covers e = ground (arith, resolve-snapshot w mid e.kind e.value, contains-nil mid)

  module _ (perm : String) (path : Option String) (dom : perm_domain perm ≡ minion) where
    minions_from-any :
        (es : List Entry)
        → contains (minions_from w perm es) mid
          ≡ (contains (snapshot_ids w) mid && any (λ e. entry_covers w e perm (some mid) path) es)
    unfolding minions_from any entry_covers
    minions_from-any [] = ground (arith, contains-nil mid)
    minions_from-any (e ∷ es) = ground (
      arith,
      dom,
      minions_from-any es,
      entry_minions-covers e,
      contains-union (entry_minions w e) (minions_from w perm es) mid,
    )

    -- For a permission of the minion domain, `minions_with` is exactly the set of snapshot minions
    -- on which `authorize` allows it.
    pub minions_with-decide :
        (user : User)
        → contains (minions_with w user perm) mid
          ≡ (contains (snapshot_ids w) mid && decide w user perm (some mid) path)
    unfolding minions_with
    minions_with-decide user = rw decide-any (minions_from-any (effective_entries w user))

is_minion-eq : (d : Domain) → is_minion d ≡ true → d ≡ minion
is_minion-eq minion h = refl
is_minion-eq _ h = cc

module _ (w : World) (perm mid : String) where
  minions_from-domain :
      (es : List Entry)
      → is_minion (perm_domain perm) ≡ false
      → contains (minions_from w perm es) mid ≡ false
  unfolding minions_from
  minions_from-domain [] h = contains-nil mid
  minions_from-domain (e ∷ es) h = ground (arith, minions_from-domain es h)

  -- What `minions_with` lists lies in the snapshot and is authorized one by one, also for
  -- permissions of the other domains, where it lists nothing.
  pub minions_with_sound :
      (user : User) (path : Option String)
      → contains (minions_with w user perm) mid ≡ true
      → (contains (snapshot_ids w) mid ≡ true) × (decide w user perm (some mid) path ≡ true)
  minions_with_sound user path h = elim (Bool-cases (is_minion (perm_domain perm))) [
    | inl yes_minion ↦
        let same = minions_with-decide w mid perm path (is_minion-eq _ yes_minion) user in
        (ground arith, ground arith)
    | inr other ↦
        let none_listed : contains (minions_with w user perm) mid ≡ false =
          unfold minions_with in minions_from-domain (effective_entries w user) other in
        cc
  ]

  -- One entry's part of `perm_scope_minions`.
  abbrev holds_on : Entry → Bool
  holds_on e = has_perm e.role perm && not (is_ignored e) && covers_minion w e (some mid)

  scope_minions_from-any :
      (es : List Entry)
      → contains (scope_minions_from w perm es) mid
        ≡ (contains (snapshot_ids w) mid && any holds_on es)
  unfolding scope_minions_from any
  scope_minions_from-any [] = ground (arith, contains-nil mid)
  scope_minions_from-any (e ∷ es) = ground (
    arith,
    scope_minions_from-any es,
    entry_minions-covers w mid e,
    contains-union (entry_minions w e) (scope_minions_from w perm es) mid,
  )

  pub perm_scope-any :
      (user : User)
      → contains (perm_scope_minions w user perm) mid
        ≡ (contains (snapshot_ids w) mid && any holds_on (effective_entries w user))
  unfolding perm_scope_minions
  perm_scope-any user =
      rw contains-inter (ground (arith, scope_minions_from-any (effective_entries w user)))

  -- `perm_scope_minions` extends `minions_with`: on a permission of the minion domain both list
  -- the same minions.
  pub perm_scope-minions_with :
      (user : User)
      → perm_domain perm ≡ minion
      → contains (perm_scope_minions w user perm) mid ≡ contains (minions_with w user perm) mid
  perm_scope-minions_with user dom =
      let listed = minions_with-decide w mid perm none dom user in
      let decided = decide-any w perm (some mid) none user in
      let same =
        any_congr holds_on (λ e. entry_covers w e perm (some mid) none) (effective_entries w user)
          covers in
      ground (arith, perm_scope-any user)
    where
      covers : (e : Entry) → holds_on e ≡ entry_covers w e perm (some mid) none
      covers e = unfold entry_covers in ground arith

-- `runnable_ids` is exactly the snapshot minions on which one of the three job-run classes is
-- authorized.
pub runnable_ids-decide :
    (w : World) (user : User) (mid : String)
    → contains (runnable_ids w user) mid ≡ (
        contains (snapshot_ids w) mid
        && (decide w user "job.run.read" (some mid) none
            || decide w user "job.run.change" (some mid) none
            || decide w user "job.run.state" (some mid) none))
unfolding runnable_ids
runnable_ids-decide w user mid =
    rw (contains-union, contains-union)
      (ground (
        arith,
        minions_with-decide w mid "job.run.read" none (unfold perm_domain contains in refl) user,
        minions_with-decide w mid "job.run.change" none (unfold perm_domain contains in refl) user,
        minions_with-decide w mid "job.run.state" none (unfold perm_domain contains in refl) user,
      ))

fleet_only_covers :
    (w : World) (perm : String) (asked path : Option String) (e : Entry)
    → perm_domain perm ≡ fleet
    → entry_covers w e perm asked path ≡ (has_perm e.role perm && e.kind == "fleet")
unfolding entry_covers is_ignored
fleet_only_covers w perm asked path e dom = ground arith

-- A permission of the fleet domain is authorized exactly by a fleet grant, whatever minion or path
-- is asked for.
pub fleet_domain-decide :
    (w : World) (user : User) (perm : String) (asked path : Option String)
    → perm_domain perm ≡ fleet
    → decide w user perm asked path ≡ has_fleet w user perm
unfolding decide has_fleet
fleet_domain-decide w user perm asked path dom =
    ap (λ b. if not (is_perm perm) then false else b)
      (any_congr _ _ (effective_entries w user) (λ e. fleet_only_covers w perm asked path e dom))
