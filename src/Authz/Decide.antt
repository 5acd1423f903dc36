-- ===== src/Authz/Decide.antt =====
-- overstate_ui/authz.py: the decisions over a user's effective entries.
pub mod Agreement
use overstate.Prelude.{
  String, Bool, true, false, not, ◌&&◌, ◌||◌, Option, none, some, List, [], ◌∷◌, ◌==◌, any,
  if◌then◌else◌,
}
use overstate.Text.{under_prefix}
use overstate.Sets.{contains, union, inter}
use overstate.Store.{World, User}
use overstate.Authz.Catalog.{
  has_perm, is_perm, is_fleet_only, Domain, fleet, delegate, prefix, minion, perm_domain,
}
use overstate.Authz.Scopes.{snapshot_ids, resolve_scope}
use overstate.Authz.Entries.{Entry, effective_entries}

-- `role in FLEET_ONLY_ROLES and scope_kind != "fleet"`
unfoldable pub is_ignored : Entry → Bool
is_ignored e = is_fleet_only e.role && not (e.kind == "fleet")

unfoldable pub covers_prefix : Entry → Option String → Bool
covers_prefix e asked =
    if e.kind == "fleet"
    then true
    else if not (e.kind == "prefix") || e.value == ""
    then false
    else elim asked [ none ↦ true | some path ↦ under_prefix path e.value ]

unfoldable pub covers_minion : World → Entry → Option String → Bool
covers_minion w e asked =
    if e.kind == "fleet"
    then true
    else if e.kind == "prefix"
    then false
    else elim asked [ none ↦ true | some mid ↦ contains (resolve_scope w e.kind e.value) mid ]

abbrev covers_domain : World → Entry → Domain → Option String → Option String → Bool
covers_domain w e fleet asked path = e.kind == "fleet"
covers_domain w e delegate asked path = true
covers_domain w e prefix asked path = covers_prefix e path
covers_domain w e minion asked path = covers_minion w e asked

-- `_entry_covers`
unfoldable pub entry_covers : World → Entry → String → Option String → Option String → Bool
entry_covers w e perm asked path =
    if not (has_perm e.role perm)
    then false
    else if is_ignored e
    then false
    else covers_domain w e (perm_domain perm) asked path

-- `authorize` as the rows decide it, without the memo on `flask.g`.
unfoldable pub decide : World → User → String → Option String → Option String → Bool
decide w user perm asked path =
    if not (is_perm perm)
    then false
    else any (λ e. entry_covers w e perm asked path) (effective_entries w user)

unfoldable pub has_fleet : World → User → String → Bool
has_fleet w user perm =
    if not (is_perm perm)
    then false
    else any (λ e. has_perm e.role perm && e.kind == "fleet") (effective_entries w user)

-- What one entry adds to `minions_with`.
unfoldable pub entry_minions : World → Entry → List String
entry_minions w e =
    if e.kind == "fleet"
    then snapshot_ids w
    else if e.kind == "prefix"
    then []
    else resolve_scope w e.kind e.value

abbrev is_minion : Domain → Bool
is_minion minion = true
is_minion _ = false

unfoldable pub minions_from : World → String → List Entry → List String
minions_from w perm [] = []
minions_from w perm (e ∷ es) =
    let rest = minions_from w perm es in
    if not (has_perm e.role perm) || is_ignored e || not (is_minion (perm_domain perm))
    then rest
    else union (entry_minions w e) rest

unfoldable pub minions_with : World → User → String → List String
minions_with w user perm = minions_from w perm (effective_entries w user)

unfoldable pub scope_minions_from : World → String → List Entry → List String
scope_minions_from w perm [] = []
scope_minions_from w perm (e ∷ es) =
    let rest = scope_minions_from w perm es in
    if not (has_perm e.role perm) || is_ignored e then rest else union (entry_minions w e) rest

unfoldable pub perm_scope_minions : World → User → String → List String
perm_scope_minions w user perm =
    inter (scope_minions_from w perm (effective_entries w user)) (snapshot_ids w)

unfoldable pub runnable_ids : World → User → List String
runnable_ids w user =
    union (minions_with w user "job.run.read")
      (union (minions_with w user "job.run.change") (minions_with w user "job.run.state"))
