-- ===== src/Login/Provision/Roles.antt =====
-- overstate_ui/auth.py: the role that a login leaves, in both modes.
use overstate.Prelude.{
  ◌||◌, ltb, All, List, Option, String, [], none, not, some, true, false, ℕ, ◌∷◌, ◌++◌, ◌≡◌, ◌∙◌,
  ◌==◌, ◌=?◌, refl, sym, ap, keep, map, arith, if-both, Bool-cases, inl, inr,
}
use overstate.Json.{Fields, Json, arr, bool, get, null, num, obj, str, truthy}
use overstate.Sets.{is_empty, inter, from_list, contains-inter, contains-from_list, All-contains}
use overstate.Store.{User, UserIdpGroup, World}
use overstate.Text.Lists.{csv_set}
use overstate.Authz.Entries.{grant_entries, user_grants, group_grants, user_mappings}
use overstate.Authz.Flags.{scoped_mode, rbac_flag}
use overstate.Authz.Memo.{Memo}
use overstate.Authz.Memo.Coherence.{IsCoherent-empty}
use overstate.Authz.RoleCache.{cached_role, refresh_role_cache}
use overstate.Authz.RoleCache.Refresh.{refresh-role}
use overstate.Users.Accounts.{text_length}
use overstate.Login.{role_for_groups}
use overstate.Login.Groups.{claim_names, some_element}
use overstate.Login.Provision.{
  Directory, Provisioned, account_of, base_name, broken, characters, claim_members, claimed_groups,
  groups_claim, has_repeat, insert_user, legacy_login, legacy_role, named_user, no_subject,
  oidc_setting, provision_oidc_user, provisioned, record_claim_groups, scoped_login, with_account,
  with_subject, username_for, is_name_taken,
}

abbrev row_of : ℕ → String → UserIdpGroup
row_of uid name = record { user_id = uid; group_name = name }

others_gone :
    (uid : ℕ) (rows xs : List UserIdpGroup)
    → keep (λ m. m.user_id =? uid) (keep (λ m. not (m.user_id =? uid)) rows ++ xs)
      ≡ keep (λ m. m.user_id =? uid) xs
unfolding keep
others_gone uid [] xs = refl
others_gone uid (r ∷ rows) xs =
    let rest = others_gone uid rows xs in
    elim (Bool-cases (r.user_id =? uid)) [
      | inl own ↦ rw own rest
      | inr other ↦ rw (other, other) rest
    ]

names_kept :
    (uid : ℕ) (names : List String)
    → map
        (λ (m : UserIdpGroup). m.group_name)
        (keep (λ m. m.user_id =? uid) (map (row_of uid) names))
      ≡ names
unfolding keep
names_kept uid [] = refl
names_kept uid (n ∷ names) =
    let rest = names_kept uid names in
    let own : (uid =? uid) ≡ true = ground arith in rw own (ap (λ ns. n ∷ ns) rest)

abbrev fresh : Memo
fresh = record { grant_entries = none; authz_cache = none }

-- A property of the database that an account comes with.
abbrev OnWorld : (World → Type 0) → Option (User × Directory) → Type 0
OnWorld P none = Unit {0}
OnWorld P (some (u, e)) = P e.world

module _ (d : Directory) (claims : Fields) (issuer : String) (m : Memo) (Q : Provisioned → Type 0)
    (missing : Q no_subject) (failed : Q broken) (P : World → Type 0)
    (login : (account : Option (User × Directory))
      → OnWorld P account
      → Q (with_account claims m account))
    (before : P d.world)
    (added : (us : List User) (n : ℕ) → P (record d.world { users = us; next_user_id = n })) where
  named-OnWorld : (sub : String) (base : Option String) → OnWorld P (named_user d issuer sub base)
  unfolding insert_user
  named-OnWorld sub none = tt
  named-OnWorld sub (some base) =
      let us = d.world.users in
      let name = username_for us base sub in
      if-both (OnWorld P)
        (is_name_taken us name || ltb 255 (text_length sub) || ltb 255 (text_length issuer)) _ _
        (λ _. tt) (λ _. added _ _)

  account-OnWorld :
      (sub : String) (found : Option User) → OnWorld P (account_of d claims issuer sub found)
  account-OnWorld sub (some v) = before
  account-OnWorld sub none = named-OnWorld sub (base_name claims sub)

  subject-any : (sub : Json) → Q (with_subject d claims issuer m sub)
  subject-any (str sub) = login _ (account-OnWorld sub _)
  subject-any null = failed
  subject-any (bool b) = failed
  subject-any (num text) = failed
  subject-any (arr vs) = failed
  subject-any (obj fs) = failed

  -- What holds of every login from an account's database holds of the whole view.
  provision-any : Q (provision_oidc_user d claims issuer m)
  unfolding provision_oidc_user
  provision-any =
      if-both Q (truthy (get "sub" claims)) _ _ (λ _. subject-any (get "sub" claims)) (λ _. missing)

module _ (claims : Fields) where
  -- The role is that of the grants and mappings, and the memberships are the claim's.
  abbrev pub Cached : Provisioned → Type 0
  Cached (provisioned u e m) =
      (u.role ≡ cached_role (grant_entries e.world u))
      × (claim_names e.world u.id ≡ claimed_groups e.world.show (get (groups_claim e.world) claims))
  Cached no_subject = Unit {0}
  Cached broken = Unit {0}

  scoped-Cached :
      (e : Directory) (u : User)
      → Cached (scoped_login e u fresh (get (groups_claim e.world) claims))
  unfolding scoped_login record_claim_groups refresh_role_cache oidc_setting grant_entries
      user_grants group_grants user_mappings
  scoped-Cached e u =
      let names = claimed_groups e.world.show (get (groups_claim e.world) claims) in
      elim (Bool-cases (has_repeat names)) [
        | inl twice ↦ rw twice tt
        | inr once ↦ rw once (
          refresh-role _ u fresh (IsCoherent-empty _),
          ap (map (λ (m : UserIdpGroup). m.group_name)) (others_gone u.id e.world.user_idp_groups _)
              ∙ names_kept u.id names,
        )
      ]

  with-Cached :
      (account : Option (User × Directory))
      → OnWorld (λ w. scoped_mode w ≡ true) account
      → Cached (with_account claims fresh account)
  with-Cached none s = tt
  with-Cached (some (u, e)) s = rw s (scoped-Cached e u)

  -- In scoped mode a login that gives an account gives it the role of its grants and of the mappings of
  -- its claimed groups, no viewer role of its own, and its memberships are the groups of this claim,
  -- none of an earlier one.
  pub provision-Cached :
      (d : Directory) (issuer : String)
      → scoped_mode d.world ≡ true
      → Cached (provision_oidc_user d claims issuer fresh)
  unfolding scoped_mode rbac_flag
  provision-Cached d issuer scoped =
      provision-any d claims issuer fresh Cached tt tt (λ w. scoped_mode w ≡ true) with-Cached
        scoped (λ us n. scoped)

-- No name of a setting is a single character.
abbrev pub NoneSingle : String → Type 0
NoneSingle setting = All (λ g. (text_length g =? 1) ≡ false) (csv_set setting)

characters-single : (s : String) → All (λ c. (text_length c =? 1) ≡ true) (characters s)
unfolding characters text_length
characters-single String.[] = tt
characters-single (String.◌∷◌ c s) = (refl, characters-single s)

no_overlap :
    (s setting : String)
    → NoneSingle setting
    → is_empty (inter (from_list (characters s)) (csv_set setting)) ≡ true
no_overlap s setting long =
    let xs = from_list (characters s) in
    elim (Bool-cases (is_empty (inter xs (csv_set setting)))) [
      | inl empty ↦ empty
      | inr hit ↦
          let (g, both) = some_element _ hit in
          let sides = contains-inter xs (csv_set setting) g in
          let single =
            All-contains _ (characters s) g (characters-single s)
              (sym (contains-from_list (characters s) g) ∙ ground arith) in
          let other = All-contains _ (csv_set setting) g long (ground arith) in
          absurd (ground arith)
    ]

module _ (claims : Fields) (s : String) where
  -- The role is viewer, and the text of the claim is recorded as a membership.
  abbrev pub Viewer : Provisioned → Type 0
  Viewer (provisioned u e m) =
      (u.role ≡ "viewer") × (claim_names e.world u.id ≡ claimed_groups e.world.show (str s))
  Viewer no_subject = Unit {0}
  Viewer broken = Unit {0}

  -- A database before the switch whose claim is the text, with settings of longer names.
  pub record IsLegacy (w : World) : Type 0 where
    pub legacy : scoped_mode w ≡ false
    pub claim : get (groups_claim w) claims ≡ str s
    pub admins : NoneSingle (oidc_setting w "oidc_admin_groups" "OIDC_ADMIN_GROUPS")
    pub operators : NoneSingle (oidc_setting w "oidc_operator_groups" "OIDC_OPERATOR_GROUPS")

  legacy_role-viewer : (w : World) → IsLegacy w → legacy_role w (characters s) ≡ "viewer"
  unfolding role_for_groups
  legacy_role-viewer w l =
      let a = no_overlap s (oidc_setting w "oidc_admin_groups" "OIDC_ADMIN_GROUPS") l.admins in
      let b =
        no_overlap s (oidc_setting w "oidc_operator_groups" "OIDC_OPERATOR_GROUPS") l.operators in
      rw (a, b) refl

  legacy-Viewer :
      (e : Directory) (u : User) (m : Memo)
      → (s == "") ≡ false
      → IsLegacy e.world
      → Viewer (legacy_login e u m (str s))
  unfolding legacy_login claim_members truthy record_claim_groups
  legacy-Viewer e u m written l =
      let names = claimed_groups e.world.show (str s) in
      elim (Bool-cases (has_repeat names)) [
        | inl twice ↦ rw (written, twice) tt
        | inr once ↦
            rw (written, once)
              (
                legacy_role-viewer e.world l,
                ap (map (λ (m : UserIdpGroup). m.group_name))
                      (others_gone u.id e.world.user_idp_groups _)
                    ∙ names_kept u.id names,
              )
      ]

  with-Viewer :
      (m : Memo)
      → (s == "") ≡ false
      → (account : Option (User × Directory)) → OnWorld IsLegacy account
      → Viewer (with_account claims m account)
  with-Viewer m written none l = tt
  with-Viewer m written (some (u, e)) l = rw (l.legacy, l.claim) (legacy-Viewer e u m written l)

  -- A bug: before the switch a claim that is one text, not a list, gives the viewer role, although the
  -- text is recorded as the user's group, and whatever the settings say of that group, as long as every
  -- group of the settings has a name of another length than one.
  pub provision-Viewer :
      (d : Directory) (issuer : String) (m : Memo)
      → (s == "") ≡ false
      → IsLegacy d.world
      → Viewer (provision_oidc_user d claims issuer m)
  unfolding scoped_mode rbac_flag oidc_setting
  provision-Viewer d issuer m written l =
      provision-any d claims issuer m Viewer tt tt IsLegacy (with-Viewer m written) l (λ us n.
        record { legacy = l.legacy; claim = l.claim; admins = l.admins; operators = l.operators })
