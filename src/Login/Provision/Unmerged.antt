-- ===== src/Login/Provision/Unmerged.antt =====
-- overstate_ui/auth.py: which account a login gets, and what it leaves of the others.
use text.Mathlib.TextLemmas.{nil-append, cons-append}
use overstate.Text.Words.{first_chars}
use overstate.Prelude.{
  Among, All, ◌==◌, List, Option, String, [], none, some, false, suc, zero, ℕ, ◌∷◌, ◌++◌, ◌+◌, ◌≡◌,
  ◌∙◌, ◌⊎◌, ◌<>◌, ◌=?◌, ◌≤◌, ◌||◌, ltb, inl, inr, refl, ap, arith, if-both, Bool-cases,
  if◌then◌else◌,
}
use overstate.Json.{Fields, Json, arr, bool, get, null, num, obj, str, truthy}
use overstate.Store.{User}
use overstate.Authz.Flags.{scoped_mode}
use overstate.Authz.Memo.{Memo}
use overstate.Authz.RoleCache.{refresh_role_cache, set_role}
use overstate.Users.Accounts.{text_length}
use overstate.Login.Provision.Linked.{
  Carries, NobodyCarries, found-Carries, missing-NobodyCarries, free_name,
}
use overstate.Login.Provision.{
  Identity, Directory, Provisioned, account_of, base_name, broken, claim_members, find_linked,
  first_chars, insert_user, is_name_taken, legacy_login, legacy_members, named_user, no_subject,
  provision_oidc_user, provisioned, record_claim_groups, scoped_login, username_for, with_account,
  with_subject, oidc_user, has_repeat, claimed_groups,
}

-- The rows of the other users.
unfoldable pub others : ℕ → List User → List User
others uid [] = []
others uid (u ∷ us) = let rest = others uid us in if u.id =? uid then rest else u ∷ rest

pub others-set_role :
    (uid : ℕ) (role : String) (us : List User) → others uid (set_role uid role us) ≡ others uid us
unfolding set_role others
others-set_role uid role [] = refl
others-set_role uid role (u ∷ us) = ground (arith, others-set_role uid role us)

others-added : (u : User) (us : List User) → others u.id (us ++ u ∷ []) ≡ others u.id us
unfolding others
others-added u [] = ground arith
others-added u (v ∷ us) = ground (arith, others-added u us)

text_length-append : (s t : String) → text_length (s <> t) ≡ text_length s + text_length t
unfolding text_length
text_length-append String.[] t = ap text_length (nil-append t) ∙ omega arith
text_length-append (String.◌∷◌ c s) t =
    let rest = text_length-append s t in ap text_length (cons-append c s t) ∙ omega arith

text_length-first_chars : (n : ℕ) (s : String) → text_length (first_chars n s) ≤ n
unfolding text_length first_chars
text_length-first_chars zero s = omega arith
text_length-first_chars (suc n) String.[] = omega arith
text_length-first_chars (suc n) (String.◌∷◌ c s) =
    let rest = text_length-first_chars n s in omega arith

username-fits : (us : List User) (base sub : String) → text_length (username_for us base sub) ≤ 64
unfolding username_for text_length
username-fits us base sub =
    if-both (λ name. text_length name ≤ 64) (is_name_taken us (first_chars 64 base)) _ _
      (λ _.
        let whole = text_length-append (first_chars 55 base) ("#" <> first_chars 8 sub) in
        let tail = text_length-append "#" (first_chars 8 sub) in
        let a = text_length-first_chars 55 base in
        let b = text_length-first_chars 8 sub in omega arith)
      (λ _. text_length-first_chars 64 base)

module _ (d : Directory) (claims : Fields) (issuer : String) where
  -- The account that carries the subject, with the identities as they are, or a new one under a name
  -- that nobody had, with its identity added, where nobody carries the subject.
  abbrev pub Origin : String → User → List Identity → Type 0
  Origin sub u ids =
      ((v : User) × Among d.world.users v
        × ((i : Identity) × Among d.identities i × Carries issuer sub v i)
        × (u.id ≡ v.id)
        × (u.username ≡ v.username)
        × (ids ≡ d.identities))
      ⊎ (NobodyCarries d.identities issuer sub d.world.users
          × (u.id ≡ d.world.next_user_id)
          × All (λ v. (v.username == u.username) ≡ false) d.world.users
          × (text_length u.username ≤ 64)
          × (ids
              ≡ d.identities
                ++ record { user_id = u.id; oidc_issuer = issuer; oidc_sub = sub } ∷ []))

  abbrev Accounted : String → Option (User × Directory) → Type 0
  Accounted sub none = Unit {0}
  Accounted sub (some (u, e)) =
      (others u.id e.world.users ≡ others u.id d.world.users) × Origin sub u e.identities

  named-Accounted :
      (sub : String) (base : Option String)
      → find_linked d.identities issuer sub d.world.users ≡ none
      → Accounted sub (named_user d issuer sub base)
  unfolding insert_user
  named-Accounted sub none e = tt
  named-Accounted sub (some base) e =
      let us = d.world.users in
      let name = username_for us base sub in
      if-both (Accounted sub)
        (is_name_taken us name || ltb 255 (text_length sub) || ltb 255 (text_length issuer)) _ _
        (λ _. tt)
        (λ fits. (
          others-added (oidc_user d.world.next_user_id name) us,
          inr (
            missing-NobodyCarries d.identities issuer sub us e,
            refl,
            free_name us name (ground arith),
            username-fits us base sub,
            refl,
          ),
        ))

  account-Accounted :
      (sub : String) (found : Option User)
      → find_linked d.identities issuer sub d.world.users ≡ found
      → Accounted sub (account_of d claims issuer sub found)
  account-Accounted sub none e = named-Accounted sub (base_name claims sub) e
  account-Accounted sub (some v) e =
      let found = found-Carries d.identities issuer sub d.world.users v e in
      (refl, inl (v, found.0, (found.1, found.2, found.3), refl, refl, refl))

  -- What a login leaves, where it gives an account.
  abbrev pub Unmerged : Provisioned → Type 0
  Unmerged (provisioned u e m) =
      (sub : String) × (get "sub" claims ≡ str sub)
      × (others u.id e.world.users ≡ others u.id d.world.users)
      × Origin sub u e.identities
  Unmerged no_subject = Unit {0}
  Unmerged broken = Unit {0}

  module _ (sub : String) (subject : get "sub" claims ≡ str sub) (u : User) (e : Directory)
      (kept : others u.id e.world.users ≡ others u.id d.world.users)
      (origin : Origin sub u e.identities) where
    scoped-Unmerged : (m : Memo) (claim : Json) → Unmerged (scoped_login e u m claim)
    unfolding scoped_login record_claim_groups refresh_role_cache
    scoped-Unmerged m claim = elim (Bool-cases (has_repeat (claimed_groups e.world.show claim))) [
      | inl twice ↦ rw twice tt
      | inr once ↦ rw once (sub, subject, others-set_role u.id _ e.world.users ∙ kept, origin)
    ]

    members-Unmerged :
        (m : Memo) (claim : Json) (groups : Option (List String))
        → Unmerged (legacy_members e u m claim groups)
    unfolding record_claim_groups
    members-Unmerged m claim none = tt
    members-Unmerged m claim (some groups) =
        elim (Bool-cases (has_repeat (claimed_groups e.world.show claim))) [
          | inl twice ↦ rw twice tt
          | inr once ↦ rw once (sub, subject, others-set_role u.id _ e.world.users ∙ kept, origin)
        ]

  with-Unmerged :
      (sub : String) (m : Memo) (account : Option (User × Directory))
      → get "sub" claims ≡ str sub
      → Accounted sub account
      → Unmerged (with_account claims m account)
  unfolding legacy_login
  with-Unmerged sub m none subject a = tt
  with-Unmerged sub m (some (u, e)) subject (kept, origin) =
      if-both Unmerged (scoped_mode e.world) _ _
        (λ _. scoped-Unmerged sub subject u e kept origin m _)
        (λ _. members-Unmerged sub subject u e kept origin m _ (claim_members _))

  subject-Unmerged :
      (m : Memo) (sub : Json)
      → get "sub" claims ≡ sub
      → Unmerged (with_subject d claims issuer m sub)
  subject-Unmerged m (str sub) e = with-Unmerged sub m _ e (account-Accounted sub _ refl)
  subject-Unmerged m null e = tt
  subject-Unmerged m (bool b) e = tt
  subject-Unmerged m (num text) e = tt
  subject-Unmerged m (arr vs) e = tt
  subject-Unmerged m (obj fs) e = tt

  -- A login takes over no account: it gives a user whose row carries both the issuer and the subject of
  -- the claims, or, where no row carries both, a new account under a name of at most 64 characters that
  -- no user had, with the two as its identity. The rows of all other users and all other identities are
  -- as they were, whatever names the claims carry.
  pub provision-Unmerged : (m : Memo) → Unmerged (provision_oidc_user d claims issuer m)
  unfolding provision_oidc_user
  provision-Unmerged m =
      if-both Unmerged (truthy (get "sub" claims)) _ _
        (λ _. subject-Unmerged m (get "sub" claims) refl) (λ _. tt)
