-- ===== src/Login/Provision.antt =====
-- overstate_ui/auth.py: `provision_oidc_user`, which finds or makes the account of an OIDC subject. The
-- columns `oidc_issuer` and `oidc_sub` of the users are a table of their own here. The database refuses
-- a subject that is no text, a text that is longer than its column and a second row with a key.
pub mod Linked
pub mod Unmerged
pub mod Roles
mod Examples
use overstate.Text.Words.{first_chars}
use overstate.Prelude.{
  Bool, List, Option, String, [], any, if◌then◌else◌, keep, ltb, map, none, not, some, suc, false,
  zero, ℕ, ◌&&◌, ◌++◌, ◌+◌, ◌<>◌, ◌==◌, ◌=?◌, ◌||◌, ◌∷◌,
}
use overstate.Json.{Fields, Json, arr, elements, end, field, get, obj, str, to_str, truthy}
use overstate.Store.{User, UserIdpGroup, World, setting_row}
use overstate.Authz.Flags.{scoped_mode}
use overstate.Authz.Memo.{Memo}
use overstate.Authz.RoleCache.{refresh_role_cache, set_role, Refreshed}
use overstate.Users.Accounts.{text_length}
use overstate.Login.{role_for_groups}

pub record Identity : Type 0 where
  pub user_id : ℕ
  pub oidc_issuer : String
  pub oidc_sub : String

pub record Directory : Type 0 where
  pub world : World
  pub identities : List Identity

-- The account, the ValueError that the login reports, or an error that ends the request.
pub data Provisioned : Type 0 where
  provisioned : User → Directory → Memo → Provisioned
  no_subject : Provisioned
  broken : Provisioned

-- `get_setting` of a key with a fallback in the configuration
abbrev option_or : String → Option String → String
option_or other none = other
option_or other (some s) = s

unfoldable pub oidc_setting : World → String → String → String
oidc_setting w key env = option_or (w.config env) (setting_row w.settings key)

abbrev pub groups_claim : World → String
groups_claim w =
    let claim = oidc_setting w "oidc_groups_claim" "OIDC_GROUPS_CLAIM" in
    if claim == "" then "groups" else claim

-- `filter_by(oidc_issuer=issuer, oidc_sub=sub).first()`
abbrev pub is_linked : List Identity → String → String → User → Bool
is_linked ids issuer sub u =
    any (λ i. i.user_id =? u.id && i.oidc_issuer == issuer && i.oidc_sub == sub) ids

unfoldable pub find_linked : List Identity → String → String → List User → Option User
find_linked ids issuer sub [] = none
find_linked ids issuer sub (u ∷ us) =
    let rest = find_linked ids issuer sub us in if is_linked ids issuer sub u then some u else rest

unfoldable pub is_name_taken : List User → String → Bool
is_name_taken us name = any (λ u. u.username == name) us

-- The text that the slices cut, none where they or the query raise.
abbrev text_only : Json → Option String
text_only (str s) = some s
text_only _ = none

-- `userinfo.get("preferred_username") or userinfo.get("email") or sub`
unfoldable pub base_name : Fields → String → Option String
base_name claims sub =
    let preferred = get "preferred_username" claims in
    let email = get "email" claims in
    if truthy preferred
    then text_only preferred
    else if truthy email
    then text_only email
    else some sub

unfoldable pub username_for : List User → String → String → String
unfolding first_chars
username_for us base sub =
    let username = first_chars 64 base in
    if is_name_taken us username
    then first_chars 55 base <> ("#" <> first_chars 8 sub)
    else username

abbrev pub oidc_user : ℕ → String → User
oidc_user id username = record { id = id; username = username; role = "viewer"; kind = "human" }

-- The flush of a new user, none where a constraint refuses it.
unfoldable pub insert_user : Directory → String → String → String → Option (User × Directory)
unfolding text_length
insert_user d issuer sub username =
    let w = d.world in
    let user = oidc_user w.next_user_id username in
    if is_name_taken w.users username || ltb 255 (text_length sub) || ltb 255 (text_length issuer)
    then none
    else some (
      user,
      record {
        world = record w { users = w.users ++ user ∷ []; next_user_id = w.next_user_id + 1 };
        identities =
            d.identities ++ record { user_id = user.id; oidc_issuer = issuer; oidc_sub = sub } ∷ [];
      },
    )

abbrev pub named_user : Directory → String → String → Option String → Option (User × Directory)
named_user d issuer sub none = none
named_user d issuer sub (some base) = insert_user d issuer sub (username_for d.world.users base sub)

-- The account of the subject and the rows with it.
abbrev pub account_of :
    Directory → Fields → String → String → Option User → Option (User × Directory)
account_of d claims issuer sub (some user) = some (user, d)
account_of d claims issuer sub none = named_user d issuer sub (base_name claims sub)

-- The names that `_record_claim_groups` writes.
abbrev claim_texts : (Json → String) → Json → List String
claim_texts show (str s) = if s == "" then [] else s ∷ []
claim_texts show (arr vs) = map (to_str show) (keep truthy (elements vs))
claim_texts show _ = []

unfoldable pub claimed_groups : (Json → String) → Json → List String
unfolding first_chars
claimed_groups show claim = map (first_chars 255) (claim_texts show claim)

unfoldable pub has_repeat : List String → Bool
has_repeat [] = false
has_repeat (x ∷ xs) = any (λ y. y == x) xs || has_repeat xs

-- `_record_claim_groups` and its flush, none where two rows have one key
unfoldable pub record_claim_groups : World → ℕ → Json → Option World
record_claim_groups w uid claim =
    let names = claimed_groups w.show claim in
    let others = keep (λ (m : UserIdpGroup). not (m.user_id =? uid)) w.user_idp_groups in
    if has_repeat names
    then none
    else some (record w {
      user_idp_groups = others ++ map (λ name. record { user_id = uid; group_name = name }) names;
    })

-- `set(groups or [])` of a decoded value, none where it raises; only texts can be names of groups.
unfoldable pub characters : String → List String
characters String.[] = []
characters (String.◌∷◌ c s) = String.◌∷◌ c "" ∷ characters s

unfoldable pub field_names : Fields → List String
field_names end = []
field_names (field k v fs) = k ∷ field_names fs

abbrev add_text : String → Option (List String) → Option (List String)
add_text s none = none
add_text s (some xs) = some (s ∷ xs)

unfoldable pub hashed : List Json → Option (List String)
hashed [] = some []
hashed (str s ∷ vs) = add_text s (hashed vs)
hashed (arr xs ∷ vs) = none
hashed (obj fs ∷ vs) = none
hashed (v ∷ vs) = hashed vs

abbrev iterated : Json → Option (List String)
iterated (str s) = some (characters s)
iterated (arr vs) = hashed (elements vs)
iterated (obj fs) = some (field_names fs)
iterated _ = none

unfoldable pub claim_members : Json → Option (List String)
claim_members claim = if truthy claim then iterated claim else some []

abbrev pub with_refresh : List Identity → Refreshed → Provisioned
with_refresh ids r = provisioned r.user (record { world = r.world; identities = ids }) r.memo

abbrev pub refreshed_login : List Identity → User → Memo → Option World → Provisioned
refreshed_login ids user m none = broken
refreshed_login ids user m (some w) = with_refresh ids (refresh_role_cache w user m)

unfoldable pub scoped_login : Directory → User → Memo → Json → Provisioned
scoped_login d user m claim =
    refreshed_login d.identities user m (record_claim_groups d.world user.id claim)

abbrev pub legacy_recorded : List Identity → User → Memo → Option World → Provisioned
legacy_recorded ids user m none = broken
legacy_recorded ids user m (some w) = provisioned user (record { world = w; identities = ids }) m

abbrev pub legacy_role : World → List String → String
legacy_role w groups =
    role_for_groups groups (oidc_setting w "oidc_admin_groups" "OIDC_ADMIN_GROUPS")
      (oidc_setting w "oidc_operator_groups" "OIDC_OPERATOR_GROUPS")

abbrev pub legacy_members : Directory → User → Memo → Json → Option (List String) → Provisioned
legacy_members d user m claim none = broken
legacy_members d user m claim (some groups) =
    let role = legacy_role d.world groups in
    legacy_recorded d.identities (record user { role = role }) m
      (record_claim_groups (record d.world { users = set_role user.id role d.world.users }) user.id
        claim)

unfoldable pub legacy_login : Directory → User → Memo → Json → Provisioned
legacy_login d user m claim = legacy_members d user m claim (claim_members claim)

abbrev pub with_account : Fields → Memo → Option (User × Directory) → Provisioned
with_account claims m none = broken
with_account claims m (some (user, d)) =
    let claim = get (groups_claim d.world) claims in
    if scoped_mode d.world then scoped_login d user m claim else legacy_login d user m claim

abbrev pub with_subject : Directory → Fields → String → Memo → Json → Provisioned
with_subject d claims issuer m (str sub) =
    with_account claims m
      (account_of d claims issuer sub (find_linked d.identities issuer sub d.world.users))
with_subject d claims issuer m _ = broken

-- `provision_oidc_user`; a request of a login has no memo before it.
unfoldable pub provision_oidc_user : Directory → Fields → String → Memo → Provisioned
provision_oidc_user d claims issuer m =
    let sub = get "sub" claims in
    if truthy sub then with_subject d claims issuer m sub else no_subject
