-- ===== src/Login/Provision/Examples.antt =====
-- Logins of OIDC subjects on the sample fleet.
use overstate.Text.Words.{first_chars}
use overstate.Prelude.{[], true, refl, ◌∷◌, ◌≡◌}
use overstate.Json.{Fields, arr, cons, end, field, nil, str}
use overstate.Store.{setting_row}
use overstate.Authz.Examples.{runs}
use overstate.Authz.Memo.{Memo}
use overstate.Authz.Flags.{scoped_mode}
use overstate.Authz.Sample.{no_memo, site}
use overstate.Users.Accounts.{text_length}
use overstate.Login.{role_for_groups}
use overstate.Login.Provision.{
  Directory, base_name, characters, claim_members, claimed_groups, field_names, find_linked,
  has_repeat, hashed, insert_user, is_name_taken, legacy_login, oidc_setting, provision_oidc_user,
  provisioned, record_claim_groups, scoped_login, username_for,
}
use overstate.Login.Provision.Unmerged.{Unmerged, provision-Unmerged}
use overstate.Login.Provision.Roles.{Cached, IsLegacy, Viewer, provision-Cached, provision-Viewer}

unfoldable oidc_runs : Unit {0}
unfolding runs base_name characters claim_members claimed_groups field_names find_linked first_chars
    has_repeat hashed insert_user is_name_taken legacy_login oidc_setting provision_oidc_user
    record_claim_groups scoped_login username_for text_length role_for_groups setting_row
oidc_runs = tt

abbrev mapped : Directory
mapped = record {
  world = record site {
    mappings =
        record {
          idp_group = "ops";
          role = "operator";
          scope_kind = "fleet";
          scope_value = "*";
          origin = "manual";
        }
        ∷ [];
  };
  identities = [];
}

abbrev claims : Fields
claims =
    field "sub" (str "s-1")
      (field "preferred_username" (str "lead") (field "groups" (arr (cons (str "ops") nil)) end))

-- The local account `lead` stays what it is; the login gets another name and the mapped role.
second_lead :
    (d : Directory) × (m : Memo) × (provision_oidc_user mapped claims "https://id" no_memo
      ≡ provisioned
          (record { id = 6; username = "lead#s-1"; role = "operator"; kind = "human" })
          d
          m)
unfolding oidc_runs
second_lead = (_, _, refl)

provision-Unmerged_example :
    Unmerged mapped claims "https://id" (provision_oidc_user mapped claims "https://id" no_memo)
provision-Unmerged_example = provision-Unmerged mapped claims "https://id" no_memo

mapped_scoped : scoped_mode mapped.world ≡ true
unfolding runs
mapped_scoped = refl

provision-Cached_example : Cached claims (provision_oidc_user mapped claims "https://id" no_memo)
provision-Cached_example = provision-Cached claims mapped "https://id" mapped_scoped

abbrev one_text : Fields
one_text = field "sub" (str "s-2") (field "groups" (str "root") end)

abbrev old : Directory
old = record {
  world = record site {
    settings = ("oidc_admin_groups", "root, ops") ∷ ("oidc_operator_groups", "dev") ∷ [];
  };
  identities = [];
}

old-IsLegacy : IsLegacy one_text "root" old.world
unfolding oidc_runs
old-IsLegacy = record {
  legacy = refl;
  claim = refl;
  admins = (refl, (refl, tt));
  operators = (refl, tt);
}

provision-Viewer_example :
    Viewer one_text "root" (provision_oidc_user old one_text "https://id" no_memo)
provision-Viewer_example =
    provision-Viewer one_text "root" old "https://id" no_memo refl old-IsLegacy

-- A member of the admin group of the settings gets the role of a viewer.
root_is_viewer :
    (d : Directory) × (m : Memo) × (provision_oidc_user old one_text "https://id" no_memo
      ≡ provisioned (record { id = 6; username = "s-2"; role = "viewer"; kind = "human" }) d m)
unfolding oidc_runs
root_is_viewer = (_, _, refl)
