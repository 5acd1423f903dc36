-- ===== src/Login.antt =====
-- overstate_ui/auth.py: the pure parts of the login, the role of a group claim, the budget of login
-- attempts and the target after a login.
pub mod Budget
pub mod Groups
pub mod Provision
mod Examples
use Prim.Native.Char.{code}
use overstate.Prelude.{
  Bool, List, Option, String, [], false, if◌then◌else◌, none, not, some, starts_with, ◌==◌, ◌=?◌,
  ◌||◌, ◌∷◌,
}
use overstate.Sets.{from_list, is_empty, inter}
use overstate.Text.Lists.{csv_set}

-- `role_for_groups`; the last two arguments are the settings `oidc_admin_groups` and
-- `oidc_operator_groups`.
unfoldable pub role_for_groups : List String → String → String → String
role_for_groups groups admin_groups operator_groups =
    let membership = from_list groups in
    if not (is_empty (inter membership (csv_set admin_groups)))
    then "admin"
    else if not (is_empty (inter membership (csv_set operator_groups)))
    then "operator"
    else "viewer"

unfoldable pub has_backslash : String → Bool
has_backslash String.[] = false
has_backslash (String.◌∷◌ c s) = code c =? 92 || has_backslash s

-- `_safe_next`
unfoldable pub safe_next : Option String → Option String
safe_next none = none
safe_next (some value) =
    if value == "" || not (starts_with value "/") || starts_with value "//"
    then none
    else if starts_with value "/\\" || has_backslash value
    then none
    else some value
