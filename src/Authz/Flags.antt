-- ===== src/Authz/Flags.antt =====
-- overstate_ui/authz.py: the two flags of the migration to scoped access control.
pub mod Precedence
use overstate.Prelude.{String, Bool, true, false, not, Option, none, some, ◌==◌, if◌then◌else◌}
use overstate.Text.{strip}
use overstate.Store.{World, setting_row}

abbrev or_environ : String → String → String
or_environ value other = if value == "" then other else value

abbrev flag_from_env : World → String → String → String
flag_from_env w env_name default =
    let configured = if w.has_app_context then w.config env_name else "" in
    let value = strip (or_environ configured (w.environ env_name)) in
    if value == "" then default else value

abbrev flag_from_row : Option String → String → String
flag_from_row none fallback = fallback
flag_from_row (some value) fallback = if strip value == "" then fallback else strip value

-- A non-blank row wins, else a non-blank environment value, else the default.
unfoldable pub rbac_flag : World → String → String → String → String
rbac_flag w key env_name default =
    flag_from_row (setting_row w.settings key) (flag_from_env w env_name default)

-- `ENFORCEMENT_COMPLETE` is True.
abbrev pub enforcement_complete : Bool
enforcement_complete = true

-- `rbac_mode() == "scoped"`
unfoldable pub scoped_mode : World → Bool
scoped_mode w =
    if not enforcement_complete
    then false
    else rbac_flag w "rbac_mode" "RBAC_MODE" "legacy" == "scoped"

unfoldable pub fallback_on : World → Bool
fallback_on w = not (rbac_flag w "rbac_role_fallback" "RBAC_ROLE_FALLBACK" "on" == "off")
