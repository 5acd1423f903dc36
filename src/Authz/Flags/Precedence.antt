-- ===== src/Authz/Flags/Precedence.antt =====
-- overstate_ui/authz.py: how `rbac_flag` resolves a flag.
use overstate.Prelude.{String, [], false, some, ◌==◌, ◌≡◌, arith, eq_iff}
use overstate.Text.{strip}
use overstate.Store.{World, setting_row}
use overstate.Authz.Flags.{rbac_flag}

-- A row whose value is blank counts as no row, and a flag with a non-blank default is never blank.
pub rbac_flag-blank :
    (w : World) (key env_name default value : String)
    → setting_row w.settings key ≡ some value
    → strip value ≡ ""
    → (default == "") ≡ false
    → (rbac_flag w key env_name default
        ≡ rbac_flag (record w { settings = [] }) key env_name default)
      × ((rbac_flag w key env_name default == "") ≡ false)
unfolding rbac_flag setting_row
rbac_flag-blank w key env_name default value row blank d =
    (ground (arith, eq_iff (strip value) ""), ground (arith, eq_iff (strip value) ""))
