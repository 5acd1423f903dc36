-- ===== src/Authz/Examples/Decisions.antt =====
-- Decisions and gates on the sample fleet.
use overstate.Prelude.{All, [], false, none, not, refl, some, true, ◌&&◌, ◌||◌, ◌≡◌}
use overstate.Authz.Examples.{runs, fresh}
use overstate.Authz.Catalog.{perm_domain, fleet, minion}
use overstate.Authz.Decide.{decide, has_fleet, minions_with}
use overstate.Authz.Entries.{effective_entries}
use overstate.Authz.Flags.{scoped_mode}
use overstate.Authz.Gates.{audit_deny, require}
use overstate.Authz.Gates.Decisions.{Settled, require-decide}
use overstate.Authz.Grains.{snapshot_grain_keys}
use overstate.Authz.Grains.Snapshot.{SameGrains}
use overstate.Authz.Memo.{authorize}
use overstate.Authz.Memo.Coherence.{IsCurrent, user_role, IsCoherent, authorize-decide}
use overstate.Json.{Fields, get, field, str, end}
use overstate.Sets.{contains, All-contains}
use overstate.Store.{setting_row}
use overstate.Text.{strip}
use overstate.Authz.Sample.{site, boss, editor, guest, lead, no_memo}
use overstate.Authz.Decide.Agreement.{minions_with-decide}
use overstate.Authz.Scopes.{snapshot_ids}

lead_on_web : decide site lead "job.run.change" (some "web-1") none ≡ true
unfolding runs
lead_on_web = refl

lead_on_db : decide site lead "job.run.change" (some "db-1") none ≡ false
unfolding runs
lead_on_db = refl

lead_now : IsCurrent site lead
lead_now = record { role = unfold user_role in refl }

editor_now : IsCurrent site editor
editor_now = record { role = unfold user_role in refl }

guest_now : IsCurrent site guest
guest_now = record { role = unfold user_role in refl }

authorize-decide_example :
    ((authorize site lead "job.read" (some "web-1") none no_memo).0
      ≡ decide site lead "job.read" (some "web-1") none)
    × IsCoherent site (authorize site lead "job.read" (some "web-1") none no_memo).1
authorize-decide_example =
    authorize-decide site lead lead_now "job.read" (some "web-1") none no_memo fresh

minion_perm : perm_domain "job.read" ≡ minion
unfolding runs
minion_perm = refl

minions_with-decide_example :
    contains (minions_with site lead "job.read") "web-2"
    ≡ (contains (snapshot_ids site) "web-2" && decide site lead "job.read" (some "web-2") none)
minions_with-decide_example = minions_with-decide site "web-2" "job.read" none minion_perm lead

require-decide_example :
    Settled site
      (audit_deny lead "job.read" (some "db-1") "no-grant" none site)
      (not (scoped_mode site) || decide site lead "job.read" (some "db-1") none)
      (require site lead "job.read" (some "db-1") none "no-grant" no_memo)
require-decide_example =
    require-decide site lead lead_now "job.read" (some "db-1") none "no-grant" no_memo fresh

boss_fleet : has_fleet site boss "settings.write" ≡ true
unfolding runs
boss_fleet = refl

guest_empty : effective_entries site guest ≡ []
unfolding runs
guest_empty = refl

fleet_perm : perm_domain "settings.write" ≡ fleet
unfolding runs
fleet_perm = refl

abbrev plain : Fields
plain = field "os" (str "Debian") end

abbrev secret : Fields
secret = field "secret" (str "x") (field "os" (str "Debian") end)

same_value : All (λ key. get key plain ≡ get key secret) snapshot_grain_keys
unfolding get
same_value = (
  refl,
  (refl, (refl, (refl, (refl, (refl, (refl, (refl, (refl, (refl, (refl, (refl, tt))))))))))),
)

same_grains : SameGrains plain secret
same_grains key known =
    All-contains (λ key. get key plain ≡ get key secret) snapshot_grain_keys key same_value known

blank_row : setting_row site.settings "rbac_role_fallback" ≡ some " "
unfolding runs
blank_row = refl

blank_value : strip " " ≡ ""
unfolding runs
blank_value = refl
