-- ===== src/Login/Examples.antt =====
-- Login attempts and group claims, and the theorems at concrete data.
use overstate.Prelude.{
  List, String, [], arith, false, none, refl, some, true, ℕ, ◌==◌, ◌∷◌, ◌≡◌, ◌≤◌,
}
use overstate.Authz.Examples.{runs}
use overstate.Authz.Catalog.{has_perm}
use overstate.Authz.Decide.{has_fleet}
use overstate.Batch.Split.{length}
use overstate.Login.{role_for_groups, safe_next, has_backslash}
use overstate.Login.Budget.Window.{
  IsOrdered, attempts_from, last_time, times_of, attempts-bounded, attempt,
}
use overstate.Store.{World}
use overstate.Authz.Backfill.{backfill_rbac}
use overstate.Authz.Sample.{site, guest}
use overstate.Login.Budget.{live, hits_of, set_hits, memory_limited, rate_limited, rate_reset}
use overstate.Login.Groups.{claim_names, role_for_groups-has_fleet}

logins : Unit {0}
unfolding runs role_for_groups has_backslash safe_next hits_of set_hits live memory_limited
    rate_limited rate_reset attempt attempts_from times_of last_time length
logins = tt

same_origin : safe_next (some "/jobs") ≡ some "/jobs"
unfolding logins
same_origin = refl

other_origin : safe_next (some "//evil.example") ≡ none
unfolding logins
other_origin = refl

backslash : safe_next (some "/\\evil.example") ≡ none
unfolding logins
backslash = refl

abbrev tries : List (String × ℕ)
tries = ("ip:a", 1) ∷ ("ip:a", 2) ∷ ("ip:b", 2) ∷ ("ip:a", 3) ∷ ("ip:a", 70) ∷ []

third_refused :
    (attempts_from 2 60 tries ([], [])).0
    ≡ ("ip:a", 1) ∷ ("ip:a", 2) ∷ ("ip:b", 2) ∷ ("ip:a", 70) ∷ []
unfolding logins
third_refused = refl

in_order : IsOrdered 0 tries
in_order = (omega arith, (omega arith, (omega arith, (omega arith, (omega arith, tt)))))

attempts-bounded_example :
    length (live 60 (last_time 0 tries) (times_of "ip:a" (attempts_from 2 60 tries ([], [])).0)) ≤ 2
attempts-bounded_example = attempts-bounded 2 60 0 tries "ip:a" in_order

abbrev claimed : World
claimed = record site { user_idp_groups = record { user_id = 3; group_name = "ops" } ∷ [] }

guest_rung : (role_for_groups (claim_names claimed 3) "root, ops" "dev" == "viewer") ≡ false
unfolding logins
guest_rung = refl

guest_would_write :
    has_perm (role_for_groups (claim_names claimed 3) "root, ops" "dev") "settings.write" ≡ true
unfolding logins
guest_would_write = refl

role_for_groups-has_fleet_example :
    has_fleet (backfill_rbac claimed "root, ops" "dev").world guest "settings.write" ≡ true
role_for_groups-has_fleet_example =
    role_for_groups-has_fleet claimed guest "root, ops" "dev" "settings.write" guest_rung
      guest_would_write
