-- ===== src/Authz/Examples/Targets.antt =====
-- Published targets, functions and listings on the sample fleet.
use overstate.Prelude.{
  All, List, String, [], false, none, refl, some, true, ◌&&◌, ◌==◌, ◌∷◌, ◌≡◌, ◌⊎◌,
}
use overstate.Authz.Examples.{runs}
use overstate.Authz.Decide.{has_fleet, is_ignored, decide}
use overstate.Authz.Entries.{Entry, effective_entries}
use overstate.Authz.Functions.{may_define_schedule_fleet, publish_perm}
use overstate.Authz.Functions.Classes.{body_funs}
use overstate.Authz.Prefixes.{grants_prefix, prefix_visible, visible_prefixes}
use overstate.Authz.Targets.{
  Denied, Target, constrain_kill, constrain_target, constrain_target_verbose, denied, ok,
  published_snapshot_ids,
}
use overstate.Sets.{contains, is_empty}
use overstate.Authz.Sample.{site, boss, editor, lead, odd}
use overstate.Authz.Prefixes.Visibility.{prefix_visible-decide, unbraked_prefix_visible}
use overstate.Authz.Targets.Narrowing.{IsNarrowed, constrain_target_safe, constrain_kill_safe}
use overstate.Text.{strip, join}
use overstate.Sets.Sorting.{sorted}
use overstate.Text.Lists.RoundTrip.{no_comma, IsId}

lead_target : constrain_target site lead "job.run.change" "*" "glob" ≡ ok ("web-1,web-2", "list")
unfolding runs
lead_target = refl

boss_target : constrain_target site boss "job.run.change" "*" "glob" ≡ ok ("*", "glob")
unfolding runs
boss_target = refl

lead_kill_list : constrain_kill site lead "web-2, web-1,gone" "list" ≡ ok ("web-1,web-2", "list")
unfolding runs
lead_kill_list = refl

abbrev narrowed : Target
narrowed = record {
  tgt = "web-1,web-2";
  tgt_type = "list";
  requested = some ("web-1" ∷ "web-2" ∷ "db-1" ∷ []);
  hit = some ("web-1" ∷ "web-2" ∷ []);
}

narrowed_target : constrain_target_verbose site lead "job.run.change" "*" "glob" ≡ ok narrowed
unfolding runs
narrowed_target = refl

constrain_target_safe_example :
    ((has_fleet site lead "job.run.change" ≡ true)
      × (narrowed.tgt ≡ "*")
      × (narrowed.tgt_type ≡ "glob"))
    ⊎ IsNarrowed site lead "job.run.change" "*" "glob" narrowed
constrain_target_safe_example =
    constrain_target_safe site lead "job.run.change" "*" "glob" narrowed narrowed_target

abbrev refusal : Denied
refusal = record {
  perm = "job.run.change";
  reason = "empty intersection";
  detail = "empty-intersection";
}

refused_target : constrain_target_verbose site lead "job.run.change" "db-*" "glob" ≡ denied refusal
unfolding runs
refused_target = refl

abbrev killed : String × String
killed = ("web-1,web-2", "list")

kill_published : constrain_kill site lead "web-2, web-1,gone" "list" ≡ ok killed
unfolding runs
kill_published = refl

constrain_kill_safe_example :
    ((has_fleet site lead "job.kill" ≡ true) × (killed ≡ ("web-2, web-1,gone", "list")))
    ⊎ ((ids : List String) × (published_snapshot_ids site (some "web-2, web-1,gone") (some "list")
          ≡ some ids)
        × ((◌==◌ "list" "glob" && strip "web-2, web-1,gone" == "*") ≡ false)
        × (killed ≡ (join (sorted ids), "list"))
        × (is_empty ids ≡ false)
        × ((mid : String)
            → contains ids mid ≡ true
            → decide site lead "job.kill" (some mid) none ≡ true))
constrain_kill_safe_example =
    constrain_kill_safe site lead "web-2, web-1,gone" "list" killed kill_published

editor_prefixes : visible_prefixes site editor ≡ some ("apps" ∷ [])
unfolding runs
editor_prefixes = refl

editor_clean : All (λ e. is_ignored e ≡ false) (effective_entries site editor)
unfolding runs
editor_clean = (refl, tt)

prefix_visible-decide_example :
    prefix_visible ("apps" ∷ []) "apps/web.sls"
    ≡ decide site editor "file.read" none (some "apps/web.sls")
prefix_visible-decide_example =
    prefix_visible-decide site editor "apps/web.sls" ("apps" ∷ []) editor_prefixes editor_clean

abbrev odd_entry : Entry
odd_entry = record { role = "viewer"; kind = "prefix"; value = "apps" }

odd_only : effective_entries site odd ≡ odd_entry ∷ []
unfolding runs
odd_only = refl

odd_ignored : is_ignored odd_entry ≡ true
unfolding runs
odd_ignored = refl

odd_listed : grants_prefix odd_entry ≡ true
unfolding runs
odd_listed = refl

unbraked_prefix_visible_example :
    (prefixes : List String) × (visible_prefixes site odd ≡ some prefixes)
    × (prefix_visible prefixes "apps" ≡ true)
    × (decide site odd "file.read" none (some "apps") ≡ false)
unbraked_prefix_visible_example =
    unbraked_prefix_visible site odd odd_entry odd_only odd_ignored odd_listed

pillar_perm : publish_perm "pillar.items" ≡ some "pillar.read"
unfolding runs
pillar_perm = refl

pillar_body : contains body_funs "pillar.items" ≡ true
unfolding runs
pillar_body = refl

boss_schedules : may_define_schedule_fleet site boss "pkg.install" ≡ true
unfolding runs
boss_schedules = refl

abbrev webs : List String
webs = "web-1" ∷ "web-2" ∷ []

plain_ids : All IsId (sorted webs)
unfolding runs no_comma
plain_ids = (((refl, refl), refl), (((refl, refl), refl), tt))

some_webs : is_empty webs ≡ false
unfolding runs
some_webs = refl
