-- ===== src/FileSync/Examples.antt =====
-- Cron expressions and runs of the file sync at concrete data.
use overstate.Prelude.{[], none, some, true, false, refl, ◌∷◌, ◌≡◌, ◌++◌, ℕ, ◌=?◌, if◌then◌else◌}
use overstate.Authz.Examples.{runs}
use overstate.Authz.Sample.{site}
use overstate.Text.Words.{
  is_digit, all_digits, open_words, split_words, first_chars, digits_of, digits_text, next_digits,
  text_at, show_int,
}
use overstate.FileSync.{
  Cron, When, collect, cron_matches, due_slot, field_values, has_value, hours, item_values, matches,
  minutes, number_of, parse_cron, parsed, range, range_from, span_of, step_of, value_error, within,
  validate_file_sync_schedule,
}
use overstate.FileSync.Values.Bounded.{IsBounded, parse_cron-IsBounded}
use overstate.FileSync.Values.{Gives, IsSpanned, item_values-IsSpanned}
use overstate.FileSync.Days.{Due, due_slot-Due, matches-vixie, starred_days_ignored, vixie}
use overstate.FileSync.Runs.{
  Clock, Pull, SyncState, expression_of, get_setting, has_text, pulls, refreshes,
  run_scheduled_sync, save_status, set_setting, skipped, sync_now,
}
use overstate.FileSync.Runs.Slots.{refresh_forgotten, run_scheduled_sync-once}

unfoldable cron_runs : Unit {0}
unfolding runs collect cron_matches due_slot field_values has_value item_values matches number_of
    parse_cron range range_from span_of step_of within validate_file_sync_schedule get_setting
    has_text run_scheduled_sync save_status set_setting sync_now first_chars digits_of digits_text
    next_digits text_at show_int is_digit all_digits open_words split_words
cron_runs = tt

quarters : field_values "5-20/15,40" minutes ≡ parsed (5 ∷ 20 ∷ 40 ∷ [], false)
unfolding cron_runs
quarters = refl

too_late : field_values "24" hours ≡ value_error "hour must be between 0 and 23"
unfolding cron_runs
too_late = refl

-- The start of a stepped item is not compared with the maximum.
beyond : field_values "0,70/5" minutes ≡ parsed (0 ∷ [], false)
unfolding cron_runs
beyond = refl

stepped_range : item_values minutes "5-20/15" ≡ parsed (5 ∷ 20 ∷ [])
unfolding cron_runs
stepped_range = refl

item_values-IsSpanned_example : IsSpanned minutes "5-20/15" (5 ∷ 20 ∷ [])
item_values-IsSpanned_example = item_values-IsSpanned minutes "5-20/15" (5 ∷ 20 ∷ []) stepped_range

parse_cron-IsBounded_example : Gives IsBounded (parse_cron "0 8-17/2 1,15 * 1-5,7")
parse_cron-IsBounded_example = parse_cron-IsBounded "0 8-17/2 1,15 * 1-5,7"

-- Wednesday the second of a month, 00:00.
abbrev second : When
second = record { minute = 0; hour = 0; day = 2; month = 5; weekday = 2 }

-- Every second day begins with the first, and yet the second matches.
every_day : cron_matches "0 0 */2 * *" second ≡ parsed true
unfolding cron_runs
every_day = refl

abbrev mondays : Cron
mondays = record {
  minute = (0 ∷ [], false);
  hour = (0 ∷ [], false);
  day_of_month = (1 ∷ 2 ∷ 3 ∷ [], true);
  month = (5 ∷ [], false);
  day_of_week = (1 ∷ [], false);
}

matches-vixie_example : matches mondays second ≡ vixie mondays second
unfolding cron_runs
matches-vixie_example = matches-vixie mondays second (λ _. refl) (λ e. absurd (cc))

abbrev third : When
third = record { minute = 0; hour = 0; day = 3; month = 5; weekday = 3 }

starred_days_ignored_example : cron_matches "0 0 */2 * *" second ≡ cron_matches "0 0 */2 * *" third
unfolding cron_runs
starred_days_ignored_example =
    starred_days_ignored "0 0 */2 * *" "0" "0" "*/2" "*" "*" second third refl refl refl refl refl
      refl

abbrev calendar : ℕ → When
calendar t =
    if t =? 1440 then second else record { minute = 1; hour = 0; day = 2; month = 5; weekday = 2 }

due_slot-Due_example : Due "0 0 * * *" calendar 1441 (due_slot "0 0 * * *" calendar 1441)
due_slot-Due_example = due_slot-Due "0 0 * * *" calendar 1441

abbrev clock : ℕ → Clock
clock minute = record {
  now_text = "now";
  minute = minute;
  calendar = calendar;
  slot_text = λ t. if t =? 1440 then "midnight" else "other";
}

abbrev advanced : Pull
advanced = record {
  ok = true;
  changed = true;
  reason = none;
  old_head = some "a";
  new_head = some "b";
}

abbrev unchanged : Pull
unchanged = record {
  ok = true;
  changed = false;
  reason = none;
  old_head = some "b";
  new_head = some "b";
}

abbrev offline : Pull
offline = record {
  ok = false;
  changed = false;
  reason = some "offline";
  old_head = none;
  new_head = none;
}

abbrev idle : SyncState
idle = record {
  world = record site { settings = ("file_sync_cron", "0 0 * * *") ∷ [] };
  effects = [];
}

due_now : due_slot (expression_of idle.world) calendar 1440 ≡ parsed (some 1440)
unfolding cron_runs
due_now = refl

due_late : due_slot (expression_of idle.world) calendar 1441 ≡ parsed (some 1440)
unfolding cron_runs
due_late = refl

run_scheduled_sync-once_example :
    let after = (run_scheduled_sync (clock 1440) advanced (some "timeout") idle).1 in
    run_scheduled_sync (clock 1441) unchanged none after ≡ (skipped, after)
run_scheduled_sync-once_example =
    run_scheduled_sync-once (clock 1440) (clock 1441) advanced unchanged (some "timeout") none 1440
      idle refl due_now due_late refl

abbrev warned : SyncState
warned = (sync_now (clock 1440) advanced (some "timeout") (some "midnight") idle).1

-- The sync after the warning refreshes.
retried :
    (sync_now (clock 1500) unchanged none none warned).1.effects
    ≡ pulls ∷ refreshes ∷ pulls ∷ refreshes ∷ []
unfolding cron_runs
retried = refl

refresh_forgotten_example :
    let after =
      (sync_now
        (clock 1560)
        unchanged
        none
        none
        (sync_now (clock 1500) offline none none warned).1).1 in
    (after.effects ≡ (warned.effects ++ pulls ∷ []) ++ pulls ∷ [])
    × (get_setting after.world "file_sync_last_status" ≡ "success")
refresh_forgotten_example =
    refresh_forgotten (clock 1500) (clock 1560) offline unchanged none none none none warned refl
      refl refl
