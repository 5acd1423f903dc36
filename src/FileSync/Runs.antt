-- ===== src/FileSync/Runs.antt =====
-- overstate_ui/file_sync_schedule.py: a run of the file sync and what it records. The pull of the
-- checkout, the refresh of Salt's file server and the texts of instants are arguments.
pub mod Slots
use overstate.Prelude.{
  Bool, List, Option, String, [], if◌then◌else◌, none, not, some, starts_with, ℕ, ◌&&◌, ◌++◌, ◌<>◌,
  ◌==◌, ◌||◌, ◌∷◌,
}
use overstate.Store.{World, setting_row}
use overstate.Text.Words.{first_chars}
use overstate.Authz.Gates.{log_event}
use overstate.FileSync.{Parsed, When, due_slot, parsed, value_error}

-- The answer of `git_sync_now`
pub record Pull : Type 0 where
  pub ok : Bool
  pub changed : Bool
  pub reason : Option String
  pub old_head : Option String
  pub new_head : Option String

-- The clock of one run: the texts of now and of a slot, and the minute.
pub record Clock : Type 0 where
  pub now_text : String
  pub minute : ℕ
  pub calendar : ℕ → When
  pub slot_text : ℕ → String

pub data Effect : Type 0 where
  pulls : Effect
  refreshes : Effect

pub record SyncState : Type 0 where
  pub world : World
  pub effects : List Effect

pub data Result : Type 0 where
  skipped : Result
  failed : String → Result
  synced : String → String → Result
  raised : String → Result

-- `get_setting` of a key without a default
abbrev text_or : String → Option String → String
text_or other none = other
text_or other (some s) = s

unfoldable pub get_setting : World → String → String
get_setting w key = text_or "" (setting_row w.settings key)

abbrev pub or_text : String → String → String
or_text s other = if s == "" then other else s

-- `_set_setting`
unfoldable pub set_setting : String → String → List (String × String) → List (String × String)
set_setting key value [] = (key, value) ∷ []
set_setting key value ((k, v) ∷ rows) =
    let rest = set_setting key value rows in if k == key then (key, value) ∷ rows else (k, v) ∷ rest

abbrev pub with_slot : Option String → List (String × String) → List (String × String)
with_slot none rows = rows
with_slot (some slot) rows = set_setting "file_sync_last_slot" slot rows

-- `_save_status`
unfoldable pub save_status : String → String → String → Option String → World → World
save_status now status message slot w = record w {
  settings = with_slot slot (
      set_setting "file_sync_last_message" (first_chars 500 message) (
        set_setting "file_sync_last_status" status
          (set_setting "file_sync_last_run" now w.settings)));
}

unfoldable pub has_text : String → String → Bool
has_text needle String.[] = needle == ""
has_text needle (String.◌∷◌ c s) = starts_with (String.◌∷◌ c s) needle || has_text needle s

abbrev pub retry_refresh : World → Bool
retry_refresh w =
    get_setting w "file_sync_last_status" == "warning"
    && has_text "fileserver refresh failed" (get_setting w "file_sync_last_message")

abbrev pub failed_pull : Clock → Pull → SyncState → Result × SyncState
failed_pull clock pull s =
    let reason = or_text (text_or "" pull.reason) "git sync failed" in
    let message = "file sync failed: " <> reason in
    (
      failed message,
      record s {
        world =
            log_event "cron" "file-sync:failed" (some "deny") none none (some reason)
              (save_status clock.now_text "failed" message none s.world);
      },
    )

abbrev head : Option String → String
head h = or_text (text_or "" h) "unknown"

abbrev no_refresh_error : Clock → Pull → Option String → SyncState → Result × SyncState
no_refresh_error clock pull slot s =
    let message =
      if pull.changed
      then "file sync succeeded: "
        <> (head pull.old_head <> (" -> " <> (head pull.new_head <> "; fileserver refreshed")))
      else "file sync succeeded: already up to date at " <> head pull.new_head in
    let action =
      if pull.changed
      then "file-sync:" <> head pull.new_head
      else "file-sync:up-to-date:" <> head pull.new_head in
    (
      synced "success" message,
      record s {
        world =
            save_status clock.now_text "success" message slot
              (log_event "cron" action (some "allow") none none none s.world);
      },
    )

abbrev pub refreshed : Clock → Pull → Option String → Option String → SyncState → Result × SyncState
refreshed clock pull slot none s = no_refresh_error clock pull slot s
refreshed clock pull slot (some error) s =
    let message =
      "file sync pulled "
      <> (head pull.old_head
          <> (" -> " <> (head pull.new_head <> ("; fileserver refresh failed: " <> error)))) in
    if error == "" then no_refresh_error clock pull slot s else (
      synced "warning" message,
      record s {
        world = save_status clock.now_text "warning" message slot (
            log_event "cron" "file-sync:refresh-failed" (some "deny") none none
              (some (first_chars 500 error)) s.world);
      },
    )

abbrev pub effect : Effect → SyncState → SyncState
effect e s = record s { effects = s.effects ++ e ∷ [] }

-- `_sync_now`, with the text of the slot and the error that a refresh answers with
unfoldable pub sync_now :
    Clock → Pull → Option String → Option String → SyncState → Result × SyncState
sync_now clock pull refresh slot s =
    let retry = retry_refresh s.world in
    let pulled = effect pulls s in
    if not pull.ok
    then failed_pull clock pull pulled
    else if pull.changed || retry
    then refreshed clock pull slot refresh (effect refreshes pulled)
    else refreshed clock pull slot none pulled

abbrev pub run_slot :
    Clock → Pull → Option String → SyncState → Parsed (Option ℕ) → Result × SyncState
run_slot clock pull refresh s (value_error text) = (raised text, s)
run_slot clock pull refresh s (parsed none) = (skipped, s)
run_slot clock pull refresh s (parsed (some slot)) =
    if get_setting s.world "file_sync_last_slot" == clock.slot_text slot
    then (skipped, s)
    else sync_now clock pull refresh (some (clock.slot_text slot)) s

abbrev pub expression_of : World → String
expression_of w = or_text (get_setting w "file_sync_cron") "0 * * * *"

unfoldable pub run_scheduled_sync : Clock → Pull → Option String → SyncState → Result × SyncState
run_scheduled_sync clock pull refresh s =
    run_slot clock pull refresh s (due_slot (expression_of s.world) clock.calendar clock.minute)

unfoldable pub run_manual_sync : Clock → Pull → Option String → SyncState → Result × SyncState
run_manual_sync clock pull refresh s = sync_now clock pull refresh none s
