-- ===== src/FileSync/Runs/Slots.antt =====
-- overstate_ui/file_sync_schedule.py: runs one after the other.
use overstate.Prelude.{
  Bool-cases, List, Option, String, [], if◌then◌else◌, none, some, true, false, ◌∷◌, ◌≡◌, ◌∙◌, ◌==◌,
  ◌||◌, refl, ap, arith, if-both, eq_iff, inl, inr, eq_refl, ℕ, ◌++◌,
}
use overstate.Store.{World, setting_row}
use overstate.Authz.Gates.{log_event}
use overstate.FileSync.Runs.{
  Clock, Pull, Result, SyncState, get_setting, no_refresh_error, refreshed, save_status,
  set_setting, sync_now, with_slot, retry_refresh, effect, pulls, run_scheduled_sync, refreshes,
  expression_of, skipped, run_slot,
}
use overstate.FileSync.{due_slot, parsed}

setting_row-set_setting :
    (key value other : String) (rows : List (String × String))
    → setting_row (set_setting key value rows) other
      ≡ (if key == other then some value else setting_row rows other)
unfolding setting_row set_setting
setting_row-set_setting key value other [] = refl
setting_row-set_setting key value other ((k, v) ∷ rows) =
    let rest = setting_row-set_setting key value other rows in
    elim (Bool-cases (k == key)) [
      | inl same ↦
          let e : k ≡ key = (eq_iff k key).0 same in
          rw same (ground (arith, ap (λ x. x == other) e))
      | inr different ↦
          rw different (ground (arith, rest, eq_iff k other, eq_iff key other, eq_iff k key))
    ]

row_kept :
    (key value other : String) (rows : List (String × String))
    → (key == other) ≡ false
    → setting_row (set_setting key value rows) other ≡ setting_row rows other
row_kept key value other rows different =
    setting_row-set_setting key value other rows ∙ rw different refl

slot_kept :
    (slot : Option String) (other : String) (rows : List (String × String))
    → ("file_sync_last_slot" == other) ≡ false
    → setting_row (with_slot slot rows) other ≡ setting_row rows other
slot_kept none other rows different = refl
slot_kept (some slot) other rows different =
    row_kept "file_sync_last_slot" slot other rows different

module _ (now status message : String) (w : World) where
  -- What a status with a slot leaves of the settings.
  saved_slot :
      (slot : String)
      → get_setting (save_status now status message (some slot) w) "file_sync_last_slot" ≡ slot
  unfolding get_setting save_status
  saved_slot slot =
      rw (setting_row-set_setting "file_sync_last_slot" slot "file_sync_last_slot" _) refl

  saved_status :
      (slot : Option String)
      → get_setting (save_status now status message slot w) "file_sync_last_status" ≡ status
  unfolding get_setting save_status
  saved_status slot =
      rw
        (
          slot_kept slot "file_sync_last_status" _ refl,
          row_kept "file_sync_last_message" _ "file_sync_last_status" _ refl,
          setting_row-set_setting "file_sync_last_status" status "file_sync_last_status" _,
        )
        refl

  saved_cron :
      (slot : Option String)
      → get_setting (save_status now status message slot w) "file_sync_cron"
        ≡ get_setting w "file_sync_cron"
  unfolding get_setting save_status
  saved_cron slot =
      rw
        (
          slot_kept slot "file_sync_cron" _ refl,
          row_kept "file_sync_last_message" _ "file_sync_cron" _ refl,
          row_kept "file_sync_last_status" status "file_sync_cron" _ refl,
          row_kept "file_sync_last_run" now "file_sync_cron" w.settings refl,
        )
        refl

-- The slot is recorded, and the schedule is as it was.
abbrev Recorded : String → SyncState → Result × SyncState → Type 0
Recorded text s r =
    (get_setting r.1.world "file_sync_last_slot" ≡ text)
    × (get_setting r.1.world "file_sync_cron" ≡ get_setting s.world "file_sync_cron")

module _ (clock : Clock) (pull : Pull) (text : String) where
  quiet-Recorded : (s : SyncState) → Recorded text s (no_refresh_error clock pull (some text) s)
  unfolding log_event get_setting
  quiet-Recorded s = (saved_slot _ _ _ _ text, saved_cron _ _ _ _ (some text))

  refreshed-Recorded :
      (error : Option String) (s : SyncState)
      → Recorded text s (refreshed clock pull (some text) error s)
  unfolding log_event get_setting
  refreshed-Recorded none s = quiet-Recorded s
  refreshed-Recorded (some error) s =
      if-both (Recorded text s) (error == "") _ _ (λ _. quiet-Recorded s)
        (λ _. (saved_slot _ _ _ _ text, saved_cron _ _ _ _ (some text)))

  synced-Recorded :
      (refresh : Option String) (s : SyncState)
      → pull.ok ≡ true
      → Recorded text s (sync_now clock pull refresh (some text) s)
  unfolding sync_now get_setting
  synced-Recorded refresh s ok = rw ok (
      if-both (Recorded text s) (pull.changed || retry_refresh s.world) _ _
        (λ _. refreshed-Recorded refresh (effect refreshes (effect pulls s)))
        (λ _. refreshed-Recorded none (effect pulls s)))

-- A slot is synced once: after a run whose pull succeeded, a run for which the same slot is due, in
-- this minute or the next, does nothing, whatever the pull and the refresh would answer. This holds as
-- well where the refresh failed.
pub run_scheduled_sync-once :
    (clock later : Clock) (pull other_pull : Pull) (refresh other_refresh : Option String)
    (slot : ℕ) (s : SyncState)
    → pull.ok ≡ true
    → due_slot (expression_of s.world) clock.calendar clock.minute ≡ parsed (some slot)
    → due_slot (expression_of s.world) later.calendar later.minute ≡ parsed (some slot)
    → later.slot_text slot ≡ clock.slot_text slot
    → let after = (run_scheduled_sync clock pull refresh s).1 in
      run_scheduled_sync later other_pull other_refresh after ≡ (skipped, after)
unfolding run_scheduled_sync
run_scheduled_sync-once clock later pull other_pull refresh other_refresh slot s ok due due_later
      same =
    let text = clock.slot_text slot in
    rw due (
      if-both
        (λ (r : Result × SyncState).
          run_slot later other_pull other_refresh r.1
            (due_slot (expression_of r.1.world) later.calendar later.minute)
          ≡ (skipped, r.1))
        (get_setting s.world "file_sync_last_slot" == text) _ _
        (λ held. rw (due_later, same, held) refl)
        (λ fresh.
          let (recorded, cron) = synced-Recorded clock pull text refresh s ok in
          rw (cron, due_later, same, recorded, eq_refl text) refl))

failed_run :
    (clock : Clock) (pull : Pull) (refresh slot : Option String) (s : SyncState)
    → pull.ok ≡ false
    → let after = (sync_now clock pull refresh slot s).1 in
      (after.effects ≡ s.effects ++ pulls ∷ [])
      × (get_setting after.world "file_sync_last_status" ≡ "failed")
unfolding sync_now log_event get_setting
failed_run clock pull refresh slot s fails =
    rw fails (refl, saved_status clock.now_text "failed" _ s.world none)

idle_run :
    (clock : Clock) (pull : Pull) (refresh slot : Option String) (s : SyncState)
    → pull.ok ≡ true
    → pull.changed ≡ false
    → get_setting s.world "file_sync_last_status" ≡ "failed"
    → let after = (sync_now clock pull refresh slot s).1 in
      (after.effects ≡ s.effects ++ pulls ∷ [])
      × (get_setting after.world "file_sync_last_status" ≡ "success")
unfolding sync_now log_event get_setting
idle_run clock pull refresh slot s ok same was =
    rw (ok, same, was) (refl, saved_status clock.now_text "success" _ _ slot)

-- A bug: a refresh of the file server that failed is retried by the next sync, but not if a pull fails in
-- between. The failure overwrites the status that the retry reads, and the sync after it, where the
-- checkout has not changed again, reports success and does not refresh, whatever state the two start in.
pub refresh_forgotten :
    (clock later : Clock) (broken up_to_date : Pull) (refresh other_refresh : Option String)
    (slot next : Option String) (s : SyncState)
    → broken.ok ≡ false
    → up_to_date.ok ≡ true
    → up_to_date.changed ≡ false
    → let after =
        (sync_now later up_to_date other_refresh next (sync_now clock broken refresh slot s).1).1 in
      (after.effects ≡ (s.effects ++ pulls ∷ []) ++ pulls ∷ [])
      × (get_setting after.world "file_sync_last_status" ≡ "success")
refresh_forgotten clock later broken up_to_date refresh other_refresh slot next s fails works same =
    let (first, was) = failed_run clock broken refresh slot s fails in
    let (second, now) =
      idle_run later up_to_date other_refresh next (sync_now clock broken refresh slot s).1 works
        same was in
    (second ∙ ap (λ es. es ++ pulls ∷ []) first, now)
