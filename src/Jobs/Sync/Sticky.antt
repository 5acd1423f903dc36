-- ===== src/Jobs/Sync/Sticky.antt =====
-- overstate_ui/jobs_service.py: what `sync_job` does to a complete job.
use overstate.Prelude.{
  List, Option, String, some, [], ◌∷◌, ◌≡◌, refl, arith, true, false, not, Bool, Bool-cases,
  eq_refl, inl, inr,
}
use overstate.Sets.{contains, is_empty, filter}
use overstate.Jobs.{Job, SaltReturn, Tables, find_return, job_by_jid, returner_rows}
use overstate.Jobs.Sync.{
  Moment, is_synthetic, row_minions, stored_minions, sync_found, sync_job, sync_rows, sync_silent,
}
use overstate.Jobs.Sync.Returns.{is_some, stored-find}

filter-none :
    (p : String → Bool) (xs : List String)
    → ((x : String) → contains xs x ≡ true → p x ≡ false)
    → filter p xs ≡ []
unfolding filter contains
filter-none p [] h = refl
filter-none p (x ∷ xs) h =
    ground (arith, h x (ground (arith, eq_refl x)), filter-none p xs (λ y e. h y (ground arith)))

module _ (m : Moment) (job : Job) (t : Tables) (closed : job.complete ≡ true) where
  -- No row of the job comes from a minion without a stored return.
  abbrev pub NothingNew : List SaltReturn → Type 0
  NothingNew rows =
      (mid : String)
      → contains (row_minions rows) mid ≡ true
      → is_some (find_return t.job_returns job.jid mid) ≡ true

  abbrev OnlyReturns : Tables → Type 0
  OnlyReturns u = u ≡ record t { job_returns = u.job_returns }

  rows_sticky : (rows : List SaltReturn) → NothingNew rows → OnlyReturns (sync_rows m job rows t)
  unfolding sync_rows is_empty
  rows_sticky rows h =
      let none_new =
        filter-none (λ mid. not (contains (stored_minions t.job_returns job.jid) mid))
          (row_minions rows)
          (λ mid e. ground (arith, h mid e, stored-find t.job_returns job.jid mid)) in
      rw (closed, none_new) refl

  found_sticky :
      (actor : Option String) (rows : List SaltReturn)
      → NothingNew rows
      → OnlyReturns (sync_found m actor job.jid (some job) rows t)
  unfolding sync_silent
  found_sticky actor [] h = rw closed refl
  found_sticky actor (r ∷ rs) h = rows_sticky (r ∷ rs) h

  -- Completion is sticky: while no minion reports that had no stored return, syncing a complete job
  -- refreshes its returns at most; its row, the verdicts, their history and the snapshot stay.
  pub sync_job-sticky :
      (actor : Option String)
      → job_by_jid t.jobs job.jid ≡ some job
      → NothingNew (returner_rows t.salt_returns job.jid)
      → let u = sync_job m job.jid actor t in u ≡ record t { job_returns = u.job_returns }
  unfolding sync_job
  sync_job-sticky actor found h = elim (Bool-cases (is_synthetic job.jid)) [
    | inl synthetic ↦ rw (found, synthetic) refl
    | inr real ↦ rw (found, real) (found_sticky actor (returner_rows t.salt_returns job.jid) h)
  ]
