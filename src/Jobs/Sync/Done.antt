-- ===== src/Jobs/Sync/Done.antt =====
-- overstate_ui/jobs_service.py: what a completed job has behind it, and when a job completes.
use overstate.Prelude.{
  All, List, Option, String, none, some, [], ◌∷◌, ◌≡◌, ℕ, refl, arith, true, false, not, ◌||◌, ◌+◌,
  ◌<◌, inl, inr, Option-cases, ap, eq_refl, if◌then◌else◌, ltb, sym, ◌-◌, ◌==◌, ◌∙◌, ◌⊎◌,
}
use overstate.Sets.{
  contains, is_empty, contains-union, contains-filter, subset-contains, subset_of_contains,
}
use overstate.Jobs.{Job, JobReturn, SaltReturn, Tables, find_return, returner_rows, job_by_jid}
use overstate.Jobs.Sync.{
  Moment, complete_after, is_done, known_minions, master_minions, new_minions, row_minions,
  stored_minions, youngest, time_or, within_known, is_synthetic, sync_job,
}
use overstate.Jobs.Sync.Returns.{is_some, row_of, stored-find, after_rows, IsKeyed, sync_job-Copied}
use overstate.Jobs.Sync.Completion.{
  IsQuiet, done_after, IsQuiet-youngest, sync-flag, youngest-IsQuiet,
}

row_of-present :
    (rs : List SaltReturn) (mid : String) (old : Option JobReturn)
    → is_some (after_rows (row_of rs mid) old) ≡ (contains (row_minions rs) mid || is_some old)
unfolding row_of contains
row_of-present [] mid old = refl
row_of-present (r ∷ rs) mid old = elim (Option-cases old) [
  | inl gone ↦ ground (arith, row_of-present rs mid old)
  | inr (x, there) ↦ ground (arith, row_of-present rs mid old)
]

untimed : (rows : List SaltReturn) → All (λ r. r.alter_time ≡ none) rows → youngest rows ≡ none
unfolding youngest
untimed [] a = refl
untimed (r ∷ rs) (e, a) = ground (arith, untimed rs a)

module _ (m : Moment) (job : Job) (t : Tables) where
  abbrev rows_of_job : List SaltReturn
  rows_of_job = returner_rows t.salt_returns job.jid

  -- What lies behind a completed job, in the tables `u` that the call leaves.
  pub record IsSettled (u : Tables) : Type 0 where
    pub recorded :
        (mids : List String)
        → master_minions m job.jid ≡ some mids
        → (mid : String) → contains mids mid ≡ true
        → is_some (find_return u.job_returns job.jid mid) ≡ true
    pub quiet : IsQuiet m.now rows_of_job
    pub aged : All (λ r. r.alter_time ≡ none) rows_of_job → job.started_at + complete_after < m.now

  known-stored :
      (rows : List SaltReturn) (mid : String)
      → contains (known_minions job rows t) mid
        ≡ (contains (row_minions rows) mid || is_some (find_return t.job_returns job.jid mid))
  known-stored rows mid = ground (
    arith,
    contains-union (stored_minions t.job_returns job.jid) (new_minions job rows t) mid,
    contains-filter (λ x. not (contains (stored_minions t.job_returns job.jid) x))
        (row_minions rows) mid,
    stored-find t.job_returns job.jid mid,
  )

  done_known :
      (rows : List SaltReturn)
      → job.complete ≡ false
      → done_after m job rows t ≡ true
      → (mids : List String) → master_minions m job.jid ≡ some mids
      → (mid : String) → contains mids mid ≡ true
      → contains (known_minions job rows t) mid ≡ true
  unfolding done_after is_done contains
  done_known [] o d [] e mid c = cc
  done_known [] o d (x ∷ mids) e mid c = absurd (unfold is_empty in ground arith)
  done_known (r ∷ rs) o d mids e mid c =
      subset-contains mids (known_minions job (r ∷ rs) t) mid (ground arith) c

  done_quiet :
      (rows : List SaltReturn)
      → job.complete ≡ false
      → done_after m job rows t ≡ true
      → (y : ℕ) → youngest rows ≡ some y
      → y + complete_after < m.now
  unfolding done_after is_done
  done_quiet [] o d y e = absurd (unfold youngest in cc)
  done_quiet (r ∷ rs) o d y e = ground arith

  done_aged :
      (rows : List SaltReturn)
      → job.complete ≡ false
      → done_after m job rows t ≡ true
      → youngest rows ≡ none
      → job.started_at + complete_after < m.now
  unfolding done_after is_done
  done_aged [] o d e = ground arith
  done_aged (r ∷ rs) o d e = ground arith

  -- What the master's answer has to be for the rows.
  abbrev pub Heard : List SaltReturn → Type 0
  Heard rows =
      (master_minions m job.jid ≡ none)
      ⊎ ((r : SaltReturn) × (rs : List SaltReturn) × (rows ≡ r ∷ rs)
          × ((mids : List String)
              → master_minions m job.jid ≡ some mids
              → (mid : String) → contains mids mid ≡ true
              → (contains (row_minions rows) mid || is_some (find_return t.job_returns job.jid mid))
                ≡ true))

  Heard-known :
      (rows : List SaltReturn)
      → Heard rows
      → within_known (known_minions job rows t) (master_minions m job.jid) ≡ true
  Heard-known rows (inl silent) = rw silent refl
  Heard-known rows (inr (r, rs, some_row, names)) = elim (Option-cases (master_minions m job.jid)) [
    | inl silent ↦ rw silent refl
    | inr (mids, e) ↦ rw e (
        subset_of_contains mids (known_minions job rows t)
          (λ mid c. known-stored rows mid ∙ names mids e mid c))
  ]

  aged_by :
      (rows : List SaltReturn)
      → job.started_at + complete_after < m.now
      → IsQuiet m.now rows
      → ltb complete_after (m.now - time_or job.started_at (youngest rows)) ≡ true
  aged_by rows started quiet = elim (Option-cases (youngest rows)) [
    | inl none_timed ↦ rw none_timed (ground arith)
    | inr (y, e) ↦ let past = IsQuiet-youngest m.now rows quiet y e in rw e (ground arith)
  ]

  ready_done :
      (rows : List SaltReturn)
      → Heard rows
      → job.started_at + complete_after < m.now
      → IsQuiet m.now rows
      → done_after m job rows t ≡ true
  unfolding done_after is_done
  ready_done [] (inl silent) started quiet = rw silent (ground arith)
  ready_done [] (inr (r, rs, some_row, names)) started quiet = absurd (cc)
  ready_done (r ∷ rs) heard started quiet =
      let within = Heard-known (r ∷ rs) heard in
      let past = aged_by (r ∷ rs) started quiet in ground arith

  module _ (actor : Option String) (found : job_by_jid t.jobs job.jid ≡ some job)
      (real : is_synthetic job.jid ≡ false) (keyed : IsKeyed rows_of_job) where
    after_known :
        (mid : String)
        → is_some (find_return (sync_job m job.jid actor t).job_returns job.jid mid)
          ≡ contains (known_minions job rows_of_job t) mid
    after_known mid =
        ap is_some (sync_job-Copied m job.jid actor t real keyed job.jid mid ∙ own)
        ∙ (row_of-present rows_of_job mid (find_return t.job_returns job.jid mid)
            ∙ sym (known-stored rows_of_job mid))
      where
        own :
            (if job.jid == job.jid
              then after_rows (row_of rows_of_job mid) (find_return t.job_returns job.jid mid)
              else find_return t.job_returns job.jid mid)
            ≡ after_rows (row_of rows_of_job mid) (find_return t.job_returns job.jid mid)
        own = rw (eq_refl job.jid) refl

    -- A call that completes a job has a reason: the minions that the master still names for it, if it
    -- names any, all have a stored return by then; every time on a returner row lies more than
    -- COMPLETE_AFTER_SECONDS back, and where no row has a time, the start of the job does. The job
    -- has a real id, and the returner's rows are keyed by minion.
    pub sync_job-IsSettled :
        job.complete ≡ false
        → job_by_jid (sync_job m job.jid actor t).jobs job.jid
          ≡ some (record job { complete = true })
        → IsSettled (sync_job m job.jid actor t)
    sync_job-IsSettled unfinished completed =
        let flag = sync-flag m job t found actor real in
        let done : done_after m job rows_of_job t ≡ true = ground arith in
        record {
          recorded =
              λ mids e mid c. after_known mid ∙ done_known rows_of_job unfinished done mids e mid c;
          quiet = youngest-IsQuiet m.now rows_of_job (done_quiet rows_of_job unfinished done);
          aged = λ a. done_aged rows_of_job unfinished done (untimed rows_of_job a);
        }

    -- No job with a real id runs forever: once the master names no minion for it, or only minions
    -- with a stored return or a returner row while there is such a row, and its start and every time
    -- on a row lie more than COMPLETE_AFTER_SECONDS back, the next call completes it.
    pub sync_job-completes :
        Heard rows_of_job
        → job.started_at + complete_after < m.now
        → IsQuiet m.now rows_of_job
        → job_by_jid (sync_job m job.jid actor t).jobs job.jid
          ≡ some (record job { complete = true })
    sync_job-completes heard started quiet =
        sync-flag m job t found actor real
        ∙ ap (λ b. some (record job { complete = b })) (ready_done rows_of_job heard started quiet)
