-- ===== src/Jobs/Sync/Waves.antt =====
-- overstate_ui/tasks_batch.py beside overstate_ui/jobs_service.py: the wait of `run_wave_batch` for a
-- wave calls `sync_job`, which passes over every job id that begins with `batch-`, and the job of a
-- wave has such an id.
use overstate.Prelude.{
  List, String, none, some, [], ◌∷◌, ◌≡◌, ◌∙◌, ◌<>◌, ap, refl, arith, true, ℕ, ◌+◌, any,
  if◌then◌else◌, not, suc, ◌&&◌, ◌==◌,
}
use text.Mathlib.TextPositions.{starts_with-append}
use overstate.Batch.Split.{length}
use overstate.Batch.Waves.{Batch, Outside, Progress, counted, wave_jid}
use overstate.Text.Words.{show_int}
use overstate.Jobs.{Job, JobReturn, Tables, job_by_jid, SaltReturn}
use overstate.Jobs.Sync.{Moment, is_synthetic, sync_job}
use overstate.Jobs.Sync.Returns.{job_by_jid-jid}

-- `session.query(JobReturn).filter_by(jid=jid).count()`, of all returns or of the failed ones
unfoldable pub count_returns : List JobReturn → String → ℕ
count_returns [] jid = 0
count_returns (r ∷ rs) jid = let n = count_returns rs jid in if r.jid == jid then suc n else n

unfoldable pub count_failed : List JobReturn → String → ℕ
count_failed [] jid = 0
count_failed (r ∷ rs) jid =
    let n = count_failed rs jid in if r.jid == jid && not r.success then suc n else n

-- The wait for a wave: a call of `sync_job` in each round, on the rows that the returner has by then.
unfoldable pub poll : String → List (Moment × List SaltReturn) → Tables → Tables
poll jid [] t = t
poll jid ((m, rows) ∷ rounds) t =
    poll jid rounds (sync_job m jid none (record t { salt_returns = rows }))

wave_jid-synthetic : (b : Batch) (num : ℕ) → is_synthetic (wave_jid b num) ≡ true
unfolding is_synthetic any
wave_jid-synthetic b num =
    let start = starts_with-append "batch-" (b.group <> ("-w" <> show_int num)) in ground arith

passed_over :
    (m : Moment) (jid : String) (t : Tables) (j : Job)
    → job_by_jid t.jobs jid ≡ some j
    → is_synthetic jid ≡ true
    → sync_job m jid none t ≡ t
unfolding sync_job
passed_over m jid t j found synthetic =
    let own : is_synthetic j.jid ≡ true =
      ap is_synthetic (job_by_jid-jid t.jobs jid j found) ∙ synthetic in
    rw (found, own) refl

poll-returns :
    (jid : String) (j : Job)
    → is_synthetic jid ≡ true
    → (rounds : List (Moment × List SaltReturn)) (t : Tables) → job_by_jid t.jobs jid ≡ some j
    → (poll jid rounds t).job_returns ≡ t.job_returns
unfolding poll
poll-returns jid j synthetic [] t found = refl
poll-returns jid j synthetic ((m, rows) ∷ rounds) t found =
    let here = passed_over m jid (record t { salt_returns = rows }) j found synthetic in
    ap (λ u. (poll jid rounds u).job_returns) here
    ∙ poll-returns jid j synthetic rounds (record t { salt_returns = rows }) found

failed-of-none :
    (rs : List JobReturn) (jid : String) → count_returns rs jid ≡ 0 → count_failed rs jid ≡ 0
unfolding count_returns count_failed
failed-of-none [] jid h = refl
failed-of-none (r ∷ rs) jid h = ground (arith, failed-of-none rs jid)

-- However long a wave waits and whatever the returner writes meanwhile, every minion of the wave
-- counts as failed: where no return is stored under the wave's job id when the wait begins, and the
-- counts after the wait are those of the tables, the failures grow by the number of targets.
pub wave_never_counted :
    (o : Outside) (b : Batch) (num : ℕ) (targets missed : List String) (p : Progress) (t : Tables)
    (j : Job) (rounds : List (Moment × List SaltReturn))
    → job_by_jid t.jobs (wave_jid b num) ≡ some j
    → count_returns t.job_returns (wave_jid b num) ≡ 0
    → o.returned (wave_jid b num)
      ≡ count_returns (poll (wave_jid b num) rounds t).job_returns (wave_jid b num)
    → o.failed_returns (wave_jid b num)
      ≡ count_failed (poll (wave_jid b num) rounds t).job_returns (wave_jid b num)
    → (counted o b num targets missed p).failures ≡ p.failures + length targets
unfolding counted
wave_never_counted o b num targets missed p t j rounds found empty returned failed =
    let jid = wave_jid b num in
    let same = poll-returns jid j (wave_jid-synthetic b num) rounds t found in
    let no_returned : o.returned jid ≡ 0 =
      returned ∙ (ap (λ rs. count_returns rs jid) same ∙ empty) in
    let no_failed : o.failed_returns jid ≡ 0 =
      failed ∙ (ap (λ rs. count_failed rs jid) same ∙ failed-of-none t.job_returns jid empty) in
    rw (no_returned, no_failed) (omega arith)
