-- ===== src/Batch/Waves/Counted.antt =====
-- overstate_ui/tasks_batch.py: the count of failures in `run_wave_batch`.
use overstate.Prelude.{
  List, String, [], arith, false, if-both, if◌then◌else◌, inl, inr, leb, refl, suc, true, ℕ, ◌++◌,
  ◌+◌, ◌-◌, ◌<>◌, ◌<◌, ◌∷◌, ◌≡◌, ◌≤◌, ◌⊎◌,
}
use overstate.Batch.Waves.{
  failed, sent, skipped, publish_to, unauthorized, Outside, Batch, Job, Progress, Step, failed_wave,
  run_wave, run_wave_batch, run_waves, sent_wave, BatchState, Published, WaveCheck, after, counted,
  go_on, wave_jid, checked_wave, published_wave, stop,
}
use overstate.Batch.Split.{length}
use overstate.Batch.Waves.Gate.{waves-IsSettled}

-- The failures of one job: all of its targets where the publish failed, else the failed returns and
-- the minions that sent none in time.
abbrev pub job_failures : Outside → Job → ℕ
job_failures o j =
    if j.complete
    then length j.targets
    else o.failed_returns j.jid + (length j.targets - o.returned j.jid)

unfoldable pub total : Outside → List Job → ℕ
total o [] = 0
total o (j ∷ js) = job_failures o j + total o js

total-append :
    (o : Outside) (js : List Job) (j : Job) → total o (js ++ j ∷ []) ≡ total o js + job_failures o j
unfolding total
total-append o [] j = omega arith
total-append o (i ∷ js) j = let rest = total-append o js j in omega arith

module _ (o : Outside) (b : Batch) where
  -- The running count is that of the jobs so far.
  abbrev IsCounted : Progress → Type 0
  IsCounted p = p.failures ≡ total o p.jobs

  abbrev StepCounted : Step → Type 0
  StepCounted (go_on p) = IsCounted p
  StepCounted (stop status p) = IsCounted p

  failed-IsCounted :
      (num : ℕ) (targets : List String) (p : Progress)
      → IsCounted p
      → StepCounted (failed_wave b num targets p)
  unfolding failed_wave
  failed-IsCounted num targets p h =
      let jid = wave_jid b num <> "-failed" in
      let more = total-append o p.jobs (record { jid = jid; targets = targets; complete = true }) in
      if-both StepCounted (leb b.stop_after (p.failures + length targets)) _ _ (λ _. omega arith)
        (λ _. omega arith)

  sent-IsCounted :
      (num : ℕ) (targets missed : List String) (p : Progress)
      → IsCounted p
      → StepCounted (sent_wave o b num targets missed p)
  unfolding sent_wave counted
  sent-IsCounted num targets missed p h =
      let more =
        total-append o p.jobs
          (record { jid = wave_jid b num; targets = targets; complete = false }) in
      if-both StepCounted (leb b.stop_after (counted o b num targets missed p).failures) _ _
        (λ _. omega arith) (λ _. omega arith)

  published-IsCounted :
      (num : ℕ) (targets : List String) (p : Progress) (answer : Published)
      → IsCounted p
      → StepCounted (published_wave o b num targets p answer)
  published-IsCounted num targets p failed h = failed-IsCounted num targets p h
  published-IsCounted num targets p (sent missed) h = sent-IsCounted num targets missed p h

  checked-IsCounted :
      (num : ℕ) (p : Progress) (c : WaveCheck)
      → IsCounted p
      → StepCounted (checked_wave o b num p c)
  checked-IsCounted num p skipped h = h
  checked-IsCounted num p (unauthorized detail) h = h
  checked-IsCounted num p (publish_to targets) h =
      published-IsCounted num targets p (o.publish num targets) h

  wave-IsCounted :
      (num : ℕ) (wave : List String) (p : Progress)
      → IsCounted p
      → StepCounted (run_wave o b num wave p)
  unfolding run_wave
  wave-IsCounted num wave p h =
      if-both StepCounted (o.cancelled num) _ _ (λ _. h) (λ _. checked-IsCounted num p _ h)

  after-IsCounted :
      (rest : Progress → String × Progress) (s : Step)
      → StepCounted s
      → ((p : Progress) → IsCounted p → IsCounted (rest p).1)
      → IsCounted (after rest s).1
  after-IsCounted rest (go_on p) h later = later p h
  after-IsCounted rest (stop status p) h later = h

  waves-IsCounted :
      (num : ℕ) (waves : List (List String)) (p : Progress)
      → IsCounted p
      → IsCounted (run_waves o b num waves p).1
  unfolding run_waves
  waves-IsCounted num [] p h = h
  waves-IsCounted num (wave ∷ waves) p h =
      after-IsCounted _ (run_wave o b num wave p) (wave-IsCounted num wave p h)
        (λ p' h'. waves-IsCounted (suc num) waves p' h')

  -- The failure gate. The failures of a batch with a positive limit are exactly those of its jobs, the
  -- parent job records them with the status, and a batch that ends complete or cancelled stayed below
  -- the limit; every other batch is stopped.
  pub run_wave_batch-gate :
      (waves : List (List String)) (state : BatchState)
      → 1 ≤ b.stop_after
      → let (status, p) = run_wave_batch o b waves state in
        (p.failures ≡ total o p.jobs)
        × (p.state.failures ≡ p.failures)
        × (p.state.status ≡ status)
        × (((status ≡ "complete") × (p.failures < b.stop_after))
            ⊎ ((status ≡ "cancelled") × (p.failures < b.stop_after))
            ⊎ (status ≡ "stopped"))
  unfolding run_wave_batch total
  run_wave_batch-gate waves state h =
      let start : Progress = record {
        failures = 0;
        missing = 0;
        jobs = [];
        events = [];
        state = state;
      } in
      let counts = waves-IsCounted 1 waves start refl in
      (
        counts,
        refl,
        refl,
        elim (waves-IsSettled o b 1 waves start (ground arith)) [
          | inl (e, low) ↦ inl (e, ground arith)
          | inr (inl (e, low)) ↦ inr (inl (e, ground arith))
          | inr (inr e) ↦ inr (inr e)
        ],
      )
