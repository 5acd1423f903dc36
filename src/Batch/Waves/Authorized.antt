-- ===== src/Batch/Waves/Authorized.antt =====
-- overstate_ui/tasks_batch.py: the checks of the defining user in `run_wave_batch`.
use overstate.Prelude.{
  ◌<>◌, All, All-append, List, Option, String, [], all, arith, false, if-both, inl, inr, none, not,
  refl, some, suc, true, ℕ, ◌==◌, ◌||◌, ◌∷◌, ◌≡◌, ◌⊎◌, Bool, leb, ◌++◌, ◌+◌,
}
use overstate.Batch.Waves.{
  failed, sent, skipped, publish_to, unauthorized, Outside, Batch, Job, Progress, Step, WaveCheck,
  check_wave, run_wave_batch, run_waves, BatchState, after, failed_wave, go_on, run_wave,
  user_by_name, check_actor, check_batch_grant, check_user, checked_wave, sent_wave, stop, counted,
  run_perm, Published, published_wave, wave_jid,
}
use overstate.Store.{World, User}
use overstate.Authz.Flags.{scoped_mode}
use overstate.Sets.Sorting.{sorted}
use overstate.Authz.Decide.{has_fleet, minions_with, decide}
use overstate.Sets.{contains, filter, is_empty, subset, contains-filter, subset-contains}
use overstate.Authz.Decide.Agreement.{minions_with_sound}
use overstate.Batch.Split.{length}

module _ (w : World) (b : Batch) (wave : List String) where
  -- What the user holds on the targets of a wave when it is published.
  pub record IsPermitted (targets : List String) : Type 0 where
    pub actor : User
    pub found : user_by_name w.users b.user ≡ some actor
    pub of_wave : (mid : String) → contains targets mid ≡ true → contains wave mid ≡ true
    pub runs :
        (mid : String)
        → contains targets mid ≡ true
        → decide w actor (run_perm b) (some mid) none ≡ true
    pub batches :
        (has_fleet w actor "job.batch" ≡ true)
        ⊎ ((mid : String)
            → contains targets mid ≡ true
            → decide w actor "job.batch" (some mid) none ≡ true)

  -- Outside of scoped mode a wave is published as it is.
  abbrev pub IsAllowed : List String → Type 0
  IsAllowed targets = ((scoped_mode w ≡ false) × (targets ≡ wave)) ⊎ IsPermitted targets

  abbrev pub CheckAllowed : WaveCheck → Type 0
  CheckAllowed (publish_to targets) = IsAllowed targets
  CheckAllowed _ = Unit

  module _ (actor : User) (found : user_by_name w.users b.user ≡ some actor) where
    abbrev allowed_ids : List String
    allowed_ids = minions_with w actor (run_perm b)

    abbrev kept_ids : List String
    kept_ids = filter (contains allowed_ids) wave

    permitted :
        (has_fleet w actor "job.batch" ≡ true)
          ⊎ (subset wave (minions_with w actor "job.batch") ≡ true)
        → IsPermitted kept_ids
    permitted grant = record {
      actor = actor;
      found = found;
      of_wave = λ mid h. ground (arith, contains-filter (contains allowed_ids) wave mid);
      runs = λ mid h.
          (minions_with_sound w (run_perm b) mid actor none
            (ground (arith, contains-filter (contains allowed_ids) wave mid))).1;
      batches = elim grant [
        | inl all ↦ inl all
        | inr within ↦ inr (λ mid h.
            (minions_with_sound w "job.batch" mid actor none (
              subset-contains wave _ mid within
                (ground (arith, contains-filter (contains allowed_ids) wave mid)))).1)
      ];
    }

    grant-Allowed : CheckAllowed (check_batch_grant w b actor wave kept_ids)
    unfolding check_batch_grant
    grant-Allowed =
        if-both CheckAllowed (has_fleet w actor "job.batch") _ _ (λ e. inr (permitted (inl e)))
          (λ _.
            if-both CheckAllowed
              (is_empty (minions_with w actor "job.batch")
                || not (subset wave (minions_with w actor "job.batch")))
              _ _ (λ _. tt) (λ e. inr (permitted (inr (ground arith)))))

    actor-Allowed : CheckAllowed (check_actor w b wave actor)
    unfolding check_actor
    actor-Allowed =
        if-both CheckAllowed (run_perm b == "" || is_empty allowed_ids) _ _ (λ _. tt)
          (λ _. if-both CheckAllowed (is_empty kept_ids) _ _ (λ _. tt) (λ _. grant-Allowed))

  user-Allowed :
      (o : Option User) → user_by_name w.users b.user ≡ o → CheckAllowed (check_user w b wave o)
  user-Allowed none e = tt
  user-Allowed (some actor) e = actor-Allowed actor e

  pub check-Allowed : CheckAllowed (check_wave w b wave)
  unfolding check_wave
  check-Allowed =
      if-both CheckAllowed (scoped_mode w) _ _
        (λ _. user-Allowed (user_by_name w.users b.user) refl) (λ legacy. inl (legacy, refl))

-- A wave of the list and its number, where the first wave has the number `first`.
abbrev pub IsNthWave : ℕ → List (List String) → ℕ → List String → Type 0
IsNthWave first [] num wave = ⊥
IsNthWave first (w ∷ ws) num wave = ((num ≡ first) × (wave ≡ w)) ⊎ IsNthWave (suc first) ws num wave

module _ (o : Outside) (b : Batch) (Numbered : ℕ → List String → Type 0) where
  -- The wave that a job published, with the job id that carries its number.
  pub record IsOfWave (j : Job) : Type 0 where
    pub num : ℕ
    pub wave : List String
    pub numbered : Numbered num wave
    pub jid : (j.jid ≡ wave_jid b num) ⊎ (j.jid ≡ wave_jid b num <> "-failed")
    pub allowed : IsAllowed (o.world num) b (sorted wave) j.targets

  abbrev StepAllowed : Step → Type 0
  StepAllowed (go_on p) = All IsOfWave p.jobs
  StepAllowed (stop status p) = All IsOfWave p.jobs

  module _ (num : ℕ) (wave : List String) (numbered : Numbered num wave) (p : Progress)
      (before : All IsOfWave p.jobs) where
    more :
        (jid : String) (targets : List String) (complete : Bool)
        → (jid ≡ wave_jid b num) ⊎ (jid ≡ wave_jid b num <> "-failed")
        → IsAllowed (o.world num) b (sorted wave) targets
        → All IsOfWave (p.jobs ++ record { jid = jid; targets = targets; complete = complete } ∷ [])
    more jid targets complete named h =
        All-append IsOfWave p.jobs (record { jid = jid; targets = targets; complete = complete })
          before (record { num = num; wave = wave; numbered = numbered; jid = named; allowed = h })

    failed-Allowed :
        (targets : List String)
        → IsAllowed (o.world num) b (sorted wave) targets
        → StepAllowed (failed_wave b num targets p)
    unfolding failed_wave
    failed-Allowed targets h =
        if-both StepAllowed (leb b.stop_after (p.failures + length targets)) _ _
          (λ _. more _ targets true (inr refl) h) (λ _. more _ targets true (inr refl) h)

    sent-Allowed :
        (targets missed : List String)
        → IsAllowed (o.world num) b (sorted wave) targets
        → StepAllowed (sent_wave o b num targets missed p)
    unfolding sent_wave counted
    sent-Allowed targets missed h =
        if-both StepAllowed (leb b.stop_after (counted o b num targets missed p).failures) _ _
          (λ _. more (wave_jid b num) targets false (inl refl) h)
          (λ _. more (wave_jid b num) targets false (inl refl) h)

    published-Allowed :
        (targets : List String) (answer : Published)
        → IsAllowed (o.world num) b (sorted wave) targets
        → StepAllowed (published_wave o b num targets p answer)
    published-Allowed targets failed h = failed-Allowed targets h
    published-Allowed targets (sent missed) h = sent-Allowed targets missed h

    checked-Allowed :
        (c : WaveCheck)
        → CheckAllowed (o.world num) b (sorted wave) c
        → StepAllowed (checked_wave o b num p c)
    checked-Allowed skipped h = before
    checked-Allowed (unauthorized detail) h = before
    checked-Allowed (publish_to targets) h = published-Allowed targets (o.publish num targets) h

    wave-Allowed : StepAllowed (run_wave o b num wave p)
    unfolding run_wave
    wave-Allowed =
        if-both StepAllowed (o.cancelled num) _ _ (λ _. before)
          (λ _. checked-Allowed _ (check-Allowed (o.world num) b (sorted wave)))

  after-Allowed :
      (rest : Progress → String × Progress) (s : Step)
      → StepAllowed s
      → ((p : Progress) → All IsOfWave p.jobs → All IsOfWave (rest p).1.jobs)
      → All IsOfWave (after rest s).1.jobs
  after-Allowed rest (go_on p) h later = later p h
  after-Allowed rest (stop status p) h later = h

  waves-Allowed :
      (num : ℕ) (waves : List (List String)) (p : Progress)
      → ((n : ℕ) (wave : List String) → IsNthWave num waves n wave → Numbered n wave)
      → All IsOfWave p.jobs
      → All IsOfWave (run_waves o b num waves p).1.jobs
  unfolding run_waves
  waves-Allowed num [] p numbered h = h
  waves-Allowed num (wave ∷ waves) p numbered h =
      after-Allowed _ (run_wave o b num wave p)
        (wave-Allowed num wave (numbered num wave (inl (refl, refl))) p h)
        (λ p' h'. waves-Allowed (suc num) waves p' (λ n v later. numbered n v (inr later)) h')

-- Every job that a batch publishes carries the number of one of its waves in its id. In scoped mode it
-- goes to minions of that very wave, on each of which the user who started the batch is authorized, in
-- the database of that moment, for the class of the function and, without a fleet grant, for
-- `job.batch`; otherwise it goes to the wave, sorted.
pub run_wave_batch-allowed :
    (o : Outside) (b : Batch) (waves : List (List String)) (state : BatchState)
    → All (IsOfWave o b (IsNthWave 1 waves)) (run_wave_batch o b waves state).1.jobs
unfolding run_wave_batch
run_wave_batch-allowed o b waves state =
    waves-Allowed o b (IsNthWave 1 waves) 1 waves _ (λ n wave h. h) tt
