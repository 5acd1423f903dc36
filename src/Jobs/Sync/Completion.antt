-- ===== src/Jobs/Sync/Completion.antt =====
-- overstate_ui/jobs_service.py: when `sync_job` completes a job.
use overstate.Prelude.{
  All, Bool, List, Option, String, none, some, [], ◌∷◌, ◌≡◌, ℕ, refl, arith, leb, ◌+◌, ◌<◌, inl,
  inr, Bool-cases, Option-cases, ap, false, if-both, ltb, not, subst, sym, true, ◌&&◌, ◌-◌, ◌||◌,
  ◌∙◌,
}
use overstate.Jobs.{Job, SaltReturn, Tables, job_by_jid, set_complete, returner_rows}
use overstate.Jobs.Sync.{
  Moment, complete_after, decide_job, youngest, knows_none, sync_found, sync_job, sync_rows,
  sync_silent, is_done, is_synthetic, master_minions, known_minions, new_minions, merged_tables,
}
use overstate.Jobs.Sync.Frame.{verdicts-SameRows}
use overstate.Sets.{is_empty}

decided_jobs :
    (m : Moment) (job : Job) (rows : List SaltReturn) (complete : Bool) (t : Tables)
    → (decide_job m job rows complete t).jobs ≡ set_complete job.jid complete t.jobs
unfolding decide_job
decided_jobs m job rows complete t = (verdicts-SameRows m _ rows _).jobs

with_complete : Option Job → Bool → Option Job
with_complete none b = none
with_complete (some j) b = some (record j { complete = b })

job-set_complete :
    (js : List Job) (jid : String) (b : Bool)
    → job_by_jid (set_complete jid b js) jid ≡ with_complete (job_by_jid js jid) b
unfolding job_by_jid set_complete with_complete
job-set_complete [] jid b = refl
job-set_complete (j ∷ js) jid b = ground (arith, job-set_complete js jid b)

-- Every time that a row carries lies in the past by more than a span.
abbrev pub IsQuiet : ℕ → List SaltReturn → Type 0
IsQuiet now rows = All (λ r. (a : ℕ) → r.alter_time ≡ some a → a + complete_after < now) rows

pub youngest-IsQuiet :
    (now : ℕ) (rows : List SaltReturn)
    → ((y : ℕ) → youngest rows ≡ some y → y + complete_after < now)
    → IsQuiet now rows
unfolding youngest
youngest-IsQuiet now [] h = tt
youngest-IsQuiet now (r ∷ rs) h = (
  λ a e. elim (Option-cases (youngest rs)) [
    | inl last ↦ h a (ground arith)
    | inr (b, more) ↦ elim (Bool-cases (leb a b)) [
      | inl up ↦ let below = h b (ground arith) in ground arith
      | inr down ↦ h a (ground arith)
    ]
  ],
  youngest-IsQuiet now rs (λ y e. elim (Option-cases r.alter_time) [
    | inl none_here ↦ h y (ground arith)
    | inr (a, here) ↦ elim (Bool-cases (leb a y)) [
      | inl up ↦ h y (ground arith)
      | inr down ↦ let below = h a (ground arith) in ground arith
    ]
  ]),
)

pub IsQuiet-youngest :
    (now : ℕ) (rows : List SaltReturn)
    → IsQuiet now rows
    → (y : ℕ) → youngest rows ≡ some y
    → y + complete_after < now
unfolding youngest
IsQuiet-youngest now [] q y e = cc
IsQuiet-youngest now (r ∷ rs) (q, qs) y e = elim (Option-cases r.alter_time) [
  | inl none_here ↦ IsQuiet-youngest now rs qs y (ground arith)
  | inr (a, here) ↦ elim (Option-cases (youngest rs)) [
    | inl last ↦ let below = q a here in ground arith
    | inr (b, more) ↦
        let below = q a here in let rest = IsQuiet-youngest now rs qs b more in ground arith
  ]
]

-- The completion flag that a call leaves.
unfoldable pub done_after : Moment → Job → List SaltReturn → Tables → Bool
done_after m job [] t =
    job.complete
    || (knows_none (master_minions m job.jid) && ltb complete_after (m.now - job.started_at))
done_after m job (r ∷ rs) t =
    (job.complete && is_empty (new_minions job (r ∷ rs) t))
    || is_done m job (r ∷ rs) (known_minions job (r ∷ rs) t)

module _ (m : Moment) (job : Job) (t : Tables) (found : job_by_jid t.jobs job.jid ≡ some job) where
  abbrev pub HasFlag : Bool → Tables → Type 0
  HasFlag b u = job_by_jid u.jobs job.jid ≡ some (record job { complete = b })

  unchanged : (b : Bool) → job.complete ≡ b → HasFlag b t
  unchanged b e = found ∙ ground arith

  decided :
      (rows : List SaltReturn) (b : Bool) (u : Tables)
      → u.jobs ≡ t.jobs
      → HasFlag b (decide_job m job rows b u)
  unfolding with_complete
  decided rows b u e =
      ap (λ js. job_by_jid js job.jid) (decided_jobs m job rows b u)
      ∙ (job-set_complete u.jobs job.jid b
          ∙ ap (λ o. with_complete o b) (ap (λ js. job_by_jid js job.jid) e ∙ found))

  silent-flag : HasFlag (done_after m job [] t) (sync_silent m job t)
  unfolding sync_silent done_after
  silent-flag =
      if-both (HasFlag (done_after m job [] t))
        (not job.complete
          && knows_none (master_minions m job.jid)
          && ltb complete_after (m.now - job.started_at))
        (decide_job m job [] true t) t
        (λ e.
          let on : done_after m job [] t ≡ true = ground arith in
          subst (λ b. HasFlag b (decide_job m job [] true t)) (sym on) (decided [] true t refl))
        (λ e. unchanged _ (ground arith))

  rows-flag :
      (r : SaltReturn) (rs : List SaltReturn)
      → HasFlag (done_after m job (r ∷ rs) t) (sync_rows m job (r ∷ rs) t)
  unfolding sync_rows done_after
  rows-flag r rs =
      let rows = r ∷ rs in
      let done = is_done m job rows (known_minions job rows t) in
      if-both (HasFlag (done_after m job rows t))
        (job.complete && is_empty (new_minions job rows t)) (merged_tables job rows t)
        (decide_job m job rows done (merged_tables job rows t)) (λ e. unchanged _ (ground arith))
        (λ e.
          let same : done_after m job rows t ≡ done = ground arith in
          subst (λ b. HasFlag b (decide_job m job rows done (merged_tables job rows t))) (sym same)
            (decided rows done (merged_tables job rows t) refl))

  found-flag :
      (actor : Option String) (rows : List SaltReturn)
      → HasFlag (done_after m job rows t) (sync_found m actor job.jid (some job) rows t)
  found-flag actor [] = silent-flag
  found-flag actor (r ∷ rs) = rows-flag r rs

  pub sync-flag :
      (actor : Option String)
      → is_synthetic job.jid ≡ false
      → HasFlag
          (done_after m job (returner_rows t.salt_returns job.jid) t)
          (sync_job m job.jid actor t)
  unfolding sync_job
  sync-flag actor e = rw (found, e) (found-flag actor (returner_rows t.salt_returns job.jid))
