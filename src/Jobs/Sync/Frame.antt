-- ===== src/Jobs/Sync/Frame.antt =====
-- overstate_ui/jobs_service.py and overstate_ui/states.py: the tables that verdicts leave alone.
use overstate.Prelude.{
  List, Option, String, none, some, [], ◌∷◌, ◌≡◌, ℕ, if-both, refl, starts_with, ◌∙◌, Bool,
}
use overstate.Jobs.{Job, SaltReturn, Tables}
use overstate.Jobs.Verdicts.{
  apply_sync_verdicts, has_newer, stamp, stamp_all, stamp_with, status_of, write_verdict, return_of,
}
use overstate.Jobs.Sync.{Moment, verdicts_of, verdicts_eligible}

-- What a run of `apply_sync_verdicts` only reads.
pub record SameRows (t u : Tables) : Type 0 where
  pub jobs : u.jobs ≡ t.jobs
  pub returns : u.job_returns ≡ t.job_returns
  pub returner : u.salt_returns ≡ t.salt_returns
  pub watched : u.watched ≡ t.watched

same : (t : Tables) → SameRows t t
same t = record { jobs = refl; returns = refl; returner = refl; watched = refl }

then_same : (t u v : Tables) → SameRows t u → SameRows u v → SameRows t v
then_same t u v a b = record {
  jobs = b.jobs ∙ a.jobs;
  returns = b.returns ∙ a.returns;
  returner = b.returner ∙ a.returner;
  watched = b.watched ∙ a.watched;
}

module _ (now : ℕ) (job : Job) where
  written :
      (mid : String) (v : String × Bool) (t : Tables) → SameRows t (write_verdict now job mid v t)
  unfolding write_verdict
  written mid (status, partial) t = record {
    jobs = refl;
    returns = refl;
    returner = refl;
    watched = refl;
  }

  stamp_with-SameRows :
      (mid : String) (o : Option (String × Bool)) (t : Tables)
      → SameRows t (stamp_with now job mid o t)
  stamp_with-SameRows mid none t = same t
  stamp_with-SameRows mid (some v) t =
      if-both (SameRows t) (has_newer t job mid) t (write_verdict now job mid v t) (λ _. same t)
        (λ _. written mid v t)

  stamp_all-SameRows :
      (rows : List SaltReturn) (watched : List String) (roster : Option (List String))
      (mids : List String) (t : Tables)
      → SameRows t (stamp_all now job rows watched roster mids t)
  unfolding stamp_all stamp
  stamp_all-SameRows rows watched roster [] t = same t
  stamp_all-SameRows rows watched roster (mid ∷ mids) t =
      then_same t _ _
        (stamp_with-SameRows mid (status_of job watched roster (return_of job.jid rows mid) mid) t)
        (stamp_all-SameRows rows watched roster mids _)

  pub apply-SameRows :
      (rows : List SaltReturn) (t : Tables) → SameRows t (apply_sync_verdicts now job rows t)
  unfolding apply_sync_verdicts
  apply-SameRows rows t =
      if-both (SameRows t) (starts_with job.fun "state.") _ t (λ _. stamp_all-SameRows rows _ _ _ t)
        (λ _. same t)

pub verdicts-SameRows :
    (m : Moment) (job : Job) (rows : List SaltReturn) (t : Tables)
    → SameRows t (verdicts_of m job rows t)
verdicts-SameRows m job rows t =
    if-both (SameRows t) (verdicts_eligible job) _ t (λ _. apply-SameRows m.now job rows t)
      (λ _. same t)
