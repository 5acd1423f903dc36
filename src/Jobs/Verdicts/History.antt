-- ===== src/Jobs/Verdicts/History.antt =====
-- overstate_ui/states.py: the length of the trail that `_record_history` keeps.
use overstate.Prelude.{
  List, Option, String, Bool, none, some, [], ◌∷◌, ◌≡◌, ◌≤◌, arith, false, ◌==◌, ℕ, zero, suc,
  if◌then◌else◌, eq_iff, if-both, starts_with, Bool-cases, inl, inr, subst,
}
use overstate.Jobs.{Job, SaltReturn, Tables, Verdict}
use overstate.Jobs.Verdicts.{
  apply_sync_verdicts, has_newer, history_limit, prune, record_history, return_of, stamp, stamp_all,
  stamp_with, status_of, write_verdict,
}

-- The rows of a minion.
unfoldable pub trail : List Verdict → String → ℕ
trail [] mid = 0
trail (v ∷ vs) mid = let n = trail vs mid in if v.minion_id == mid then suc n else n

prune-le : (mid : String) (left : ℕ) (vs : List Verdict) → trail (prune mid left vs) mid ≤ left
unfolding trail prune
prune-le mid zero [] = omega arith
prune-le mid (suc left) [] = omega arith
prune-le mid zero (v ∷ vs) = ground (arith, prune-le mid zero vs)
prune-le mid (suc left) (v ∷ vs) = ground (arith, prune-le mid left vs, prune-le mid (suc left) vs)

prune-other :
    (mid : String) (left : ℕ) (vs : List Verdict) (other : String)
    → (mid == other) ≡ false
    → trail (prune mid left vs) other ≡ trail vs other
unfolding trail prune
prune-other mid zero [] other h = omega arith
prune-other mid (suc left) [] other h = omega arith
prune-other mid zero (v ∷ vs) other h = ground (
  arith,
  prune-other mid zero vs other,
  eq_iff v.minion_id mid,
  eq_iff v.minion_id other,
  eq_iff mid other,
)
prune-other mid (suc left) (v ∷ vs) other h = ground (
  arith,
  prune-other mid left vs other,
  prune-other mid (suc left) vs other,
  eq_iff v.minion_id mid,
  eq_iff v.minion_id other,
  eq_iff mid other,
)

-- No minion has more than HISTORY_LIMIT rows.
abbrev pub IsBounded : List Verdict → Type 0
IsBounded vs = (mid : String) → trail vs mid ≤ history_limit

record-IsBounded :
    (mid jid status : String) (now : ℕ) (vs : List Verdict)
    → IsBounded vs
    → IsBounded (record_history mid jid status now vs)
unfolding record_history trail
record-IsBounded mid jid status now vs h other =
    let row : Verdict = record { minion_id = mid; jid = jid; status = status; checked_at = now } in
    elim (Bool-cases (mid == other)) [
      | inl same ↦
          subst (λ m. trail (prune mid history_limit (row ∷ vs)) m ≤ history_limit)
            ((eq_iff mid other).0 same) (prune-le mid history_limit (row ∷ vs))
      | inr different ↦
          let kept = prune-other mid history_limit (row ∷ vs) other different in
          let before = h other in ground arith
    ]

module _ (now : ℕ) (job : Job) where
  with-IsBounded :
      (mid : String) (o : Option (String × Bool)) (t : Tables)
      → IsBounded t.history
      → IsBounded (stamp_with now job mid o t).history
  unfolding write_verdict
  with-IsBounded mid none t h = h
  with-IsBounded mid (some (status, partial)) t h =
      if-both (λ (u : Tables). IsBounded u.history) (has_newer t job mid) t
        (write_verdict now job mid (status, partial) t) (λ _. h)
        (λ _. record-IsBounded mid job.jid status now t.history h)

  all-IsBounded :
      (rows : List SaltReturn) (watched : List String) (roster : Option (List String))
      (mids : List String) (t : Tables)
      → IsBounded t.history
      → IsBounded (stamp_all now job rows watched roster mids t).history
  unfolding stamp_all stamp
  all-IsBounded rows watched roster [] t h = h
  all-IsBounded rows watched roster (mid ∷ mids) t h =
      all-IsBounded rows watched roster mids _
        (with-IsBounded mid (status_of job watched roster (return_of job.jid rows mid) mid) t h)

  -- Where no minion has more than HISTORY_LIMIT rows in the verdict trail before a job lands, none has
  -- more afterwards.
  pub apply-IsBounded :
      (rows : List SaltReturn) (t : Tables)
      → IsBounded t.history
      → IsBounded (apply_sync_verdicts now job rows t).history
  unfolding apply_sync_verdicts
  apply-IsBounded rows t h =
      if-both (λ (u : Tables). IsBounded u.history) (starts_with job.fun "state.") _ t
        (λ _. all-IsBounded rows _ _ _ t h) (λ _. h)
