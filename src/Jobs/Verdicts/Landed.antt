-- ===== src/Jobs/Verdicts/Landed.antt =====
-- overstate_ui/states.py: what `apply_sync_verdicts` leaves as each minion's verdict, told by the
-- returns, the target and the start times.
use overstate.Prelude.{
  List, All, Bool, Option, String, arith, false, if◌then◌else◌, none, not, refl, some, starts_with,
  true, ℕ, ◌&&◌, ◌≡◌, ◌⊎◌, ◌||◌, Bool-cases, inl, inr, subst, sym, ◌∙◌,
}
use overstate.Jobs.Verdicts.Stamped.{stamped-conformity, verdict_of, updated}
use overstate.Jobs.{Job, SaltReturn, Tables, Conformity, conformity_of}
use overstate.Jobs.Verdicts.{
  has_newer, return_of, type_or_glob, in_roster, status_of, apply_sync_verdicts,
}
use overstate.Jobs.Roster.{resolve_batch_roster}
use overstate.Jobs.Verdicts.Outcomes.{
  HeldByLater, Elsewhere, IsLastReturn, IsTargeted, has_newer-HeldByLater, HeldByLater-has_newer,
  return_of-Found, contains-touched, Found, is_found,
}
use overstate.Jobs.Verdicts.Status.{IsStatus, returned_status-IsStatus}

-- The verdict on a minion after a job has landed.
pub data Landed (now : ℕ) (job : Job) (rows : List SaltReturn) (t : Tables) (mid : String)
    : Option Conformity → Type 0 where
  no_state :
      starts_with job.fun "state." ≡ false
      → Landed now job rows t mid (conformity_of t.conformity mid)
  outdated : HeldByLater t job mid → Landed now job rows t mid (conformity_of t.conformity mid)
  returned :
      (r : SaltReturn) (v : String × Bool)
      → starts_with job.fun "state." ≡ true
      → ¬ HeldByLater t job mid
      → IsLastReturn job.jid rows mid r
      → IsStatus t.watched r v
      → Landed now job rows t mid (some (verdict_of now job v))
  unreachable :
      starts_with job.fun "state." ≡ true
      → ¬ HeldByLater t job mid
      → All (Elsewhere job.jid mid) rows
      → job.complete ≡ true
      → IsTargeted t job mid
      → Landed now job rows t mid (some (verdict_of now job ("unreachable", false)))
  silent :
      All (Elsewhere job.jid mid) rows
      → (job.complete ≡ false) ⊎ (¬ IsTargeted t job mid)
      → Landed now job rows t mid (conformity_of t.conformity mid)

module _ (now : ℕ) (job : Job) (rows : List SaltReturn) (t : Tables) (mid : String) where
  abbrev target : Option (List String)
  target = resolve_batch_roster t.world job.tgt (type_or_glob job.tgt_type)

  in_roster-IsTargeted :
      (o : Option (List String)) → target ≡ o → in_roster o mid ≡ true → IsTargeted t job mid
  in_roster-IsTargeted none e h = absurd (ground arith)
  in_roster-IsTargeted (some ids) e h = (ids, e, h)

  IsTargeted-in_roster : IsTargeted t job mid → in_roster target mid ≡ true
  IsTargeted-in_roster (ids, e, h) = rw e h

  -- The verdict that the loop's search result and test of a later job give.
  abbrev outcome : Option SaltReturn → Bool → Option Conformity
  outcome o newer =
      if (is_found o || (job.complete && in_roster target mid)) && not newer
      then updated now job (status_of job t.watched target o mid) (conformity_of t.conformity mid)
      else conformity_of t.conformity mid

  barred : (o : Option SaltReturn) → outcome o true ≡ conformity_of t.conformity mid
  barred o = ground arith

  unfinished :
      (job.complete && in_roster target mid) ≡ false
      → (job.complete ≡ false) ⊎ (¬ IsTargeted t job mid)
  unfinished h = elim (Bool-cases job.complete) [
    | inl done ↦ inr (λ named. absurd (ground (arith, IsTargeted-in_roster named)))
    | inr running ↦ inl running
  ]

  unanswered-Landed :
      All (Elsewhere job.jid mid) rows
      → starts_with job.fun "state." ≡ true
      → has_newer t job mid ≡ false
      → (b : Bool) → (job.complete && in_roster target mid) ≡ b
      → Landed now job rows t mid (
          if b && true
          then updated now job
              (if b then some ("unreachable", false) else none)
              (conformity_of t.conformity mid)
          else conformity_of t.conformity mid)
  unanswered-Landed l state free true e =
      unreachable state (λ h. absurd (cc (HeldByLater-has_newer t job mid h))) l (ground arith)
        (in_roster-IsTargeted target refl (ground arith))
  unanswered-Landed l state free false e = silent l (unfinished e)

  search-Landed :
      (o : Option SaltReturn)
      → Found job.jid rows mid o
      → starts_with job.fun "state." ≡ true
      → has_newer t job mid ≡ false
      → Landed now job rows t mid (outcome o false)
  unfolding status_of
  search-Landed (some r) l state free =
      returned r _ state (λ h. absurd (cc (HeldByLater-has_newer t job mid h))) l
        (returned_status-IsStatus t.watched r)
  search-Landed none l state free = unanswered-Landed l state free _ refl

  state-Landed :
      starts_with job.fun "state." ≡ true
      → Landed now job rows t mid (outcome (return_of job.jid rows mid) (has_newer t job mid))
  state-Landed state = elim (Bool-cases (has_newer t job mid)) [
    | inl newer ↦
        subst (λ b. Landed now job rows t mid (outcome (return_of job.jid rows mid) b)) (sym newer)
          (subst (Landed now job rows t mid) (sym (barred (return_of job.jid rows mid)))
            (outdated (has_newer-HeldByLater t job mid newer)))
    | inr free ↦
        subst (λ b. Landed now job rows t mid (outcome (return_of job.jid rows mid) b)) (sym free)
          (search-Landed _ (return_of-Found job.jid rows mid) state free)
  ]

-- The verdict on every minion after a job has landed, in full. It is unchanged by a job whose
-- function is no `state.` function, and where the minion is known and holds the verdict of another
-- job that started later. Otherwise it is the status of the minion's last return to the job: by
-- the watched states in it, or by its success mark where there are none. For a minion without a
-- return it is `unreachable` if the job is complete and its target names the
-- minion, and unchanged if not.
pub apply-Landed :
    (now : ℕ) (job : Job) (rows : List SaltReturn) (t : Tables) (mid : String)
    → Landed now job rows t mid (conformity_of (apply_sync_verdicts now job rows t).conformity mid)
apply-Landed now job rows t mid =
    let o = resolve_batch_roster t.world job.tgt (type_or_glob job.tgt_type) in
    let full = stamped-conformity now job rows t mid in
    let members = contains-touched job rows o mid in
    elim (Bool-cases (starts_with job.fun "state.")) [
      | inl state ↦
          subst (Landed now job rows t mid) (sym (full ∙ rw (state, members) refl))
            (state-Landed now job rows t mid state)
      | inr other ↦ subst (Landed now job rows t mid) (sym (full ∙ rw other refl)) (no_state other)
    ]
