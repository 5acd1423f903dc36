-- ===== src/Jobs/Verdicts/Stamped.antt =====
-- overstate_ui/states.py: the verdict of each minion after `apply_sync_verdicts`.
use overstate.Prelude.{
  List, Option, String, Bool, none, some, [], ◌∷◌, ◌≡◌, ◌∙◌, ◌++◌, ap, refl, arith, true, false,
  not, ◌&&◌, ◌==◌, ℕ, if◌then◌else◌, eq_iff, starts_with, Bool-cases, if-both, inl, inr, eq_refl,
}
use mathlib.Core.List.{map-append}
use overstate.Sets.{contains}
use overstate.Sets.Sorting.{sorted, contains-sorted}
use overstate.Store.{World}
use overstate.Jobs.{Conformity, Job, SaltReturn, Tables, conformity_of, set_conformity}
use overstate.Jobs.Roster.{minion_ids, resolve_batch_roster}
use overstate.Jobs.Verdicts.{
  apply_sync_verdicts, has_newer, return_of, stamp, stamp_all, stamp_with, status_of, touched,
  type_or_glob, with_minion, write_verdict,
}

conformity-set :
    (id : String) (c : Conformity) (rows : List (String × Conformity)) (mid : String)
    → conformity_of (set_conformity id c rows) mid
      ≡ (if id == mid then some c else conformity_of rows mid)
unfolding conformity_of set_conformity
conformity-set id c [] mid = refl
conformity-set id c ((k, d) ∷ rows) mid =
    ground (arith, conformity-set id c rows mid, eq_iff k id, eq_iff k mid, eq_iff id mid)

contains-snoc :
    (xs : List String) (x mid : String)
    → (x == mid) ≡ false
    → contains (xs ++ x ∷ []) mid ≡ contains xs mid
unfolding contains
contains-snoc [] x mid h = ground arith
contains-snoc (y ∷ xs) x mid h = ground (arith, contains-snoc xs x mid h)

minion_ids-with :
    (w : World) (x mid : String)
    → (x == mid) ≡ false
    → contains (minion_ids (with_minion x w)) mid ≡ contains (minion_ids w) mid
unfolding with_minion
minion_ids-with w x mid h =
    if-both (λ (v : World). contains (minion_ids v) mid ≡ contains (minion_ids w) mid)
      (contains (minion_ids w) x) w _ (λ _. refl)
      (λ _.
        ap (λ ids. contains ids mid) (map-append _ w.minions _)
        ∙ contains-snoc (minion_ids w) x mid h)

module _ (now : ℕ) (job : Job) where
  -- The document that a verdict of the job writes.
  abbrev pub verdict_of : String × Bool → Conformity
  verdict_of v = record {
    status = v.0;
    jid = job.jid;
    checked_at = some now;
    targeted = true;
    partial = v.1;
  }

  abbrev pub updated : Option (String × Bool) → Option Conformity → Option Conformity
  updated none old = old
  updated (some v) old = some (verdict_of v)

  written_conformity :
      (x : String) (v : String × Bool) (t : Tables) (mid : String)
      → conformity_of (write_verdict now job x v t).conformity mid
        ≡ (if x == mid then some (verdict_of v) else conformity_of t.conformity mid)
  unfolding write_verdict
  written_conformity x (status, partial) t mid =
      conformity-set x (verdict_of (status, partial)) t.conformity mid

  with-conformity :
      (x : String) (o : Option (String × Bool)) (t : Tables) (mid : String)
      → conformity_of (stamp_with now job x o t).conformity mid ≡ (
          if x == mid && not (has_newer t job x)
          then updated o (conformity_of t.conformity mid)
          else conformity_of t.conformity mid)
  with-conformity x none t mid = ground arith
  with-conformity x (some v) t mid = ground (arith, written_conformity x v t mid)

  written_newer :
      (x status : String) (partial : Bool) (t : Tables) (mid : String)
      → has_newer t job x ≡ false
      → has_newer (write_verdict now job x (status, partial) t) job mid ≡ has_newer t job mid
  unfolding has_newer write_verdict
  written_newer x status partial t mid h = elim (Bool-cases (x == mid)) [
    | inl same ↦
        let own = (eq_iff x mid).0 same in
        let kept = conformity-set x (verdict_of (status, partial)) t.conformity mid in
        ground (arith, own, kept, eq_refl job.jid)
    | inr other ↦
        let ids = minion_ids-with t.world x mid other in
        let kept = conformity-set x (verdict_of (status, partial)) t.conformity mid in
        let same : conformity_of (set_conformity x (verdict_of (status, partial)) t.conformity) mid
            ≡ conformity_of t.conformity mid =
          ground arith in
        rw (ids, same) refl
  ]

  -- Whether a later job holds a minion's verdict is the same throughout the loop.
  with-newer :
      (x : String) (o : Option (String × Bool)) (t : Tables) (mid : String)
      → has_newer (stamp_with now job x o t) job mid ≡ has_newer t job mid
  with-newer x none t mid = refl
  with-newer x (some (status, partial)) t mid =
      if-both (λ u. has_newer u job mid ≡ has_newer t job mid) (has_newer t job x) t
        (write_verdict now job x (status, partial) t) (λ _. refl)
        (λ h. written_newer x status partial t mid h)

  updated_twice :
      (o : Option (String × Bool)) (old : Option Conformity)
      → updated o (updated o old) ≡ updated o old
  updated_twice none old = refl
  updated_twice (some v) old = refl

  module _ (rows : List SaltReturn) (watched : List String) (roster : Option (List String)) where
    abbrev pub verdict : String → Option (String × Bool)
    verdict mid = status_of job watched roster (return_of job.jid rows mid) mid

    all-conformity :
        (mids : List String) (t : Tables) (mid : String)
        → conformity_of (stamp_all now job rows watched roster mids t).conformity mid ≡ (
            if contains mids mid && not (has_newer t job mid)
            then updated (verdict mid) (conformity_of t.conformity mid)
            else conformity_of t.conformity mid)
    unfolding stamp_all stamp contains
    all-conformity [] t mid = ground arith
    all-conformity (x ∷ mids) t mid =
        let u = stamp_with now job x (verdict x) t in
        let rest = all-conformity mids u mid in
        let newer = with-newer x (verdict x) t mid in
        let here = with-conformity x (verdict x) t mid in
        elim (Bool-cases (x == mid)) [
          | inl same ↦
              let own : has_newer t job x ≡ has_newer t job mid =
                ap (has_newer t job) ((eq_iff x mid).0 same) in
              let alike : verdict x ≡ verdict mid = ap verdict ((eq_iff x mid).0 same) in
              let twice = updated_twice (verdict mid) (conformity_of t.conformity mid) in
              ground arith
          | inr other ↦ ground arith
        ]

  pub stamped-conformity :
      (rows : List SaltReturn) (t : Tables) (mid : String)
      → let roster = resolve_batch_roster t.world job.tgt (type_or_glob job.tgt_type) in
        conformity_of (apply_sync_verdicts now job rows t).conformity mid ≡ (
          if starts_with job.fun "state."
            && contains (touched job rows roster) mid
            && not (has_newer t job mid)
          then updated
              (status_of job t.watched roster (return_of job.jid rows mid) mid)
              (conformity_of t.conformity mid)
          else conformity_of t.conformity mid)
  unfolding apply_sync_verdicts
  stamped-conformity rows t mid =
      let roster = resolve_batch_roster t.world job.tgt (type_or_glob job.tgt_type) in
      let mids = sorted (touched job rows roster) in
      let all = all-conformity rows t.watched roster mids t mid in
      let members = contains-sorted (touched job rows roster) mid in
      elim (Bool-cases (starts_with job.fun "state.")) [
        | inl state ↦ rw state (all ∙ rw members refl)
        | inr other ↦ rw other refl
      ]
