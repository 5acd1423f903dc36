-- ===== src/Authz/Targets/Narrowing.antt =====
-- overstate_ui/authz.py: what `constrain_target_verbose` and `constrain_kill` publish.
use overstate.Prelude.{
  ◌≡◌, refl, String, true, false, ◌&&◌, Option, none, some, List, ◌==◌, arith, ◌⊎◌, inl, inr,
  Bool-cases, eq_iff,
}
use overstate.Text.{strip, join}
use overstate.Sets.{
  contains, inter, subset, is_empty, contains-inter, subset-contains, is_empty-contains,
}
use overstate.Sets.Sorting.{sorted}
use overstate.Store.{World, User}
use overstate.Authz.Scopes.{snapshot_ids}
use overstate.Authz.Decide.{has_fleet, minions_with, decide}
use overstate.Authz.Decide.Agreement.{minions_with_sound}
use overstate.Authz.Targets.{
  Denied, reason_detail, authz_denied, Result, ok, denied, Target, requested_ids, narrow,
  constrain_target_verbose, kill_ids, kill_within, constrain_kill, published_snapshot_ids,
}

-- What a narrowed target is: a list of authorized minions that the request names.
pub record IsNarrowed (w : World) (user : User) (perm tgt tgt_type : String) (t : Target)
    : Type 0 where
  pub asked : List String
  pub hit : List String
  pub resolved : requested_ids w perm tgt tgt_type ≡ ok asked
  pub reported : (t.requested ≡ some asked) × (t.hit ≡ some hit)
  pub list : t.tgt_type ≡ "list"
  pub text : t.tgt ≡ join (sorted hit)
  pub not_empty : is_empty hit ≡ false
  pub named : (mid : String) → contains hit mid ≡ true → contains asked mid ≡ true
  pub allowed :
      (mid : String) (path : Option String)
      → contains hit mid ≡ true
      → (contains (snapshot_ids w) mid ≡ true) × (decide w user perm (some mid) path ≡ true)
  pub all_allowed :
      (mid : String)
      → contains asked mid ≡ true
      → contains (minions_with w user perm) mid ≡ true
      → contains hit mid ≡ true

Result-cases {ℓ} :
    {A : Type ℓ} (r : Result A) → ((a : A) × (r ≡ ok a)) ⊎ ((d : Denied) × (r ≡ denied d))
Result-cases (ok a) = inl (a, refl)
Result-cases (denied d) = inr (d, refl)

inter-right : (a b : List String) (x : String) → contains (inter a b) x ≡ true → contains b x ≡ true
inter-right a b x h = ground (arith, contains-inter a b x)

module _ (w : World) (user : User) where
  narrow-IsNarrowed :
      (perm tgt tgt_type : String) (asked : List String) (t : Target)
      → requested_ids w perm tgt tgt_type ≡ ok asked
      → narrow perm (minions_with w user perm) asked ≡ ok t
      → IsNarrowed w user perm tgt tgt_type t
  unfolding narrow
  narrow-IsNarrowed perm tgt tgt_type asked t r h =
      let allowed = minions_with w user perm in
      let hit = inter asked allowed in
      elim (Bool-cases (is_empty hit)) [
        | inl gone ↦ cc (rw (gone, narrow) at h)
        | inr some_hit ↦ record {
          asked = asked;
          hit = hit;
          resolved = r;
          reported = (ground arith, ground arith);
          list = ground arith;
          text = ground arith;
          not_empty = some_hit;
          named = λ mid e. ground (arith, contains-inter asked allowed mid);
          allowed = λ mid path e.
              minions_with_sound w perm mid user path (inter-right asked allowed mid e);
          all_allowed = λ mid e f. ground (arith, contains-inter asked allowed mid);
        }
      ]

  -- A target that is published is the caller's own text, under a fleet grant of the permission, or
  -- a list of minions, each of which is in the snapshot, is named by the request and is authorized
  -- for the permission; and no minion that is both named and held is left out.
  pub constrain_target_safe :
      (perm tgt tgt_type : String) (t : Target)
      → constrain_target_verbose w user perm tgt tgt_type ≡ ok t
      → ((has_fleet w user perm ≡ true) × (t.tgt ≡ tgt) × (t.tgt_type ≡ tgt_type))
        ⊎ IsNarrowed w user perm tgt tgt_type t
  unfolding constrain_target_verbose
  constrain_target_safe perm tgt tgt_type t h = elim (Bool-cases (has_fleet w user perm)) [
    | inl all ↦ inl (all, ground arith, ground arith)
    | inr scoped ↦ elim (Result-cases (requested_ids w perm tgt tgt_type)) [
      | inl (asked, resolved) ↦
          inr (narrow-IsNarrowed perm tgt tgt_type asked t resolved (ground arith))
      | inr (d, refused) ↦ absurd (ground arith)
    ]
  ]

  requested_ids-detail :
      (perm tgt tgt_type : String) (d : Denied)
      → requested_ids w perm tgt tgt_type ≡ denied d
      → (d.perm ≡ perm) × (d.detail ≡ "needs-fleet")
  unfolding requested_ids authz_denied reason_detail
  requested_ids-detail perm tgt tgt_type d h = ground arith

  no_overlap :
      (a b : List String) (x : String)
      → is_empty (inter a b) ≡ true
      → contains a x ≡ true
      → contains b x ≡ false
  no_overlap a b x h e = ground (arith, contains-inter a b x, is_empty-contains (inter a b) x)

  -- A refusal is never made to a holder of a fleet grant. It names the permission, and either the
  -- target type cannot be evaluated here, or no minion is both named and held.
  pub constrain_target_refusal :
      (perm tgt tgt_type : String) (d : Denied)
      → constrain_target_verbose w user perm tgt tgt_type ≡ denied d
      → (has_fleet w user perm ≡ false)
        × (d.perm ≡ perm)
        × (((requested_ids w perm tgt tgt_type ≡ denied d) × (d.detail ≡ "needs-fleet"))
            ⊎ ((asked : List String) × (requested_ids w perm tgt tgt_type ≡ ok asked)
                × (d.detail ≡ "empty-intersection")
                × ((mid : String)
                    → contains asked mid ≡ true
                    → contains (minions_with w user perm) mid ≡ false)))
  unfolding constrain_target_verbose narrow authz_denied reason_detail
  constrain_target_refusal perm tgt tgt_type d h = elim (Bool-cases (has_fleet w user perm)) [
    | inl all ↦ absurd (ground arith)
    | inr scoped ↦ elim (Result-cases (requested_ids w perm tgt tgt_type)) [
      | inl (asked, resolved) ↦
          let gone : is_empty (inter asked (minions_with w user perm)) ≡ true = ground arith in
          (
            scoped,
            ground arith,
            inr (
              asked,
              resolved,
              ground arith,
              λ mid e. no_overlap asked (minions_with w user perm) mid gone e,
            ),
          )
      | inr (e, refused) ↦
          let same : e ≡ d = ground arith in
          let (named, fleet_only) = requested_ids-detail perm tgt tgt_type e refused in
          (scoped, ground arith, inl (ground arith, ground arith))
    ]
  ]

  kill_ids-published :
      (tgt tgt_type : String) (ids : List String)
      → kill_ids w tgt tgt_type ≡ ok ids
      → published_snapshot_ids w (some tgt) (some tgt_type) ≡ some ids
  unfolding kill_ids published_snapshot_ids
  kill_ids-published tgt tgt_type ids h =
      ground (arith, eq_iff tgt_type "grain", eq_iff tgt_type "list")

  -- A kill that is published repeats the stored target under a fleet `job.kill`. Otherwise the
  -- stored target is not the glob `*`, every snapshot minion that it names is authorized for
  -- `job.kill`, there is one, and the kill goes to all of them and to nobody else. The snapshot
  -- minions are those of `published_snapshot_ids`: other ids of a stored list are left out.
  pub constrain_kill_safe :
      (tgt tgt_type : String) (out : String × String)
      → constrain_kill w user tgt tgt_type ≡ ok out
      → ((has_fleet w user "job.kill" ≡ true) × (out ≡ (tgt, tgt_type)))
        ⊎ ((ids : List String) × (published_snapshot_ids w (some tgt) (some tgt_type) ≡ some ids)
            × ((tgt_type == "glob" && strip tgt == "*") ≡ false)
            × (out ≡ (join (sorted ids), "list"))
            × (is_empty ids ≡ false)
            × ((mid : String)
                → contains ids mid ≡ true
                → decide w user "job.kill" (some mid) none ≡ true))
  unfolding constrain_kill kill_within
  constrain_kill_safe tgt tgt_type out h = elim (Bool-cases (has_fleet w user "job.kill")) [
    | inl all ↦ inl (all, ground arith)
    | inr scoped ↦ elim (Result-cases (kill_ids w tgt tgt_type)) [
      | inl (ids, resolved) ↦
          let within : subset ids (minions_with w user "job.kill") ≡ true = ground arith in
          inr (
            ids,
            kill_ids-published tgt tgt_type ids resolved,
            ground arith,
            ground arith,
            ground arith,
            λ mid e.
                (minions_with_sound w "job.kill" mid user none
                  (subset-contains ids (minions_with w user "job.kill") mid within e)).1,
          )
      | inr (d, refused) ↦ absurd (ground arith)
    ]
  ]
