-- ===== src/Jobs/Verdicts/Outcomes.antt =====
-- overstate_ui/states.py: what decides a verdict in `apply_sync_verdicts`: a later job, the last
-- return and the target.
use overstate.Prelude.{
  List, All, Bool, Option, String, [], ap, arith, eq_iff, false, if-both, if◌then◌else◌, keep, map,
  none, not, refl, some, true, ◌&&◌, ◌++◌, ◌<◌, ◌==◌, ◌∷◌, ◌≡◌, ltb, ◌||◌,
}
use overstate.Jobs.{Job, SaltReturn, Tables, Conformity, conformity_of, job_by_jid}
use overstate.Jobs.Verdicts.{
  has_newer, return_of, type_or_glob, held_by, started_later, in_roster, touched, roster_ids,
}
use overstate.Sets.{contains, from_list, contains-from_list, contains-union}
use overstate.Jobs.Roster.{resolve_batch_roster, minion_ids}

-- The minion is known, and its verdict is that of another job, which started later.
pub record HeldByLater (t : Tables) (job : Job) (mid : String) : Type 0 where
  pub verdict : Conformity
  pub other : Job
  pub known : contains (minion_ids t.world) mid ≡ true
  pub held : conformity_of t.conformity mid ≡ some verdict
  pub named : (verdict.jid == "") ≡ false
  pub not_own : (verdict.jid == job.jid) ≡ false
  pub found : job_by_jid t.jobs verdict.jid ≡ some other
  pub later : job.started_at < other.started_at

-- The row is no return of the minion to the job.
abbrev pub Elsewhere : String → String → SaltReturn → Type 0
Elsewhere jid mid r = (r.jid == jid && r.minion_id == mid) ≡ false

-- The last of the rows that is the minion's return to the job.
pub record IsLastReturn (jid : String) (rows : List SaltReturn) (mid : String) (r : SaltReturn)
    : Type 0 where
  pub before : List SaltReturn
  pub after : List SaltReturn
  pub split : rows ≡ before ++ r ∷ after
  pub same_jid : r.jid ≡ jid
  pub same_minion : r.minion_id ≡ mid
  pub last : All (Elsewhere jid mid) after

-- The minion is one of those that the job's target names.
abbrev pub IsTargeted : Tables → Job → String → Type 0
IsTargeted t job mid =
    (ids : List String) × (resolve_batch_roster t.world job.tgt (type_or_glob job.tgt_type)
      ≡ some ids)
    × (contains ids mid ≡ true)

held_by-HeldByLater :
    (t : Tables) (job : Job) (mid : String) (o : Option Conformity)
    → contains (minion_ids t.world) mid ≡ true
    → conformity_of t.conformity mid ≡ o
    → held_by t job o ≡ true
    → HeldByLater t job mid
held_by-HeldByLater t job mid none known e h = absurd (ground arith)
held_by-HeldByLater t job mid (some c) known e h =
    started-HeldByLater t job mid c known e (job_by_jid t.jobs c.jid) refl h
  where
    started-HeldByLater :
        (t : Tables) (job : Job) (mid : String) (c : Conformity)
        → contains (minion_ids t.world) mid ≡ true
        → conformity_of t.conformity mid ≡ some c
        → (o : Option Job) → job_by_jid t.jobs c.jid ≡ o
        → (not (c.jid == "") && not (c.jid == job.jid) && started_later job o) ≡ true
        → HeldByLater t job mid
    started-HeldByLater t job mid c known e none f h = absurd (ground arith)
    started-HeldByLater t job mid c known e (some other) f h = record {
      verdict = c;
      other = other;
      known = known;
      held = e;
      named = ground arith;
      not_own = ground arith;
      found = f;
      later = ground arith;
    }

pub has_newer-HeldByLater :
    (t : Tables) (job : Job) (mid : String) → has_newer t job mid ≡ true → HeldByLater t job mid
unfolding has_newer
has_newer-HeldByLater t job mid h =
    held_by-HeldByLater t job mid (conformity_of t.conformity mid) (ground arith) refl
      (ground arith)

pub HeldByLater-has_newer :
    (t : Tables) (job : Job) (mid : String) → HeldByLater t job mid → has_newer t job mid ≡ true
unfolding has_newer
HeldByLater-has_newer t job mid h =
    let later : ltb job.started_at h.other.started_at ≡ true = ground (arith, h.later) in
    simp (h.known, h.held, h.named, h.not_own, h.found, later)

-- What the search for a minion's return gives.
abbrev pub Found : String → List SaltReturn → String → Option SaltReturn → Type 0
Found jid rows mid none = All (Elsewhere jid mid) rows
Found jid rows mid (some r) = IsLastReturn jid rows mid r

pub return_of-Found :
    (jid : String) (rows : List SaltReturn) (mid : String)
    → Found jid rows mid (return_of jid rows mid)
unfolding return_of
return_of-Found jid [] mid = tt
return_of-Found jid (r ∷ rows) mid = step (return_of jid rows mid) (return_of-Found jid rows mid)
  where
    step :
        (o : Option SaltReturn)
        → Found jid rows mid o
        → Found jid (r ∷ rows) mid (elim o [
          | some later ↦ some later
          | none ↦ if r.jid == jid && r.minion_id == mid then some r else none
        ])
    step (some s) l = record {
      before = r ∷ l.before;
      after = l.after;
      split = ap (λ xs. r ∷ xs) l.split;
      same_jid = l.same_jid;
      same_minion = l.same_minion;
      last = l.last;
    }
    step none l =
        if-both (Found jid (r ∷ rows) mid) (r.jid == jid && r.minion_id == mid) (some r) none
          (λ here. record {
            before = [];
            after = rows;
            split = refl;
            same_jid = ground (arith, eq_iff r.jid jid);
            same_minion = ground (arith, eq_iff r.minion_id mid);
            last = l;
          })
          (λ other. (other, l))

abbrev pub is_found : Option SaltReturn → Bool
is_found none = false
is_found (some r) = true

contains-returned :
    (jid : String) (rows : List SaltReturn) (mid : String)
    → contains (map (λ r. r.minion_id) (keep (λ r. r.jid == jid) rows)) mid
      ≡ is_found (return_of jid rows mid)
unfolding contains keep return_of
contains-returned jid [] mid = refl
contains-returned jid (r ∷ rows) mid = ground (arith, contains-returned jid rows mid)

roster_ids-in_roster :
    (o : Option (List String)) (mid : String)
    → contains (from_list (roster_ids o)) mid ≡ in_roster o mid
unfolding contains from_list
roster_ids-in_roster none mid = refl
roster_ids-in_roster (some ids) mid = contains-from_list ids mid

pub contains-touched :
    (job : Job) (rows : List SaltReturn) (o : Option (List String)) (mid : String)
    → contains (touched job rows o) mid
      ≡ (is_found (return_of job.jid rows mid) || (job.complete && in_roster o mid))
unfolding touched
contains-touched job rows o mid =
    let returned = contains-returned job.jid rows mid in
    let ids = map (λ (r : SaltReturn). r.minion_id) (keep (λ r. r.jid == job.jid) rows) in
    let same = contains-from_list ids mid in
    let both = contains-union (from_list ids) (from_list (roster_ids o)) mid in
    let inside = roster_ids-in_roster o mid in ground arith
