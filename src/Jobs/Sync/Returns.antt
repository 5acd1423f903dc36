-- ===== src/Jobs/Sync/Returns.antt =====
-- overstate_ui/jobs_service.py: the returns that `sync_job` copies.
use overstate.Prelude.{
  List, Option, String, none, some, [], ◌∷◌, ◌++◌, ◌≡◌, refl, arith, Bool, true, false, ◌&&◌, ◌==◌,
  eq_iff, if◌then◌else◌, All, eq_refl, ap, subst, sym, ◌∙◌, Bool-cases, if-both, inl, inr, keep,
  ltb, not, ◌-◌,
}
use overstate.Jobs.{JobReturn, SaltReturn, find_return, Job, job_by_jid, returner_rows, Tables}
use overstate.Jobs.Sync.{
  return_row, update_return, merge_one, merge_returns, row_minions, Moment, stored_minions,
  sync_job, sync_rows, sync_silent, is_synthetic, skips, sync_found, new_job, decide_job,
  knows_none, merged_tables, master_minions, complete_after, new_minions, is_done, known_minions,
}
use overstate.Sets.{contains, is_empty}
use overstate.Jobs.Sync.Frame.{verdicts-SameRows}

-- The stored return after a returner row.
abbrev pub after_row : SaltReturn → Option JobReturn → Option JobReturn
after_row r none = some (return_row r)
after_row r (some old) =
    some (record old { success = (return_row r).success; payload = (return_row r).payload })

abbrev pub after_rows : Option SaltReturn → Option JobReturn → Option JobReturn
after_rows none old = old
after_rows (some r) old = after_row r old

-- The row of a minion.
unfoldable pub row_of : List SaltReturn → String → Option SaltReturn
row_of [] mid = none
row_of (r ∷ rs) mid = if r.minion_id == mid then some r else row_of rs mid

abbrev pub is_some : Option JobReturn → Bool
is_some none = false
is_some (some r) = true

find-update :
    (r : SaltReturn) (xs : List JobReturn) (jid mid : String)
    → find_return (update_return r xs) jid mid ≡ (
        if r.jid == jid && r.minion_id == mid
        then elim (find_return xs jid mid) [ none ↦ none | some old ↦ after_row r (some old) ]
        else find_return xs jid mid)
unfolding find_return update_return
find-update r [] jid mid = ground arith
find-update r (x ∷ xs) jid mid = ground (
  arith,
  find-update r xs jid mid,
  eq_iff r.jid jid,
  eq_iff r.minion_id mid,
  eq_iff x.jid jid,
  eq_iff x.minion_id mid,
  eq_iff x.jid r.jid,
  eq_iff x.minion_id r.minion_id,
)

find-append :
    (xs : List JobReturn) (x : JobReturn) (jid mid : String)
    → find_return (xs ++ x ∷ []) jid mid ≡ elim (find_return xs jid mid) [
      | some old ↦ some old
      | none ↦ if x.jid == jid && x.minion_id == mid then some x else none
    ]
unfolding find_return
find-append [] x jid mid = refl
find-append (y ∷ xs) x jid mid = ground (arith, find-append xs x jid mid)

-- The key of the returner's table: one row for each minion of a job.
abbrev pub IsKeyed : List SaltReturn → Type 0
IsKeyed [] = Unit
IsKeyed (r ∷ rs) = (contains (row_minions rs) r.minion_id ≡ false) × IsKeyed rs

abbrev pub IsOf : String → SaltReturn → Type 0
IsOf jid r = r.jid ≡ jid

merge_one-find :
    (stored : List String) (r : SaltReturn) (xs : List JobReturn)
    → contains stored r.minion_id ≡ is_some (find_return xs r.jid r.minion_id)
    → (jid mid : String)
    → find_return (merge_one stored r xs) jid mid ≡ (
        if r.jid == jid && r.minion_id == mid
        then after_row r (find_return xs jid mid)
        else find_return xs jid mid)
unfolding merge_one
merge_one-find stored r xs h jid mid = ground (
  arith,
  find-update r xs jid mid,
  find-append xs (return_row r) jid mid,
  eq_iff r.jid jid,
  eq_iff r.minion_id mid,
)

row_of-absent :
    (rs : List SaltReturn) (mid : String)
    → contains (row_minions rs) mid ≡ false
    → row_of rs mid ≡ none
unfolding row_of contains
row_of-absent [] mid h = refl
row_of-absent (r ∷ rs) mid h = ground (arith, row_of-absent rs mid)

module _ (jid : String) (stored : List String) where
  -- What was stored before the loop is what `stored` names, for the rows that are left.
  abbrev Agrees : List SaltReturn → List JobReturn → Type 0
  Agrees rows xs =
      (mid : String)
      → contains (row_minions rows) mid ≡ true
      → contains stored mid ≡ is_some (find_return xs jid mid)

  at_head :
      (r : SaltReturn) (rs : List SaltReturn) (xs : List JobReturn)
      → r.jid ≡ jid
      → Agrees (r ∷ rs) xs
      → contains stored r.minion_id ≡ is_some (find_return xs r.jid r.minion_id)
  at_head r rs xs same h =
      subst (λ j. contains stored r.minion_id ≡ is_some (find_return xs j r.minion_id)) (sym same)
        (h r.minion_id (unfold contains in ground (arith, eq_refl r.minion_id)))

  next-Agrees :
      (r : SaltReturn) (rs : List SaltReturn) (xs : List JobReturn)
      → r.jid ≡ jid
      → contains (row_minions rs) r.minion_id ≡ false
      → Agrees (r ∷ rs) xs
      → Agrees rs (merge_one stored r xs)
  next-Agrees r rs xs same new h mid e =
      let one = merge_one-find stored r xs (at_head r rs xs same h) jid mid in
      let old = h mid (unfold contains in ground arith) in
      let other : (r.minion_id == mid) ≡ false = ground (arith, eq_iff r.minion_id mid) in
      let kept : find_return (merge_one stored r xs) jid mid ≡ find_return xs jid mid =
        ground arith in
      old ∙ ap is_some (sym kept)

  merge-find :
      (rows : List SaltReturn) (xs : List JobReturn)
      → All (IsOf jid) rows
      → IsKeyed rows
      → Agrees rows xs
      → (j mid : String)
      → find_return (merge_returns stored rows xs) j mid ≡ (
          if jid == j
          then after_rows (row_of rows mid) (find_return xs j mid)
          else find_return xs j mid)
  unfolding merge_returns row_of
  merge-find [] xs a k h j mid = ground arith
  merge-find (r ∷ rs) xs (same, a) (new, k) h j mid =
      let one = merge_one-find stored r xs (at_head r rs xs same h) j mid in
      let rest = merge-find rs (merge_one stored r xs) a k (next-Agrees r rs xs same new h) j mid in
      let key : (r.jid == j) ≡ (jid == j) = ap (λ k. k == j) same in
      ground (arith, one, rest, key, row_of-absent rs mid, eq_iff r.minion_id mid)

pub stored-find :
    (xs : List JobReturn) (jid mid : String)
    → contains (stored_minions xs jid) mid ≡ is_some (find_return xs jid mid)
unfolding contains keep find_return
stored-find [] jid mid = refl
stored-find (x ∷ xs) jid mid =
    ground (arith, stored-find xs jid mid, eq_iff x.jid jid, eq_iff x.minion_id mid)

pub rows-IsOf : (rows : List SaltReturn) (jid : String) → All (IsOf jid) (returner_rows rows jid)
unfolding returner_rows
rows-IsOf [] jid = tt
rows-IsOf (r ∷ rs) jid = elim (Bool-cases (r.jid == jid)) [
  | inl mine ↦ rw mine ((eq_iff r.jid jid).0 mine, rows-IsOf rs jid)
  | inr other ↦ rw other (rows-IsOf rs jid)
]

pub job_by_jid-jid :
    (js : List Job) (jid : String) (j : Job) → job_by_jid js jid ≡ some j → j.jid ≡ jid
unfolding job_by_jid
job_by_jid-jid [] jid j h = cc
job_by_jid-jid (k ∷ js) jid j h = ground (arith, job_by_jid-jid js jid j, eq_iff k.jid jid)

decided_returns :
    (m : Moment) (job : Job) (rows : List SaltReturn) (complete : Bool) (t : Tables)
    → (decide_job m job rows complete t).job_returns ≡ t.job_returns
unfolding decide_job
decided_returns m job rows complete t = (verdicts-SameRows m _ rows _).returns

pub merged_returns :
    (m : Moment) (job : Job) (rows : List SaltReturn) (t : Tables)
    → (sync_rows m job rows t).job_returns ≡ (merged_tables job rows t).job_returns
unfolding sync_rows
merged_returns m job rows t =
    if-both (λ (u : Tables). u.job_returns ≡ (merged_tables job rows t).job_returns)
      (job.complete && is_empty (new_minions job rows t)) (merged_tables job rows t)
      (decide_job m job rows (is_done m job rows (known_minions job rows t))
        (merged_tables job rows t))
      (λ _. refl) (λ _. decided_returns m job rows _ _)

silent_returns :
    (m : Moment) (job : Job) (t : Tables) → (sync_silent m job t).job_returns ≡ t.job_returns
unfolding sync_silent
silent_returns m job t =
    if-both (λ (u : Tables). u.job_returns ≡ t.job_returns)
      (not job.complete
        && knows_none (master_minions m job.jid)
        && ltb complete_after (m.now - job.started_at))
      (decide_job m job [] true t) t (λ _. decided_returns m job [] true t) (λ _. refl)

-- Each minion with a returner row has the row's success flag and payload stored, and every other
-- return is as before.
abbrev pub Copied : String → List SaltReturn → List JobReturn → List JobReturn → Type 0
Copied jid rows old new =
    (j mid : String)
    → find_return new j mid ≡ (
        if jid == j
        then after_rows (row_of rows mid) (find_return old j mid)
        else find_return old j mid)

module _ (m : Moment) (jid : String) where
  Copied-none : (old : List JobReturn) → Copied jid [] old old
  unfolding row_of
  Copied-none old j mid = ground arith

  rows-Copied :
      (job : Job) (rows : List SaltReturn) (t : Tables)
      → job.jid ≡ jid
      → All (IsOf jid) rows
      → IsKeyed rows
      → Copied jid rows t.job_returns (sync_rows m job rows t).job_returns
  rows-Copied job rows t same a k =
      subst (λ returns. Copied jid rows t.job_returns returns)
        (sym (
          merged_returns m job rows t
          ∙ ap (λ i. merge_returns (stored_minions t.job_returns i) rows t.job_returns) same))
        (merge-find jid (stored_minions t.job_returns jid) rows t.job_returns a k
          (λ mid e. stored-find t.job_returns jid mid))

  found-Copied :
      (actor : Option String) (found : Option Job) (rows : List SaltReturn) (t : Tables)
      → ((j : Job) → found ≡ some j → j.jid ≡ jid)
      → All (IsOf jid) rows
      → IsKeyed rows
      → Copied jid rows t.job_returns (sync_found m actor jid found rows t).job_returns
  found-Copied actor none [] t h a k = Copied-none t.job_returns
  found-Copied actor (some job) [] t h a k =
      subst (λ returns. Copied jid [] t.job_returns returns) (sym (silent_returns m job t))
        (Copied-none t.job_returns)
  found-Copied actor none (r ∷ rs) t h a k = rows-Copied (new_job m jid actor r) (r ∷ rs) _ refl a k
  found-Copied actor (some job) (r ∷ rs) t h a k = rows-Copied job (r ∷ rs) t (h job refl) a k

pub not_skipped :
    (jid : String) (found : Option Job)
    → ((j : Job) → found ≡ some j → j.jid ≡ jid)
    → is_synthetic jid ≡ false
    → skips found ≡ false
not_skipped jid none h e = refl
not_skipped jid (some job) h e = ap is_synthetic (h job refl) ∙ e

-- Syncing a real job id copies the returner: where the rows of the id are keyed by minion, as their
-- table demands, each minion with a row has the row's success flag and payload stored afterwards,
-- and every other return, of this job or another one, is as it was.
pub sync_job-Copied :
    (m : Moment) (jid : String) (actor : Option String) (t : Tables)
    → is_synthetic jid ≡ false
    → IsKeyed (returner_rows t.salt_returns jid)
    → Copied jid
        (returner_rows t.salt_returns jid)
        t.job_returns
        (sync_job m jid actor t).job_returns
unfolding sync_job
sync_job-Copied m jid actor t e k =
    let found = job_by_jid t.jobs jid in
    let of_jid = job_by_jid-jid t.jobs jid in
    rw (not_skipped jid found of_jid e) (
      found-Copied m jid actor found (returner_rows t.salt_returns jid) t of_jid
        (rows-IsOf t.salt_returns jid) k)
