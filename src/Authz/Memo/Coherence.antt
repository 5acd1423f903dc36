-- ===== src/Authz/Memo/Coherence.antt =====
-- overstate_ui/authz.py: the memos beside the rows.
use mathlib.Core.Option.{some-injective}
use overstate.Prelude.{
  Bool, List, Option, String, [], ap, arith, eq_iff, if◌then◌else◌, none, refl, some, true, ℕ, ◌=?◌,
  ◌∷◌, ◌≡◌, if-both, sym, ◌∙◌, false, not,
}
use overstate.Store.{World, User}
use overstate.Authz.Catalog.{is_perm}
use overstate.Authz.Entries.{Entry, grant_entries, effective_entries}
use overstate.Authz.Decide.{decide}
use overstate.Authz.Memo.{
  Key, Memo, key_eq, opt_eq, find_entries, find_decision, rows_of, recalled_entries, authorize,
  keep_entries, evaluate, keep_decision, recall, decided,
}

-- The user objects of a request agree with the rows of the users table.
unfoldable pub user_role : List User → ℕ → Option String
user_role [] uid = none
user_role (u ∷ us) uid = if u.id =? uid then some u.role else user_role us uid

pub record IsCurrent (w : World) (user : User) : Type 0 where
  pub role : user_role w.users user.id ≡ some user.role

-- Every memoized value is what the rows give now.
pub record IsCoherent (w : World) (m : Memo) : Type 0 where
  pub entries :
      (user : User) (es : List Entry)
      → find_entries user.id (rows_of m.grant_entries) ≡ some es
      → es ≡ grant_entries w user
  pub decisions :
      (user : User) (perm : String) (minion prefix : Option String) (b : Bool)
      → IsCurrent w user
      → find_decision
          (record { uid = user.id; perm = perm; minion = minion; prefix = prefix })
          (rows_of m.authz_cache)
        ≡ some b
      → b ≡ decide w user perm minion prefix

-- A request starts without memos.
pub IsCoherent-empty :
    (w : World) → IsCoherent w (record { grant_entries = none; authz_cache = none })
unfolding find_entries find_decision
IsCoherent-empty w = record {
  entries = λ user es e. cc;
  decisions = λ user perm minion prefix b c e. cc;
}

opt_eq-eq : (a b : Option String) → opt_eq a b ≡ true → a ≡ b
opt_eq-eq none none h = refl
opt_eq-eq none (some t) h = cc
opt_eq-eq (some s) none h = cc
opt_eq-eq (some s) (some t) h = ap some ((eq_iff s t).0 h)

key_eq-eq : (a b : Key) → key_eq a b ≡ true → a ≡ b
unfolding key_eq
key_eq-eq a b h =
    ground (arith, eq_iff a.perm b.perm, opt_eq-eq a.minion b.minion, opt_eq-eq a.prefix b.prefix)

pub grant_entries-id :
    (w : World) (u v : User) → u.id ≡ v.id → grant_entries w u ≡ grant_entries w v
unfolding grant_entries
grant_entries-id w u v h = rw h

decide-same :
    (w : World) (u v : User) (perm : String) (minion prefix : Option String)
    → u.id ≡ v.id
    → u.role ≡ v.role
    → decide w u perm minion prefix ≡ decide w v perm minion prefix
unfolding decide effective_entries
decide-same w u v perm minion prefix h k = rw (grant_entries-id w u v h, k)

module _ (w : World) (user : User) where
  stored-IsCoherent :
      (m : Memo) → IsCoherent w m → IsCoherent w (keep_entries user.id (grant_entries w user) m)
  unfolding find_entries
  stored-IsCoherent m ok = record {
    entries = λ v es e. ground (arith, ok.entries v es, grant_entries-id w user v);
    decisions = ok.decisions;
  }

  same-IsCoherent :
      (m : Memo)
      → IsCoherent w m
      → IsCoherent w (record m { grant_entries = some (rows_of m.grant_entries) })
  same-IsCoherent m ok = record { entries = ok.entries; decisions = ok.decisions }

  abbrev IsRecalled : List Entry × Memo → Type 0
  IsRecalled r = (r.0 ≡ grant_entries w user) × IsCoherent w r.1

  recall-IsRecalled :
      (m : Memo) (o : Option (List Entry))
      → IsCoherent w m
      → find_entries user.id (rows_of m.grant_entries) ≡ o
      → IsRecalled (recall w user m o)
  recall-IsRecalled m none ok e = (refl, stored-IsCoherent m ok)
  recall-IsRecalled m (some es) ok e = (ok.entries user es e, same-IsCoherent m ok)

  -- `_grant_entries` returns the entries of the rows, memoized or not, and leaves the memo coherent.
  pub recalled_entries-eq : (m : Memo) → IsCoherent w m → IsRecalled (recalled_entries w user m)
  unfolding recalled_entries
  recalled_entries-eq m ok =
      if-both IsRecalled w.has_request_context
        (recall w user m (find_entries user.id (rows_of m.grant_entries))) (grant_entries w user, m)
        (λ _. recall-IsRecalled m _ ok refl) (λ _. (refl, ok))

  module _ (current : IsCurrent w user) (perm : String) (minion prefix : Option String) where
    abbrev IsDecision : Bool × Memo → Type 0
    IsDecision r = (r.0 ≡ decide w user perm minion prefix) × IsCoherent w r.1

    abbrev key : Key
    key = record { uid = user.id; perm = perm; minion = minion; prefix = prefix }

    evaluate-IsDecision :
        (m : Memo)
        → is_perm perm ≡ true
        → IsCoherent w m
        → IsDecision (evaluate w user perm minion prefix m)
    unfolding decide effective_entries
    evaluate-IsDecision m known ok =
        let (same, ok') = recalled_entries-eq m ok in (rw (same, known), ok')

    same_role : (v : User) → IsCurrent w v → v.id ≡ user.id → v.role ≡ user.role
    same_role v c e =
        some-injective _ _ (sym c.role ∙ (ap (λ i. user_role w.users i) e ∙ current.role))

    hit_same :
        (v : User) (p : String) (mn pf : Option String)
        → IsCurrent w v
        → key_eq key (record { uid = v.id; perm = p; minion = mn; prefix = pf }) ≡ true
        → decide w user perm minion prefix ≡ decide w v p mn pf
    hit_same v p mn pf c hit =
        let other : Key = record { uid = v.id; perm = p; minion = mn; prefix = pf } in
        let same = key_eq-eq key other hit in
        let same_id : user.id ≡ v.id = ap (λ (k : Key). k.uid) same in
        let same_user =
          decide-same w user v perm minion prefix same_id (sym (same_role v c (sym same_id))) in
        cc (
          ap (λ (k : Key). k.perm) same,
          ap (λ (k : Key). k.minion) same,
          ap (λ (k : Key). k.prefix) same,
        )

    keep-IsCoherent : (r : Bool × Memo) → IsDecision r → IsCoherent w (keep_decision key r).1
    unfolding find_decision
    keep-IsCoherent (b, m) (right, ok) = record {
      entries = ok.entries;
      decisions =
          λ v p mn pf b' c e. ground (arith, hit_same v p mn pf c, ok.decisions v p mn pf b' c);
    }

    decided-IsDecision :
        (m : Memo) (o : Option Bool)
        → is_perm perm ≡ true
        → IsCoherent w m
        → find_decision key (rows_of m.authz_cache) ≡ o
        → IsDecision (decided w user key m o)
    decided-IsDecision m none known ok e =
        let fresh = evaluate-IsDecision m known ok in
        (fresh.0, keep-IsCoherent (evaluate w user perm minion prefix m) fresh)
    decided-IsDecision m (some b) known ok e = (
      ok.decisions user perm minion prefix b current e,
      record { entries = ok.entries; decisions = ok.decisions },
    )

    unknown-IsDecision : (m : Memo) → is_perm perm ≡ false → IsCoherent w m → IsDecision (false, m)
    unfolding decide
    unknown-IsDecision m unknown ok = (rw unknown, ok)

    -- From a coherent memo, for a user object that agrees with its row, `authorize` returns what the
    -- rows decide, whether it recalls or computes, in or out of an app context, and the memo that
    -- it leaves is coherent again.
    pub authorize-decide :
        (m : Memo) → IsCoherent w m → IsDecision (authorize w user perm minion prefix m)
    unfolding authorize
    authorize-decide m ok =
        let recalled = decided w user key m (find_decision key (rows_of m.authz_cache)) in
        let computed = evaluate w user perm minion prefix m in
        if-both IsDecision (not (is_perm perm)) (false, m)
          (if w.has_app_context then recalled else computed)
          (λ e. unknown-IsDecision m (ground arith) ok)
          (λ e.
            if-both IsDecision w.has_app_context recalled computed
              (λ _. decided-IsDecision m _ (ground arith) ok refl)
              (λ _. evaluate-IsDecision m (ground arith) ok))
