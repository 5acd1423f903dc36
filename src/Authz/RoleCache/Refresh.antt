-- ===== src/Authz/RoleCache/Refresh.antt =====
-- overstate_ui/authz.py: what `refresh_role_cache` writes, and what it leaves of the memos.
use overstate.Prelude.{
  List, ap, some, true, ◌≡◌, Bool, Option, String, [], any, arith, false, if◌then◌else◌, none, refl,
  ℕ, ◌=?◌, ◌∷◌, ◌≢◌, if-both, subst, sym, ◌∙◌, Bool-cases, inl, inr,
}
use overstate.Store.{World, User, Grant}
use overstate.Authz.Catalog.{is_ladder, is_perm}
use overstate.Authz.Entries.{
  Entry, grant_entries, effective_entries, with_fallback, user_grants, group_grants, user_mappings,
}
use overstate.Authz.Memo.{
  Memo, recalled_entries, find_entries, find_decision, rows_of, Key, recall, authorize,
}
use overstate.Authz.Memo.Coherence.{IsCoherent, recalled_entries-eq}
use overstate.Authz.RoleCache.{
  ladder, cached_role, set_role, without, drop_memos, refresh_role_cache,
}
use overstate.Sets.{contains}

-- From a coherent memo, the refreshed role is that of the rows' entries.
pub refresh-role :
    (w : World) (user : User) (m : Memo)
    → IsCoherent w m
    → (refresh_role_cache w user m).role ≡ cached_role (grant_entries w user)
unfolding refresh_role_cache
refresh-role w user m ok = ap cached_role (recalled_entries-eq w user m ok).0

-- The memo of a request in which nothing has been checked yet.
abbrev pub fresh : Memo
fresh = record { grant_entries = none; authz_cache = none }

-- The first check of a request keeps the entries that it reads.
first-entries :
    (w : World) (user : User) (perm : String) (minion prefix : Option String)
    → is_perm perm ≡ true
    → w.has_request_context ≡ true
    → find_entries user.id (rows_of (authorize w user perm minion prefix fresh).1.grant_entries)
      ≡ some (grant_entries w user)
unfolding authorize recalled_entries find_entries find_decision
first-entries w user perm minion prefix known req =
    let own : (user.id =? user.id) ≡ true = ground arith in
    elim (Bool-cases w.has_app_context) [
      | inl app ↦ simp (known, req, app, own)
      | inr bare ↦ simp (known, req, bare, own)
    ]

held-role :
    (w : World) (user : User) (m : Memo) (old : List Entry)
    → w.has_request_context ≡ true
    → find_entries user.id (rows_of m.grant_entries) ≡ some old
    → (refresh_role_cache w user m).role ≡ cached_role old
unfolding refresh_role_cache recalled_entries
held-role w user m old req held = simp (req, held)

-- A request that checks a permission of a user first, then changes the grants to any others, and
-- then refreshes the user's role: where the two roles differ, the role that the refresh gives and
-- writes is that of the grants from before the change, not that of the new ones.
pub refresh-stale :
    (w : World) (user : User) (perm : String) (minion prefix : Option String) (gs : List Grant)
    → is_perm perm ≡ true
    → w.has_request_context ≡ true
    → cached_role (grant_entries (record w { grants = gs }) user)
      ≢ cached_role (grant_entries w user)
    → let changed = record w { grants = gs } in
      let checked = authorize w user perm minion prefix fresh in
      let r = refresh_role_cache changed user checked.1 in
      (r.role ≡ cached_role (grant_entries w user))
      × (r.world.users ≡ set_role user.id (cached_role (grant_entries w user)) w.users)
      × (r.role ≢ cached_role (grant_entries changed user))
unfolding refresh_role_cache
refresh-stale w user perm minion prefix gs known req differs =
    let changed = record w { grants = gs } in
    let m = (authorize w user perm minion prefix fresh).1 in
    let first = first-entries w user perm minion prefix known req in
    let old = held-role changed user m (grant_entries w user) req first in
    (old, ap (λ role. set_role user.id role w.users) old, λ same. differs (sym same ∙ old))

cached_role-nil : is_ladder (cached_role []) ≡ false
unfolding cached_role ladder any is_ladder contains
cached_role-nil = refl

-- Grants and mappings do not depend on the users table.
grant_entries-users :
    (w : World) (rows : List User) (user : User)
    → grant_entries (record w { users = rows }) user ≡ grant_entries w user
unfolding grant_entries user_grants group_grants user_mappings
grant_entries-users w rows user = refl

grant_entries-role :
    (w : World) (user : User) (role : String)
    → grant_entries w (record user { role = role }) ≡ grant_entries w user
unfolding grant_entries
grant_entries-role w user role = refl

no_fallback : (w : World) (es : List Entry) → with_fallback w (cached_role es) es ≡ es
unfolding with_fallback
no_fallback w [] = ground (arith, cached_role-nil)
no_fallback w (e ∷ es) = refl

-- After a refresh from a coherent memo the migration fallback applies no more: the user's effective
-- entries are the grants and mappings of the rows, none if there are none, whatever the flag says.
pub refresh-effective_entries :
    (w : World) (user : User) (m : Memo)
    → IsCoherent w m
    → let r = refresh_role_cache w user m in effective_entries r.world r.user ≡ grant_entries w user
unfolding effective_entries refresh_role_cache grant_entries user_grants group_grants user_mappings
refresh-effective_entries w user m ok =
    subst
      (λ es.
        with_fallback (record w { users = set_role user.id (cached_role es) w.users })
          (cached_role es) (grant_entries w user)
        ≡ grant_entries w user)
      (sym (recalled_entries-eq w user m ok).0) (no_fallback _ (grant_entries w user))

find_entries-without :
    (uid v : ℕ) (rows : List (ℕ × List Entry))
    → find_entries v (without uid rows) ≡ (if v =? uid then none else find_entries v rows)
unfolding find_entries without
find_entries-without uid v [] = ground arith
find_entries-without uid v ((k, es) ∷ rows) = ground (arith, find_entries-without uid v rows)

-- The memoized entries of all users but one are those of the rows.
abbrev pub IsCoherentBut : World → Memo → ℕ → Type 0
IsCoherentBut w m uid =
    (v : User) (es : List Entry)
    → v.id ≢ uid
    → find_entries v.id (rows_of m.grant_entries) ≡ some es
    → es ≡ grant_entries w v

rows-dropped :
    (o : Option (List (ℕ × List Entry))) (uid v : ℕ)
    → find_entries v (rows_of (elim o [ none ↦ none | some rows ↦ some (without uid rows) ]))
      ≡ (if v =? uid then none else find_entries v (rows_of o))
unfolding find_entries
rows-dropped none uid v = ground arith
rows-dropped (some rows) uid v = find_entries-without uid v rows

decisions-dropped :
    (o : Option (List (Key × Bool))) (key : Key)
    → find_decision key (rows_of (elim o [ none ↦ none | some rows ↦ some [] ])) ≡ none
unfolding find_decision
decisions-dropped none key = refl
decisions-dropped (some rows) key = refl

recall-others :
    (w : World) (user : User) (m : Memo) (o : Option (List Entry)) (v : ℕ)
    → v ≢ user.id
    → find_entries v (rows_of (recall w user m o).1.grant_entries)
      ≡ find_entries v (rows_of m.grant_entries)
unfolding find_entries
recall-others w user m none v h = ground arith
recall-others w user m (some es) v h = refl

recalled-others :
    (w : World) (user : User) (m : Memo) (v : ℕ)
    → v ≢ user.id
    → find_entries v (rows_of (recalled_entries w user m).1.grant_entries)
      ≡ find_entries v (rows_of m.grant_entries)
unfolding recalled_entries
recalled-others w user m v h =
    if-both
      (λ (r : List Entry × Memo).
        find_entries v (rows_of r.1.grant_entries) ≡ find_entries v (rows_of m.grant_entries))
      w.has_request_context (recall w user m (find_entries user.id (rows_of m.grant_entries)))
      (grant_entries w user, m) (λ _. recall-others w user m _ v h) (λ _. refl)

module _ (w : World) (user : User) (m : Memo) (but : IsCoherentBut w m user.id) where
  abbrev recalled : Memo
  recalled = (recalled_entries w user m).1

  dropped-entries :
      (v : User) (es : List Entry)
      → find_entries v.id (rows_of (drop_memos user.id recalled).grant_entries) ≡ some es
      → es ≡ grant_entries w v
  dropped-entries v es e = ground (
    arith,
    rows-dropped recalled.grant_entries user.id v.id,
    recalled-others w user m v.id,
    but v es,
  )

  dropped-IsCoherent :
      (rows : List User) → IsCoherent (record w { users = rows }) (drop_memos user.id recalled)
  dropped-IsCoherent rows = record {
    entries = λ v es e. dropped-entries v es e ∙ sym (grant_entries-users w rows v);
    decisions = λ v perm mn pf b c e. cc (
        decisions-dropped recalled.authz_cache
          (record { uid = v.id; perm = perm; minion = mn; prefix = pf }));
  }

  -- After a change of one user's grants, a refresh of that user in an app context makes the memo
  -- coherent with the rows again, also if it held old entries of that user and old decisions.
  pub refresh-IsCoherent :
      w.has_app_context ≡ true → let r = refresh_role_cache w user m in IsCoherent r.world r.memo
  unfolding refresh_role_cache
  refresh-IsCoherent app =
      let rows = set_role user.id (cached_role (recalled_entries w user m).0) w.users in
      if-both (IsCoherent (record w { users = rows })) w.has_app_context
        (drop_memos user.id recalled) recalled (λ _. dropped-IsCoherent rows) (λ e. cc)
