-- ===== src/Authz/Memo.antt =====
-- overstate_ui/authz.py: the memos on `flask.g` that `_grant_entries` and `authorize` keep for the
-- time of one request. A missing attribute of `g` is none.
pub mod Coherence
use overstate.Prelude.{
  Bool, List, Option, String, [], any, false, if◌then◌else◌, none, not, some, true, ℕ, ◌&&◌, ◌==◌,
  ◌=?◌, ◌∷◌,
}
use overstate.Store.{World, User}
use overstate.Authz.Catalog.{is_perm, is_ladder}
use overstate.Authz.Entries.{Entry, grant_entries, with_fallback}
use overstate.Authz.Decide.{entry_covers}

-- The key of a decision.
pub record Key : Type 0 where
  pub uid : ℕ
  pub perm : String
  pub minion : Option String
  pub prefix : Option String

pub record Memo : Type 0 where
  pub grant_entries : Option (List (ℕ × List Entry))
  pub authz_cache : Option (List (Key × Bool))

abbrev pub opt_eq : Option String → Option String → Bool
opt_eq none none = true
opt_eq none (some t) = false
opt_eq (some s) none = false
opt_eq (some s) (some t) = s == t

unfoldable pub key_eq : Key → Key → Bool
key_eq a b =
    a.uid =? b.uid && a.perm == b.perm && opt_eq a.minion b.minion && opt_eq a.prefix b.prefix

unfoldable pub find_entries : ℕ → List (ℕ × List Entry) → Option (List Entry)
find_entries uid [] = none
find_entries uid ((k, es) ∷ rows) = if k =? uid then some es else find_entries uid rows

unfoldable pub find_decision : Key → List (Key × Bool) → Option Bool
find_decision key [] = none
find_decision key ((k, b) ∷ rows) = if key_eq k key then some b else find_decision key rows

-- `g.get(name)`, with the empty dict where it is missing.
abbrev pub rows_of {ℓ} : {A : Type ℓ} → Option (List A) → List A
rows_of none = []
rows_of (some rows) = rows

abbrev pub keep_entries : ℕ → List Entry → Memo → Memo
keep_entries uid es m = record m { grant_entries = some ((uid, es) ∷ rows_of m.grant_entries) }

abbrev pub recall : World → User → Memo → Option (List Entry) → List Entry × Memo
recall w user m (some es) = (es, record m { grant_entries = some (rows_of m.grant_entries) })
recall w user m none = (grant_entries w user, keep_entries user.id (grant_entries w user) m)

-- `_grant_entries`
unfoldable pub recalled_entries : World → User → Memo → List Entry × Memo
recalled_entries w user m =
    if w.has_request_context
    then recall w user m (find_entries user.id (rows_of m.grant_entries))
    else (grant_entries w user, m)

-- `any(_entry_covers(...) for ... in _effective_entries(user))`
abbrev evaluate : World → User → String → Option String → Option String → Memo → Bool × Memo
evaluate w user perm minion prefix m =
    let (es, m') = recalled_entries w user m in
    (any (λ e. entry_covers w e perm minion prefix) (with_fallback w user.role es), m')

abbrev keep_decision : Key → Bool × Memo → Bool × Memo
keep_decision key (b, m) = (b, record m { authz_cache = some ((key, b) ∷ rows_of m.authz_cache) })

abbrev decided : World → User → Key → Memo → Option Bool → Bool × Memo
decided w user key m (some b) = (b, record m { authz_cache = some (rows_of m.authz_cache) })
decided w user key m none = keep_decision key (evaluate w user key.perm key.minion key.prefix m)

-- `authorize`
unfoldable pub authorize :
    World → User → String → Option String → Option String → Memo → Bool × Memo
authorize w user perm minion prefix m =
    let key : Key = record { uid = user.id; perm = perm; minion = minion; prefix = prefix } in
    if not (is_perm perm)
    then (false, m)
    else if w.has_app_context
    then decided w user key m (find_decision key (rows_of m.authz_cache))
    else evaluate w user perm minion prefix m
