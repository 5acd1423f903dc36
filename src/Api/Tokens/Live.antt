-- ===== src/Api/Tokens/Live.antt =====
-- overstate_ui/api.py beside overstate_ui/users.py: which tokens `_authenticate` accepts.
use overstate.Prelude.{
  All, List, Option, String, [], none, not, some, true, false, ℕ, ◌∷◌, ◌≡◌, ◌∙◌, refl, sym, ap,
  arith, ◌<>◌, ◌==◌, ◌=?◌, ◌&&◌, if-both, Bool-cases, eq_iff, inl, inr,
}
use overstate.Store.{User, World, user_by_id}
use overstate.Authz.Memo.{Memo}
use overstate.Users.{Page, redirected}
use overstate.Api.{
  ApiState, ApiToken, Authenticated, Outside, accepted, authenticate, header_text, is_live, live_of,
  live_row, owner_of, parse_bearer, parsed_of, rejected, token_limited, use_token, world_of,
}
use overstate.Api.Tokens.{
  admin_passage, revoke_found, revoke_live, revoke_token, set_revoked, token_by_id,
}

live_row-live :
    (o : Outside) (prefix raw : String) (rows : List ApiToken) (row : ApiToken)
    → live_row o prefix raw rows ≡ some row
    → ((row.token_prefix == prefix) ≡ true) × (is_live o raw row ≡ true)
unfolding live_row
live_row-live o prefix raw [] row h = absurd (cc)
live_row-live o prefix raw (x ∷ rows) row h =
    elim (Bool-cases (x.token_prefix == prefix && is_live o raw x)) [
      | inl here ↦
          let same : x ≡ row = ground arith in
          (
            ap (λ (r : ApiToken). r.token_prefix == prefix) (sym same) ∙ ground arith,
            ap (is_live o raw) (sym same) ∙ ground arith,
          )
      | inr later ↦ live_row-live o prefix raw rows row (rw later at h)
    ]

-- What an accepted header shows: it carries a prefix and a secret, and a stored row with the prefix
-- verifies them, is neither revoked nor expired and belongs to the user, within the budget.
pub record IsGenuine (o : Outside) (header : Option String) (s : ApiState) (user : User)
    (row : ApiToken) : Type 0 where
  pub prefix : String
  pub secret : String
  pub parsed : parse_bearer (header_text header) ≡ some (prefix, secret)
  pub stored : live_row o prefix (prefix <> ("_" <> secret)) s.tokens ≡ some row
  pub matches : (row.token_prefix == prefix) ≡ true
  pub live : is_live o (prefix <> ("_" <> secret)) row ≡ true
  pub owner : user_by_id (world_of s).users row.user_id ≡ some user
  pub budget : (token_limited o row s).0 ≡ false

module _ (o : Outside) (header : Option String) (s : ApiState) where
  -- What an answer shows, and that Salt and the saved jobs are as before.
  abbrev pub Shows : Authenticated × ApiState → Type 0
  Shows (rejected status text, t) = (t.state ≡ s.state) × (t.saved_jobs ≡ s.saved_jobs)
  Shows (accepted user row, t) =
      (t.state ≡ s.state) × (t.saved_jobs ≡ s.saved_jobs) × IsGenuine o header s user row

  module _ (prefix secret : String)
      (parsed : parse_bearer (header_text header) ≡ some (prefix, secret)) where
    abbrev raw : String
    raw = prefix <> ("_" <> secret)

    use-Shows :
        (row : ApiToken) (user : User)
        → live_row o prefix raw s.tokens ≡ some row
        → user_by_id (world_of s).users row.user_id ≡ some user
        → Shows (use_token o user row s)
    unfolding use_token token_limited
    use-Shows row user stored owner = elim (Bool-cases (token_limited o row s).0) [
      | inl over ↦ rw over (refl, refl)
      | inr within ↦ rw within (
        refl,
        refl,
        record {
          prefix = prefix;
          secret = secret;
          parsed = parsed;
          stored = stored;
          matches = (live_row-live o prefix raw s.tokens row stored).0;
          live = (live_row-live o prefix raw s.tokens row stored).1;
          owner = owner;
          budget = within;
        },
      )
    ]

    owner-Shows :
        (row : ApiToken) (user : Option User)
        → live_row o prefix raw s.tokens ≡ some row
        → user_by_id (world_of s).users row.user_id ≡ user
        → Shows (owner_of o row user s)
    owner-Shows row none stored e = (refl, refl)
    owner-Shows row (some user) stored e = use-Shows row user stored e

    live-Shows :
        (row : Option ApiToken) → live_row o prefix raw s.tokens ≡ row → Shows (live_of o row s)
    live-Shows none e = (refl, refl)
    live-Shows (some row) e = owner-Shows row (user_by_id (world_of s).users row.user_id) e refl

  parsed-Shows :
      (p : Option (String × String))
      → parse_bearer (header_text header) ≡ p
      → Shows (parsed_of o p s)
  parsed-Shows none e = (refl, refl)
  parsed-Shows (some (prefix, secret)) e = live-Shows prefix secret e _ refl

  pub authenticate-Shows : Shows (authenticate o header s)
  unfolding authenticate
  authenticate-Shows = parsed-Shows (parse_bearer (header_text header)) refl

-- The rows of a token are all that verify a raw text.
abbrev pub OnlyOf : Outside → String → ℕ → List ApiToken → Type 0
OnlyOf o raw tid rows = All (λ r. (r.id =? tid) ≡ false → o.verify r.token_hash raw ≡ false) rows

revoked-none :
    (o : Outside) (prefix raw : String) (tid now : ℕ) (rows : List ApiToken)
    → OnlyOf o raw tid rows
    → live_row o prefix raw (set_revoked tid now rows) ≡ none
unfolding live_row set_revoked
revoked-none o prefix raw tid now [] h = refl
revoked-none o prefix raw tid now (r ∷ rows) (h, hs) =
    let rest = revoked-none o prefix raw tid now rows hs in
    elim (Bool-cases (r.id =? tid)) [
      | inl own ↦ rw own (ground arith)
      | inr other ↦ let wrong = h other in rw other (ground arith)
    ]

token-id :
    (rows : List ApiToken) (id : ℕ) (row : ApiToken) → token_by_id rows id ≡ some row → row.id ≡ id
unfolding token_by_id
token-id [] id row h = absurd (cc)
token-id (r ∷ rows) id row h = ground (arith, token-id rows id row)

module _ (now : ℕ) (me : User) (uid tid : ℕ) (tokens : List ApiToken) where
  -- A success means that the token's rows are revoked.
  abbrev Revoked : Page × List ApiToken → Type 0
  Revoked r =
      (text : String)
      → r.0.answer ≡ redirected "users.index" "success" text
      → r.1 ≡ set_revoked tid now tokens

  live-Revoked :
      (w : World) (m : Memo) (row : ApiToken) (at : Option ℕ)
      → row.id ≡ tid
      → Revoked (revoke_live now w me m row at tokens)
  live-Revoked w m row (some at) own text e = absurd (ground (arith, eq_iff "error" "success"))
  live-Revoked w m row none own text e = ap (λ id. set_revoked id now tokens) own

  found-Revoked :
      (w : World) (m : Memo) (row : Option ApiToken)
      → token_by_id tokens tid ≡ row
      → Revoked (revoke_found now w me m uid row tokens)
  found-Revoked w m none found = λ text e. absurd (ground (arith, eq_iff "error" "success"))
  found-Revoked w m (some row) found =
      if-both Revoked (not (row.user_id =? uid)) _ _
        (λ _ text e. absurd (ground (arith, eq_iff "error" "success")))
        (λ _. live-Revoked w m row row.revoked_at (token-id tokens tid row found))

  revoke-Revoked : (w : World) (m : Memo) → Revoked (revoke_token now w me m uid tid tokens)
  unfolding revoke_token
  revoke-Revoked w m =
      if-both Revoked (admin_passage w me m).passed _ _
        (λ _. found-Revoked _ _ (token_by_id tokens tid) refl) (λ _ text e. absurd (ground arith))

-- After a revocation that the page reports as done, a header is rejected with 401 and nothing changes,
-- where no row but the token's own verifies what the header carries. The other tokens, revoked or
-- not, cannot bring it back.
pub revoke_token-rejected :
    (now : ℕ) (w : World) (me : User) (m : Memo) (uid tid : ℕ) (text : String) (o : Outside)
    (header : Option String) (prefix secret : String) (s : ApiState)
    → (revoke_token now w me m uid tid s.tokens).0.answer ≡ redirected "users.index" "success" text
    → parse_bearer (header_text header) ≡ some (prefix, secret)
    → OnlyOf o (prefix <> ("_" <> secret)) tid s.tokens
    → authenticate o header (record s { tokens = (revoke_token now w me m uid tid s.tokens).1 }) ≡ (
      rejected 401 "invalid-token",
      record s { tokens = (revoke_token now w me m uid tid s.tokens).1 },
    )
unfolding authenticate
revoke_token-rejected now w me m uid tid text o header prefix secret s success parsed only =
    let done = revoke-Revoked now me uid tid s.tokens w m text success in
    let gone = revoked-none o prefix (prefix <> ("_" <> secret)) tid now s.tokens only in
    rw (parsed, done, gone) refl
