-- ===== src/Api/Tokens/Minted.antt =====
-- overstate_ui/users.py beside overstate_ui/api.py: a token that was just minted.
use text.Mathlib.TextLemmas.{nil-append, cons-append}
use text.Mathlib.TextPositions.{starts_with-append}
use Prim.Native.Char.{code, Char}
use overstate.Prelude.{
  All, Bool, List, Option, String, [], none, not, some, true, false, ℕ, ◌∷◌, ◌++◌, ◌≡◌, ◌∙◌, refl,
  sym, ap, subst, arith, ◌<>◌, ◌==◌, ◌=?◌, ◌&&◌, ◌||◌, ltb, leb, ◌+◌, if-both, eq_iff, starts_with,
  eq_refl,
}
use overstate.Text.{partition, strip, parse_id}
use overstate.Store.{User, World, user_by_id}
use overstate.Authz.Memo.{Memo}
use overstate.Users.Writes.Lockout.{user_id}
use overstate.Users.{Form, Page, redirected, get_or_empty}
use overstate.Users.Accounts.{text_length}
use overstate.Api.{
  ApiState, ApiToken, Outside, SavedJob, accepted, authenticate, drop_chars, expired, is_live,
  live_row, parse_bearer, token_limited, use_token, world_of, token_rate_limit,
}
use overstate.Api.Tokens.{
  Mint, Read, admin_passage, create_token, for_account, invalid, mint_token, new_token, raw_token,
  read_expiry, read_pin, valid, with_expiry, with_pin, day, days_or_zero,
}
use overstate.Authz.Gates.{log_event}
use overstate.Login.Budget.{rate_limited}
use overstate.Text.Words.{show_int}

-- No underscore occurs in the text.
unfoldable pub no_underscore : String → Bool
no_underscore String.[] = true
no_underscore (String.◌∷◌ c s) = not (code c =? b'_') && no_underscore s

one_more : (c : Char) (s : String) → String.◌∷◌ c "" <> s ≡ String.◌∷◌ c s
one_more c s = cons-append c "" s ∙ ap (λ t. String.◌∷◌ c t) (nil-append s)

partition-separator : (t : String) → partition b'_' ("_" <> t) ≡ some ("", t)
unfolding partition
partition-separator t = ap (partition b'_') (one_more _ t)

partition-first :
    (prefix secret : String)
    → no_underscore prefix ≡ true
    → partition b'_' (prefix <> ("_" <> secret)) ≡ some (prefix, secret)
unfolding partition no_underscore
partition-first String.[] secret h =
    ap (partition b'_') (nil-append ("_" <> secret)) ∙ partition-separator secret
partition-first (String.◌∷◌ c s) secret h =
    let rest = partition-first s secret (ground arith) in
    let other : (code c =? b'_') ≡ false = ground arith in
    ap (partition b'_') (cons-append c s ("_" <> secret)) ∙ rw (other, rest) refl

drop_chars-append : (p s : String) → drop_chars (text_length p) (p <> s) ≡ s
unfolding drop_chars text_length
drop_chars-append String.[] s = nil-append s
drop_chars-append (String.◌∷◌ c p) s =
    ap (drop_chars (text_length (String.◌∷◌ c p))) (cons-append c p s) ∙ drop_chars-append p s

starts_with-bearer : (s : String) → starts_with ("Bearer " <> s) "Bearer " ≡ true
starts_with-bearer s = starts_with-append "Bearer " s

module _ (prefix secret : String) where
  abbrev raw : String
  raw = prefix <> ("_" <> secret)

  -- What `_parse_bearer` needs to find the prefix and the secret again.
  abbrev pub IsMintable : Type 0
  IsMintable =
      (no_underscore prefix ≡ true)
      × ((prefix == "") ≡ false)
      × ((secret == "") ≡ false)
      × (strip raw ≡ raw)

  parse_bearer-raw : IsMintable → parse_bearer ("Bearer " <> raw) ≡ some (prefix, secret)
  unfolding parse_bearer text_length
  parse_bearer-raw (one, some_prefix, some_secret, plain) =
      let begins = starts_with-bearer raw in
      let rest = drop_chars-append "Bearer " raw in
      let parts = partition-first prefix secret one in
      rw (begins, rest, plain, parts, some_prefix, some_secret) refl

-- An expiry is at least a day after the minting.
abbrev pub IsDayAway : ℕ → Option ℕ → Type 0
IsDayAway now none = Unit {0}
IsDayAway now (some at) = leb (now + day) at ≡ true

-- The page of a token that was made, with the text that it shows.
abbrev pub told_text : String → String → String
told_text name shown =
    "Token '" <> (name <> ("' created. Copy it now; it will not be shown again: " <> shown))

module _ (mint : Mint) (saved_jobs : List SavedJob) (me : User) (uid : ℕ) (form : Form)
    (tokens : List ApiToken) where
  -- The one row that was added, for a service account that exists, and what the page says.
  pub record Added (text : String) (users : List User) (rows : List ApiToken) : Type 0 where
    pub owner : User
    pub name : String
    pub pin : Option ℕ
    pub expiry : Option ℕ
    pub exists_ : user_by_id users uid ≡ some owner
    pub away : IsDayAway mint.now expiry
    pub told : text ≡ told_text name (raw_token mint)
    pub added : rows ≡ tokens ++ new_token mint me uid name pin expiry ∷ []

  -- A success means that a row was added.
  abbrev Minted : Page × List ApiToken → Type 0
  Minted r =
      (text : String)
      → r.0.answer ≡ redirected "users.index" "success" text
      → Added text r.0.world.users r.1

  no_success :
      (text told : String)
      → redirected "users.index" "error" told ≡ redirected "users.index" "success" text
      → ⊥
  no_success text told e = absurd (ground (arith, eq_iff "error" "success"))

  abbrev AwayIn : Read (Option ℕ) → Type 0
  AwayIn (invalid text) = Unit {0}
  AwayIn (valid expiry) = IsDayAway mint.now expiry

  expiry-away : (raw : String) → AwayIn (read_expiry mint.now raw)
  unfolding read_expiry
  expiry-away raw =
      if-both AwayIn (raw == "") _ _ (λ _. tt)
        (λ _.
          if-both AwayIn
            (ltb (days_or_zero (parse_id raw)) 1 || ltb 3650 (days_or_zero (parse_id raw))) _ _
            (λ _. tt) (λ within. ground arith))

  module _ (w : World) (m : Memo) (owner : User)
      (exists_ : user_by_id w.users uid ≡ some owner) where
    mint-Minted :
        (name : String) (pin expiry : Option ℕ)
        → IsDayAway mint.now expiry
        → Minted (mint_token mint w me m uid name pin expiry tokens)
    unfolding mint_token log_event
    mint-Minted name pin expiry away =
        if-both Minted (name == "" || ltb 64 (text_length name)) _ _
          (λ _ text e. absurd (no_success text _ e))
          (λ _ text e. record {
            owner = owner;
            name = name;
            pin = pin;
            expiry = expiry;
            exists_ = exists_;
            away = away;
            told = cc;
            added = refl;
          })

    expiry-Minted :
        (name : String) (pin : Option ℕ) (r : Read (Option ℕ))
        → AwayIn r
        → Minted (with_expiry mint w me m uid name pin r tokens)
    expiry-Minted name pin (invalid text) away = λ t e. absurd (no_success t _ e)
    expiry-Minted name pin (valid expiry) away = mint-Minted name pin expiry away

    pin-Minted : (r : Read (Option ℕ)) → Minted (with_pin mint w me m uid form r tokens)
    pin-Minted (invalid text) = λ t e. absurd (no_success t _ e)
    pin-Minted (valid pin) = expiry-Minted _ pin _ (expiry-away _)

  account-Minted :
      (w : World) (m : Memo) (owner : Option User)
      → user_by_id w.users uid ≡ owner
      → Minted (for_account mint saved_jobs w me m owner form tokens)
  account-Minted w m none e = λ t told. absurd (no_success t _ told)
  account-Minted w m (some owner) e =
      if-both Minted (not (owner.kind == "service")) _ _
        (λ _ text told. absurd (no_success text _ told))
        (λ _.
          subst
            (λ id. Minted (
              with_pin mint w me m id form
                (read_pin saved_jobs (strip (get_or_empty form "saved_job_id"))) tokens))
            (sym (user_id w.users uid owner e)) (pin-Minted w m owner e _))

  create-Minted :
      (w : World) (m : Memo) → Minted (create_token mint saved_jobs w me m uid form tokens)
  unfolding create_token
  create-Minted w m =
      if-both Minted (admin_passage w me m).passed _ _
        (λ _. account-Minted _ _ (user_by_id (admin_passage w me m).world.users uid) refl)
        (λ _ text e. absurd (ground arith))

first_row :
    (o : Outside) (prefix raw : String) (rows : List ApiToken) (row : ApiToken)
    → All (λ r. (r.token_prefix == prefix) ≡ false) rows
    → (row.token_prefix == prefix) ≡ true
    → is_live o raw row ≡ true
    → live_row o prefix raw (rows ++ row ∷ []) ≡ some row
unfolding live_row
first_row o prefix raw [] row fresh own live = ground arith
first_row o prefix raw (r ∷ rows) row (h, fresh) own live =
    let rest = first_row o prefix raw rows row fresh own live in rw (h, rest) refl

day_away-live :
    (o : Outside) (now : ℕ) (expiry : Option ℕ)
    → IsDayAway now expiry
    → ltb o.now (now + day) ≡ true
    → expired o.now expiry ≡ false
day_away-live o now none away soon = refl
day_away-live o now (some at) away soon = ground arith

-- Round trip of a token: after a `create_token` that reports success, its message ends in a text that is
-- accepted in a Bearer header as the account it was made for. This holds for a prefix that is free of
-- underscores and that no other row has, a hash that verifies its text, a request within the first day
-- and within the budget, and users that are as the view left them.
pub create_token-authenticate :
    (mint : Mint) (saved_jobs : List SavedJob) (w : World) (me : User) (m : Memo) (uid : ℕ)
    (form : Form) (text : String) (o : Outside) (s : ApiState)
    → let r = create_token mint saved_jobs w me m uid form s.tokens in
      r.0.answer ≡ redirected "users.index" "success" text
      → IsMintable mint.prefix mint.secret
      → o.verify (mint.hash (raw_token mint)) (raw_token mint) ≡ true
      → All (λ row. (row.token_prefix == mint.prefix) ≡ false) s.tokens
      → ltb o.now (mint.now + day) ≡ true
      → (rate_limited o.redis_count s.attempts
          ("api-token:" <> show_int mint.next_id)
          token_rate_limit
          60
          o.tick).0
        ≡ false
      → (world_of s).users ≡ r.0.world.users
      → (shown : String) × (user : User) × (row : ApiToken) × (text ≡ told_text row.name shown)
        × (user_by_id (world_of s).users uid ≡ some user)
        × ((authenticate o (some ("Bearer " <> shown)) (record s { tokens = r.1 })).0
            ≡ accepted user row)
unfolding authenticate use_token token_limited
create_token-authenticate mint saved_jobs w me m uid form text o s success mintable verifies fresh
      soon budget same =
    let a = create-Minted mint saved_jobs me uid form s.tokens w m text success in
    let row = new_token mint me uid a.name a.pin a.expiry in
    let parsed = parse_bearer-raw mint.prefix mint.secret mintable in
    let live = day_away-live o mint.now a.expiry a.away soon in
    let found =
      ap (live_row o mint.prefix (raw_token mint)) a.added
      ∙ first_row o mint.prefix (raw_token mint) s.tokens row fresh (eq_refl mint.prefix)
          (rw (verifies, live) refl) in
    let owner = ap (λ us. user_by_id us uid) same ∙ a.exists_ in
    (raw_token mint, a.owner, row, a.told, owner, rw (parsed, found, owner, budget) refl)
