-- ===== src/Api/Tokens.antt =====
-- overstate_ui/users.py: `create_token` and `revoke_token`. The random parts of a token, its argon2
-- hash and the clock are arguments.
pub mod Live
pub mod Minted
use overstate.Prelude.{
  Bool, List, Option, String, [], if◌then◌else◌, ltb, none, not, some, true, false, ℕ, suc, ◌*◌,
  ◌+◌, ◌&&◌, ◌++◌, ◌<>◌, ◌==◌, ◌=?◌, ◌||◌, ◌∷◌,
}
use overstate.Text.{parse_id, strip}
use overstate.Text.Words.{show_int}
use overstate.Store.{User, World, user_by_id}
use overstate.Authz.Gates.{Passage, log_event, roles_required}
use overstate.Authz.Memo.{Memo}
use overstate.Users.{Form, Page, denied_page, flashed, get_or_empty, require_scoped}
use overstate.Users.Accounts.{text_length}
use overstate.Api.{ApiToken, SavedJob}
use overstate.Api.Requests.{saved_by_id}

pub record Mint : Type 0 where
  pub prefix : String
  pub secret : String
  pub hash : String → String
  pub now : ℕ
  pub next_id : ℕ

-- `log_token_event`
abbrev log_token_event : String → String → String → String → World → World
log_token_event actor action prefix name w =
    log_event actor action (some "allow") none none (some (prefix <> (":" <> name))) w

-- The gates of both views.
unfoldable pub admin_passage : World → User → Memo → Passage
admin_passage w me m =
    let p = roles_required w me 2 m in
    let q = require_scoped p.world me "user.admin" p.memo in if p.passed then q else p

abbrev to_users : String → String → World → Memo → Page
to_users category text w m = flashed "users.index" category text w m

-- The pin, the expiry in days, or the message of a form that is refused. A number that `int` refuses
-- names no saved job and no days.
pub data Read {ℓ} (A : Type ℓ) : Type ℓ where
  valid : A → Read A
  invalid : String → Read A

abbrev pin_found : Option SavedJob → Read (Option ℕ)
pin_found none = invalid "Unknown saved job pin."
pin_found (some saved) = valid (some saved.id)

abbrev pin_read : List SavedJob → Option ℕ → Read (Option ℕ)
pin_read saved_jobs none = invalid "Unknown saved job pin."
pin_read saved_jobs (some pin) = pin_found (saved_by_id saved_jobs pin)

unfoldable pub read_pin : List SavedJob → String → Read (Option ℕ)
read_pin saved_jobs raw = if raw == "" then valid none else pin_read saved_jobs (parse_id raw)

abbrev pub day : ℕ
day = 86400000000

abbrev pub days_or_zero : Option ℕ → ℕ
days_or_zero none = 0
days_or_zero (some days) = days

unfoldable pub read_expiry : ℕ → String → Read (Option ℕ)
read_expiry now raw =
    let days = days_or_zero (parse_id raw) in
    if raw == ""
    then valid none
    else if ltb days 1 || ltb 3650 days
    then invalid "Expiry must be 1–3650 days."
    else valid (some (now + days * day))

abbrev pub raw_token : Mint → String
raw_token mint = mint.prefix <> ("_" <> mint.secret)

abbrev pub new_token : Mint → User → ℕ → String → Option ℕ → Option ℕ → ApiToken
new_token mint me uid name pin expiry = record {
  id = mint.next_id;
  user_id = uid;
  name = name;
  token_prefix = mint.prefix;
  token_hash = mint.hash (raw_token mint);
  saved_job_id = pin;
  expires_at = expiry;
  last_used_at = none;
  revoked_at = none;
  created_by = some me.id;
}

abbrev pub refuse : String → World → Memo → List ApiToken → Page × List ApiToken
refuse text w m tokens = (to_users "error" text w m, tokens)

unfoldable pub mint_token :
    Mint
    → World
    → User
    → Memo
    → ℕ
    → String
    → Option ℕ
    → Option ℕ
    → List ApiToken
    → Page × List ApiToken
mint_token mint w me m uid name pin expiry tokens =
    if name == "" || ltb 64 (text_length name)
    then refuse "Token name is required (max 64 chars)." w m tokens
    else (
      to_users "success"
          ("Token '"
            <> (name <> ("' created. Copy it now; it will not be shown again: " <> raw_token mint)))
          (log_token_event me.username "token-create" mint.prefix name w) m,
      tokens ++ new_token mint me uid name pin expiry ∷ [],
    )

abbrev pub with_expiry :
    Mint
    → World
    → User
    → Memo
    → ℕ
    → String
    → Option ℕ
    → Read (Option ℕ)
    → List ApiToken
    → Page × List ApiToken
with_expiry mint w me m uid name pin (invalid text) tokens = refuse text w m tokens
with_expiry mint w me m uid name pin (valid expiry) tokens =
    mint_token mint w me m uid name pin expiry tokens

abbrev pub with_pin :
    Mint → World → User → Memo → ℕ → Form → Read (Option ℕ) → List ApiToken → Page × List ApiToken
with_pin mint w me m uid form (invalid text) tokens = refuse text w m tokens
with_pin mint w me m uid form (valid pin) tokens =
    with_expiry mint w me m uid (strip (get_or_empty form "name")) pin
      (read_expiry mint.now (strip (get_or_empty form "expires_days"))) tokens

abbrev pub for_account :
    Mint
    → List SavedJob
    → World
    → User
    → Memo
    → Option User
    → Form
    → List ApiToken
    → Page × List ApiToken
for_account mint saved_jobs w me m none form tokens = refuse "Unknown service account." w m tokens
for_account mint saved_jobs w me m (some user) form tokens =
    if not (user.kind == "service")
    then refuse "Unknown service account." w m tokens
    else with_pin mint w me m user.id form
        (read_pin saved_jobs (strip (get_or_empty form "saved_job_id"))) tokens

unfoldable pub create_token :
    Mint → List SavedJob → World → User → Memo → ℕ → Form → List ApiToken → Page × List ApiToken
create_token mint saved_jobs w me m uid form tokens =
    let p = admin_passage w me m in
    if p.passed
    then for_account mint saved_jobs p.world me p.memo (user_by_id p.world.users uid) form tokens
    else (denied_page p.world p.memo, tokens)

unfoldable pub token_by_id : List ApiToken → ℕ → Option ApiToken
token_by_id [] id = none
token_by_id (row ∷ rows) id = if row.id =? id then some row else token_by_id rows id

-- `row.revoked_at = now`
unfoldable pub set_revoked : ℕ → ℕ → List ApiToken → List ApiToken
set_revoked id now [] = []
set_revoked id now (row ∷ rows) =
    (if row.id =? id then record row { revoked_at = some now } else row) ∷ set_revoked id now rows

abbrev pub revoke_live :
    ℕ → World → User → Memo → ApiToken → Option ℕ → List ApiToken → Page × List ApiToken
revoke_live now w me m row (some at) tokens = refuse "Token is already revoked." w m tokens
revoke_live now w me m row none tokens = (
  to_users "success" ("Token '" <> (row.name <> "' revoked."))
      (log_token_event me.username "token-revoke" row.token_prefix row.name w) m,
  set_revoked row.id now tokens,
)

abbrev pub revoke_found :
    ℕ → World → User → Memo → ℕ → Option ApiToken → List ApiToken → Page × List ApiToken
revoke_found now w me m uid none tokens = refuse "Unknown token." w m tokens
revoke_found now w me m uid (some row) tokens =
    if not (row.user_id =? uid)
    then refuse "Unknown token." w m tokens
    else revoke_live now w me m row row.revoked_at tokens

unfoldable pub revoke_token : ℕ → World → User → Memo → ℕ → ℕ → List ApiToken → Page × List ApiToken
revoke_token now w me m uid tid tokens =
    let p = admin_passage w me m in
    if p.passed
    then revoke_found now p.world me p.memo uid (token_by_id tokens tid) tokens
    else (denied_page p.world p.memo, tokens)
