-- ===== src/Api.antt =====
-- overstate_ui/api.py: the token API. The argon2 check of a stored hash, the clocks, the count of
-- Redis, Salt and the reading of decimal fractions are arguments. Times are microseconds; the budget counts ticks of the monotonic
-- clock. An error of Salt ends the request as the framework ends it.
pub mod Requests
pub mod Tokens
pub mod Authorized
mod Examples
use overstate.Prelude.{
  Bool, List, Option, String, [], if◌then◌else◌, keep, leb, none, not, some, starts_with, true,
  false, ℕ, ◌&&◌, ◌<>◌, ◌==◌, ◌=?◌, ◌||◌, ◌∷◌, map, suc, zero,
}
use Prim.Native.Char.{code}
use overstate.Json.{
  Json, Fields, Items, arr, bool, get, null, num, obj, str, elements, to_str, truthy,
}
use overstate.Text.{partition, parse_id, strip}
use overstate.Text.Words.{show_int}
use overstate.Sets.{contains}
use overstate.Store.{User, World, user_by_id}
use overstate.Authz.Flags.{scoped_mode}
use overstate.Authz.Functions.{api_read_funs}
use overstate.Authz.Gates.{audit_deny, log_event}
use overstate.Login.Budget.{rate_limited}
use overstate.Jobs.Args.{has_key}
use overstate.Jobs.Launch.{Salt, State}

pub record ApiToken : Type 0 where
  pub id : ℕ
  pub user_id : ℕ
  pub name : String
  pub token_prefix : String
  pub token_hash : String
  pub saved_job_id : Option ℕ
  pub expires_at : Option ℕ
  pub last_used_at : Option ℕ
  pub revoked_at : Option ℕ
  pub created_by : Option ℕ

pub record SavedJob : Type 0 where
  pub id : ℕ
  pub fun : String
  pub tgt : String
  pub tgt_type : String
  pub args : List Json
  pub batch : Json

-- `int` of a decoded value: it raises, it overflows at an infinity, no row has the number, or a row can.
pub data Pin : Type 0 where
  raises : Pin
  overflows : Pin
  no_row : Pin
  names : ℕ → Pin

pub record Outside : Type 0 where
  pub verify : String → String → Bool
  pub now : ℕ
  pub tick : ℕ
  pub int_of_float : String → Pin
  pub redis_count : Option ℕ
  pub salt : Salt

pub record ApiState : Type 0 where
  pub state : State
  pub tokens : List ApiToken
  pub saved_jobs : List SavedJob
  pub attempts : List (String × List ℕ)

pub data Response : Type 0 where
  launched : String → Response
  error : ℕ → String → Response
  crashed : Response

abbrev pub world_of : ApiState → World
world_of s = s.state.tables.world

abbrev pub with_state : (State → State) → ApiState → ApiState
with_state f s = record s { state = f s.state }

-- What follows the first `_`, where both sides are there.
abbrev both_parts : Option (String × String) → Option (String × String)
both_parts none = none
both_parts (some (prefix, secret)) =
    if prefix == "" || secret == "" then none else some (prefix, secret)

-- `value[len("Bearer "):]`
unfoldable pub drop_chars : ℕ → String → String
drop_chars zero s = s
drop_chars (suc n) String.[] = ""
drop_chars (suc n) (String.◌∷◌ c s) = drop_chars n s

-- `_parse_bearer`, of a header that is there
unfoldable pub parse_bearer : String → Option (String × String)
unfolding drop_chars partition strip
parse_bearer value =
    if starts_with value "Bearer "
    then both_parts (partition b'_' (strip (drop_chars 7 value)))
    else none

abbrev pub expired : ℕ → Option ℕ → Bool
expired now none = false
expired now (some at) = leb at now

abbrev pub is_revoked : Option ℕ → Bool
is_revoked none = false
is_revoked (some at) = true

-- Whether a row is a live token of the raw text.
abbrev pub is_live : Outside → String → ApiToken → Bool
is_live o raw row =
    o.verify row.token_hash raw
    && not (is_revoked row.revoked_at)
    && not (expired o.now row.expires_at)

-- The first live row of the loop over all rows with the prefix.
unfoldable pub live_row : Outside → String → String → List ApiToken → Option ApiToken
live_row o prefix raw [] = none
live_row o prefix raw (row ∷ rows) =
    let rest = live_row o prefix raw rows in
    if row.token_prefix == prefix && is_live o raw row then some row else rest

pub data Authenticated : Type 0 where
  accepted : User → ApiToken → Authenticated
  rejected : ℕ → String → Authenticated

abbrev pub token_rate_limit : ℕ
token_rate_limit = 60

-- `_token_limited`
unfoldable pub token_limited : Outside → ApiToken → ApiState → Bool × ApiState
token_limited o row s =
    let (limited, attempts) =
      rate_limited o.redis_count s.attempts ("api-token:" <> show_int row.id) token_rate_limit 60
        o.tick in
    (limited, record s { attempts = attempts })

-- `live.last_used_at = now`
unfoldable pub touch : ℕ → ℕ → List ApiToken → List ApiToken
touch id now [] = []
touch id now (row ∷ rows) =
    (if row.id =? id then record row { last_used_at = some now } else row) ∷ touch id now rows

unfoldable pub use_token : Outside → User → ApiToken → ApiState → Authenticated × ApiState
use_token o user row s =
    let (limited, s') = token_limited o row s in
    if limited
    then (rejected 429 "rate-limited", s')
    else (accepted user row, record s' { tokens = touch row.id o.now s'.tokens })

abbrev pub owner_of : Outside → ApiToken → Option User → ApiState → Authenticated × ApiState
owner_of o row none s = (rejected 401 "invalid-token", s)
owner_of o row (some user) s = use_token o user row s

abbrev pub live_of : Outside → Option ApiToken → ApiState → Authenticated × ApiState
live_of o none s = (rejected 401 "invalid-token", s)
live_of o (some row) s = owner_of o row (user_by_id (world_of s).users row.user_id) s

abbrev pub parsed_of : Outside → Option (String × String) → ApiState → Authenticated × ApiState
parsed_of o none s = (rejected 401 "bearer-required", s)
parsed_of o (some (prefix, secret)) s =
    live_of o (live_row o prefix (prefix <> ("_" <> secret)) s.tokens) s

abbrev pub header_text : Option String → String
header_text none = ""
header_text (some value) = value

-- `_authenticate`
unfoldable pub authenticate : Outside → Option String → ApiState → Authenticated × ApiState
authenticate o header s = parsed_of o (parse_bearer (header_text header)) s
