-- ===== src/Api/Examples.antt =====
-- Tokens on the sample fleet: minted, used and revoked.
use overstate.Prelude.{
  Option, String, [], true, none, some, refl, ◌∷◌, ◌≡◌, ◌<>◌, ◌==◌, if◌then◌else◌, map, ◌++◌,
}
use overstate.Json.{Json, field, end, num, obj, str}
use overstate.Store.{User, World, user_by_id}
use overstate.Authz.Sample.{boss, no_memo, site, user_grant}
use overstate.Authz.Flags.{scoped_mode}
use overstate.Users.Accounts.{text_length}
use overstate.Jobs.Args.{has_key}
use overstate.Users.{require_scoped, Form, redirected}
use overstate.Jobs.Launch.{Call}
use overstate.Jobs.Examples.{landed}
use overstate.Jobs.Examples.Launches.{launch_runs, salt}
use overstate.Api.{
  Pin, ApiState, ApiToken, Outside, SavedJob, accepted, authenticate, rejected, launched,
  drop_chars, parse_bearer, live_row, token_limited, touch, use_token,
}
use overstate.Api.Requests.{
  run_job, pin_of, saved_by_id, fire_as, fire_saved, pinned_fire, unpinned_fire,
}
use overstate.Api.Tokens.{
  Mint, create_token, revoke_token, admin_passage, read_pin, read_expiry, mint_token, token_by_id,
  set_revoked,
}
use overstate.Api.Tokens.Minted.{told_text, create_token-authenticate, no_underscore}
use overstate.Api.Tokens.Live.{revoke_token-rejected}
use overstate.Api.Authorized.{Answered, run_job-Answered}
use overstate.Login.Budget.{memory_limited, live, hits_of, rate_limited}

unfoldable token_runs : Unit {0}
unfolding launch_runs create_token revoke_token admin_passage read_pin read_expiry mint_token
    token_by_id set_revoked no_underscore run_job pin_of saved_by_id fire_as fire_saved pinned_fire
    unpinned_fire drop_chars parse_bearer live_row token_limited touch use_token authenticate
    rate_limited require_scoped text_length memory_limited live hits_of has_key
token_runs = tt

abbrev robot : User
robot = record { id = 6; username = "robot"; role = "none"; kind = "service" }

abbrev served : World
served = record site {
  users = robot ∷ site.users;
  grants = user_grant 8 6 "team-lead" "glob" "web-*" ∷ site.grants;
}

abbrev deploy : SavedJob
deploy = record {
  id = 7;
  fun = "pkg.install";
  tgt = "*";
  tgt_type = "glob";
  args = str "vim" ∷ [];
  batch = Json.null;
}

abbrev mint : Mint
mint = record {
  prefix = "ab12";
  secret = "s3_c";
  hash = λ text. "argon2:" <> text;
  now = 1000;
  next_id = 1;
}

abbrev form : Form
form key = if key == "name" then some " ci " else if key == "saved_job_id" then some "7" else none

abbrev outside : Outside
outside = record {
  verify = λ hash raw. hash == "argon2:" <> raw;
  now = 2000;
  tick = 5;
  int_of_float = λ text. Pin.raises;
  redis_count = none;
  salt = salt;
}

abbrev before : ApiState
before = record {
  state = record { tables = record landed { world = served }; sent = []; flashes = [] };
  tokens = [];
  saved_jobs = deploy ∷ [];
  attempts = [];
}

abbrev after : ApiState
after = record before { tokens = (create_token mint (deploy ∷ []) served boss no_memo 6 form []).1 }

abbrev header : Option String
header = some "Bearer ab12_s3_c"

created :
    (create_token mint (deploy ∷ []) served boss no_memo 6 form []).0.answer
    ≡ redirected "users.index" "success"
        "Token 'ci' created. Copy it now; it will not be shown again: ab12_s3_c"
unfolding token_runs
created = refl

accepted_as_robot :
    (user : User) × (row : ApiToken) × (user_by_id served.users 6 ≡ some user)
    × ((authenticate outside header after).0 ≡ accepted user row)
unfolding token_runs
accepted_as_robot = (robot, _, refl, refl)

create_token-authenticate_example :
    (shown : String) × (user : User) × (row : ApiToken)
    × ("Token 'ci' created. Copy it now; it will not be shown again: ab12_s3_c"
        ≡ told_text row.name shown)
    × (user_by_id served.users 6 ≡ some user)
    × ((authenticate outside (some ("Bearer " <> shown)) after).0 ≡ accepted user row)
unfolding token_runs
create_token-authenticate_example =
    create_token-authenticate mint (deploy ∷ []) served boss no_memo 6 form _ outside before created
      (refl, refl, refl, refl) refl tt refl refl refl

abbrev body : Option Json
body = some (obj (field "saved_id" (num "7") end))

-- The token fires its saved job on the two minions that the account's grant covers.
fired_by_token :
    let (answer, s) = run_job outside header body after in
    (answer ≡ launched "j9")
    × (map {B = String × String} (λ (c : Call). (c.pod, c.tgt)) s.state.sent
        ≡ ("m1", "web-1,web-2") ∷ ("m2", "web-1,web-2") ∷ [])
unfolding token_runs
fired_by_token = (refl, refl)

served_scoped : scoped_mode served ≡ true
unfolding token_runs
served_scoped = refl

run_job-Answered_example :
    Answered outside header body after served_scoped refl (run_job outside header body after).1
run_job-Answered_example = run_job-Answered outside header body after served_scoped refl

-- Another token with the same prefix, whose hash is of another text.
abbrev other : ApiToken
other = record {
  id = 2;
  user_id = 6;
  name = "old";
  token_prefix = "ab12";
  token_hash = "argon2:ab12_old";
  saved_job_id = none;
  expires_at = none;
  last_used_at = none;
  revoked_at = none;
  created_by = some 2;
}

abbrev shared : ApiState
shared = record after { tokens = after.tokens ++ other ∷ [] }

revoked :
    (revoke_token 3000 served boss no_memo 6 1 shared.tokens).0.answer
    ≡ redirected "users.index" "success" "Token 'ci' revoked."
unfolding token_runs
revoked = refl

abbrev closed : ApiState
closed = record shared { tokens = (revoke_token 3000 served boss no_memo 6 1 shared.tokens).1 }

revoke_token-rejected_example :
    authenticate outside header closed ≡ (rejected 401 "invalid-token", closed)
unfolding token_runs
revoke_token-rejected_example =
    revoke_token-rejected 3000 served boss no_memo 6 1 _ outside header "ab12" "s3_c" shared revoked
      refl (λ h. absurd (cc), (λ _. refl, tt))
