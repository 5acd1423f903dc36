-- ===== src/Api/Requests.antt =====
-- overstate_ui/api.py: `run_job` and its two kinds of body.
use overstate.Prelude.{
  suc, zero, Bool, List, Option, String, [], if◌then◌else◌, none, not, some, true, false, ℕ, ◌<>◌,
  ◌==◌, ◌=?◌, ◌||◌, ◌∷◌,
}
use overstate.Json.{
  Json, Fields, Items, arr, bool, get, null, num, obj, str, elements, to_str, truthy,
}
use overstate.Text.{parse_id}
use overstate.Text.Words.{show_int}
use overstate.Sets.{contains}
use overstate.Store.{User}
use overstate.Authz.Flags.{scoped_mode}
use overstate.Authz.Functions.{api_read_funs}
use overstate.Authz.Gates.{audit_deny, log_event}
use overstate.Jobs.Args.{has_key}
use overstate.Jobs.Launch.{Fire, Outcome, fired, refused, salt_error, with_world}
use overstate.Jobs.Launch.Run.{launch}
use Prim.Native.Char.{code}
use overstate.Text.{read_digits, strip}
use overstate.Api.{
  Pin, raises, overflows, no_row, names, ApiState, ApiToken, Authenticated, Outside, Response,
  SavedJob, accepted, authenticate, crashed, error, launched, rejected, with_state, world_of,
}

-- CONFIRM_FUNS of overstate_ui/jobs_helpers.py
abbrev pub confirm_funs : List String
confirm_funs =
    "pkg.install" ∷ "pkg.remove" ∷ "service.restart" ∷ "ps.kill_pid" ∷ "state.apply"
    ∷ "state.highstate" ∷ "state.orchestrate" ∷ "saltutil.sync_all" ∷ "saltutil.refresh_pillar" ∷ []

abbrev natural : Option ℕ → Pin
natural none = raises
natural (some n) = names n

abbrev negative : Option ℕ → Pin
negative none = raises
negative (some zero) = names 0
negative (some (suc n)) = no_row

abbrev pub signed : String → Pin
unfolding read_digits
signed String.[] = raises
signed (String.◌∷◌ c s) =
    if code c =? b'-' then negative (read_digits s 0 true) else natural (parse_id (String.◌∷◌ c s))

-- The text of a JSON integer, or a number with a fraction or an exponent.
abbrev whole_or_float : Outside → String → Pin → Pin
whole_or_float o text raises = o.int_of_float text
whole_or_float o text overflows = overflows
whole_or_float o text no_row = no_row
whole_or_float o text (names n) = names n

-- `int(saved_id)`
unfoldable pub pin_of : Outside → Json → Pin
unfolding strip
pin_of o (num text) = whole_or_float o text (signed text)
pin_of o (str text) = signed (strip text)
pin_of o (bool true) = names 1
pin_of o (bool false) = names 0
pin_of o _ = raises

-- `session.get(SavedJob, id)`
unfoldable pub saved_by_id : List SavedJob → ℕ → Option SavedJob
saved_by_id [] id = none
saved_by_id (j ∷ js) id = if j.id =? id then some j else saved_by_id js id

abbrev pub denied_pin : User → ApiState → Response × ApiState
denied_pin user s = (
  error 404 "unknown-saved-job",
  with_state (with_world (audit_deny user "job.run" none "pin-mismatch" (some user.username))) s,
)

abbrev response_of : Outcome → Response
response_of (fired jid) = launched jid
response_of (refused d) = error 403 "forbidden"
response_of (salt_error text) = crashed

-- A launch as the owner of the token.
unfoldable pub fire_as : Outside → Fire → ApiState → Response × ApiState
fire_as o fire s =
    let (outcome, state) = launch o.salt fire s.state in
    (response_of outcome, record s { state = state })

abbrev pub saved_fire : User → SavedJob → Fire
saved_fire user saved = record {
  tgt = saved.tgt;
  tgt_type = saved.tgt_type;
  fun = saved.fun;
  args = saved.args;
  kwarg = none;
  asynchronous = true;
  via = "local";
  tgt_requested = some saved.tgt;
  actor_user = some user;
}

-- The audit row of a saved job that changes the fleet.
abbrev pub noted : User → SavedJob → ApiState → ApiState
noted user saved s =
    if contains confirm_funs saved.fun
    then with_state
        (with_world (
          log_event user.username ("api-fire:destructive:" <> saved.fun) none none none
            (some ("saved:" <> show_int saved.id))))
        s
    else s

abbrev pub is_pin : Option ℕ → ℕ → Bool
is_pin none id = false
is_pin (some pin) id = pin =? id

unfoldable pub fire_saved : Outside → User → ApiToken → SavedJob → ApiState → Response × ApiState
fire_saved o user row saved s =
    if not (is_pin row.saved_job_id saved.id)
    then denied_pin user s
    else if truthy saved.batch
    then (error 400 "batch-saved-jobs-are-interactive-only", s)
    else fire_as o (saved_fire user saved) (noted user saved s)

abbrev pub fire_found : Outside → User → ApiToken → Option SavedJob → ApiState → Response × ApiState
fire_found o user row none s = denied_pin user s
fire_found o user row (some saved) s = fire_saved o user row saved s

abbrev pub fire_pin : Outside → User → ApiToken → Pin → ApiState → Response × ApiState
fire_pin o user row raises s = (error 404 "unknown-saved-job", s)
fire_pin o user row overflows s = (crashed, s)
fire_pin o user row no_row s = denied_pin user s
fire_pin o user row (names pin) s = fire_found o user row (saved_by_id s.saved_jobs pin) s

-- `_pinned_fire`
unfoldable pub pinned_fire : Outside → User → ApiToken → Json → ApiState → Response × ApiState
pinned_fire o user row saved_id s = fire_pin o user row (pin_of o saved_id) s

-- `body.get(key, default)`
abbrev get_or : String → Json → Fields → Json
get_or key other body = if has_key key body then get key body else other

abbrev pub read_fun : Json → Option String
read_fun (str fun) = if contains api_read_funs fun then some fun else none
read_fun _ = none

abbrev is_api_type : String → Bool
is_api_type tgt_type = tgt_type == "glob" || tgt_type == "list" || tgt_type == "group"

abbrev target_of : Json → Json → Option (String × String)
target_of (str tgt) (str tgt_type) = if is_api_type tgt_type then some (tgt, tgt_type) else none
target_of _ _ = none

abbrev arguments_of : Json → Json → Option (List Json × Option Fields)
arguments_of (arr vs) null = some (elements vs, none)
arguments_of (arr vs) (obj fs) = some (elements vs, some fs)
arguments_of _ _ = none

abbrev pub free_fire : User → String → String × String → List Json × Option Fields → Fire
free_fire user fun (tgt, tgt_type) (args, kwarg) = record {
  tgt = tgt;
  tgt_type = tgt_type;
  fun = fun;
  args = args;
  kwarg = kwarg;
  asynchronous = true;
  via = "local";
  tgt_requested = none;
  actor_user = some user;
}

abbrev pub fire_checked :
    Outside
    → User
    → String
    → Option (String × String)
    → Option (List Json × Option Fields)
    → ApiState
    → Response × ApiState
fire_checked o user fun none arguments s = (error 400 "bad-target", s)
fire_checked o user fun (some target) none s = (error 400 "bad-args", s)
fire_checked o user fun (some target) (some arguments) s =
    fire_as o (free_fire user fun target arguments) s

abbrev pub fire_read : Outside → User → Fields → Option String → ApiState → Response × ApiState
fire_read o user body none s = (
  error 403 "function-not-allowed",
  with_state
      (with_world (
        audit_deny user (to_str (world_of s).show (get "fun" body)) none "not-api-readable"
          (some user.username)))
      s,
)
fire_read o user body (some fun) s =
    fire_checked o user fun
      (target_of (get_or "tgt" (str "") body) (get_or "tgt_type" (str "glob") body))
      (arguments_of (get_or "args" (arr Items.nil) body) (get "kwarg" body)) s

-- `_unpinned_fire`
unfoldable pub unpinned_fire : Outside → User → Fields → ApiState → Response × ApiState
unpinned_fire o user body s = fire_read o user body (read_fun (get "fun" body)) s

abbrev pub unpinned_for : Outside → User → Fields → Option ℕ → ApiState → Response × ApiState
unpinned_for o user body none s = unpinned_fire o user body s
unpinned_for o user body (some pin) s = denied_pin user s

abbrev pub body_of : Outside → User → ApiToken → Option Json → ApiState → Response × ApiState
body_of o user row (some (obj body)) s =
    if has_key "saved_id" body
    then pinned_fire o user row (get "saved_id" body) s
    else unpinned_for o user body row.saved_job_id s
body_of o user row _ s = (error 400 "json-body-required", s)

abbrev pub authenticated_of : Outside → Option Json → Authenticated × ApiState → Response × ApiState
authenticated_of o body (rejected status text, s) = (error status text, s)
authenticated_of o body (accepted user row, s) = body_of o user row body s

-- `run_job`, with the Authorization header and the decoded body, none where it is no JSON
unfoldable pub run_job : Outside → Option String → Option Json → ApiState → Response × ApiState
run_job o header body s =
    if not (scoped_mode (world_of s))
    then (error 403 "api-requires-scoped-mode", s)
    else authenticated_of o body (authenticate o header s)
