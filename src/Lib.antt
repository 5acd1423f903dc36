-- ===== src/Lib.antt =====
-- Overstate is a web UI in front of Salt: operators accept keys, run jobs and apply states on a
-- fleet of minions, and every request passes the access control of overstate_ui/authz.py. This
-- library models the access control, the user administration that feeds it, the jobs that it lets
-- through with their wave batches and returns, the token API, the schedule of the file sync and
-- the pure parts of the login, and states what those parts promise.
--
-- How the parts interact. A user holds entries (role, scope kind, scope value) from grants, from
-- the grants of local groups and from mappings of identity-provider groups. `authorize` decides
-- one question about one minion or path over these entries and memoizes its answer for the
-- request; `minions_with` and `perm_scope_minions` compute whole sets of minions; job targets,
-- kills, schedules, file listings and delegation are decided with those sets; the gates
-- (`require`, `permission_required`, `roles_required`) stand before the views and audit denials.
-- The views of overstate_ui/users.py write the grants and groups and recompute the cached role of
-- each user concerned. `launch` and `run_batched` narrow a job to the caller's minions and
-- publish it, and `run_wave_batch` checks the user who started a batch again at every wave. A
-- Bearer token enters at `run_job`, which fires through `launch` as the token's owner; a login
-- through OIDC enters at `provision_oidc_user`, which writes the memberships that the mappings
-- read. `sync_job` copies what the returner wrote, completes the job and stamps the conformity
-- verdicts of its minions.
--
-- Where each part is. A name of the source keeps its name here, and each file begins with the
-- source file that it models.
--
--   Prelude, Sets, Text, Json, Glob: what the code uses of Python. A `set` is a list read by
--     membership only (Sets), `str` methods, `normpath` and `json.dumps` are in Text and its
--     children, JSON documents in Json, `fnmatch.fnmatchcase` in Glob with the relation that it
--     decides in Glob/Matching.
--   Store: the rows of overstate_ui/models.py, and `World`, the database and process that a
--     request sees.
--   Authz: overstate_ui/authz.py. Catalog (roles, permissions and their domains), Flags
--     (`rbac_flag`, the mode), Grains (`match_grain`), Scopes (`_resolve_scope`), Entries
--     (`_grant_entries`, `_effective_entries`), Decide (`_entry_covers`, `authorize` without its
--     memo, `minions_with` and the like), Memo (`authorize` and `_grant_entries` with the memos
--     on `flask.g` passed as state), Targets (`constrain_target_verbose`, `constrain_kill`),
--     Functions (`function_class`, `publish_perm`, schedules), Delegation
--     (`delegate_grant_error`, `delegate_group_error`), Prefixes (`visible_prefixes`), RoleCache
--     (`refresh_role_cache`), Backfill (`backfill_rbac`), Gates (the gates, with `roles_required`
--     of overstate_ui/auth.py and `log_event` of overstate_ui/audit.py).
--   Users: overstate_ui/users.py. Scope (`_validate_grant_scope`), Grants (`create_grant`,
--     `delete_grant`), Groups (local groups and their members), GroupGrants, Accounts
--     (`set_role`, `create_service_account`, `delete`), Writes (all writing requests as one type,
--     and runs of them). Frame holds the tables that no decision reads.
--   Batch: overstate_ui/tasks_batch.py. Split (`split_roster`), Waves (`run_wave_batch`).
--   Jobs: overstate_ui/jobs_service.py with the tables of overstate_ui/models.py that it writes.
--     Roster (`resolve_group_target`, `resolve_batch_roster`), Sync (`sync_job`), Verdicts
--     (`apply_sync_verdicts` of overstate_ui/states.py) with Outcomes and Status (what decides a
--     verdict), Landed and History, Args (what `_force_beacon_kwargs`, `_schedule_inner_fun` and
--     `_split_sync_result` read), Launch (the checks of `launch`) with Launch/Run (its publish
--     and audit rows), Batched (`run_batched` up to the queue). Sync/Waves puts `sync_job` beside
--     the wait of `run_wave_batch`.
--   Api: overstate_ui/api.py and the tokens of overstate_ui/users.py. Api (`_parse_bearer`,
--     `_authenticate`), Requests (`run_job`, `_pinned_fire`, `_unpinned_fire`), Authorized (what
--     a token makes Salt do), Tokens (`create_token`, `revoke_token`) with Minted and Live.
--   Login: overstate_ui/auth.py. Login (`role_for_groups`, `_safe_next`), Budget
--     (`_memory_limited`, `_rate_limited`, `_rate_reset`), Groups (the role of a claim beside
--     `backfill_rbac`), Provision (`provision_oidc_user`) with Linked, Unmerged and Roles.
--   FileSync: overstate_ui/file_sync_schedule.py. FileSync (`parse_cron`, `cron_matches`,
--     `due_slot`), Runs (`_sync_now`, `run_scheduled_sync`), with Steps, Values, Days and Slots.
--
-- State. A view is a function from the database, the caller, the memos and the form to the
-- database and memos that it leaves and its answer, a redirect with a message or 403. Exceptions
-- that the code turns into an answer are constructors of result types (`AuthzDenied` in Targets,
-- a failed publish in Batch/Waves). The batch loop takes the cancel flag, the database at each
-- wave, the answers of the pods and the returns that have arrived as arguments, which stand for
-- whatever other requests write in between. A launch takes Salt as an argument (the pods and
-- which of them refuse, the reply of salt-ssh, the job id that is made up, the rounds of a wait)
-- and leaves the list of calls that Salt received; a sync takes the clocks and the master's
-- answer.
--
-- Fuel. Every loop is structural recursion over the rows, the waves or the text. Two functions
-- run on fuel. `slices` in Batch/Split has the length of its list, which is enough because every
-- slice takes at least one element; `range_from` in FileSync has the number of the integers from
-- the start to the end, which is enough because a step is at least one.
--
-- What is left out. Flask, SQLAlchemy, Redis, argon2 and Salt are not modelled: a query is a scan
-- of a table, a commit is the new value of the database, and concurrent transactions are not
-- interleaved within one request. `json.loads` and the `str` of a container are fields of
-- `World`. Log warnings, the job id column of audit rows, timestamps other than those that
-- `sync_job` compares (they count microseconds), password hashes and the pages that only render
-- are left out. Digits in ids are the ASCII ones, an id is a natural number, and JSON numbers are
-- kept as texts. Deleting a user cascades as PostgreSQL's foreign keys do.
--
-- The theorems about access compare the code with one specification, `decide`: what the rows say
-- about one permission on one minion or path.
pub mod Prelude
pub mod Sets
pub mod Text
pub mod Json
pub mod Glob
pub mod Store
pub mod Authz
pub mod Users
pub mod Batch
pub mod Jobs
pub mod Login
pub mod Api
pub mod FileSync
