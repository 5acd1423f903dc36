-- ===== src/Jobs/Launch/Run.antt =====
-- overstate_ui/jobs_service.py: the publish of `launch`, after its checks. An error of a pod other
-- than SaltApiError is not modelled.
pub mod Frame
pub mod Authorized
use overstate.Prelude.{
  Bool, List, Option, String, [], if◌then◌else◌, none, not, some, ◌&&◌, ◌++◌, ◌<>◌, ◌==◌, ◌∷◌, ◌=?◌,
  ◌||◌, true, false, map, ℕ,
}
use overstate.Json.{Fields, end, field}
use overstate.Text.{join}
use overstate.Text.Words.{show_int}
use overstate.Sets.{is_empty}
use overstate.Sets.Sorting.{sorted}
use overstate.Store.{User, World}
use overstate.Batch.Split.{length}
use overstate.Authz.Gates.{audit_deny, log_event}
use overstate.Authz.Targets.{Result, ok, denied, published_snapshot_ids}
use overstate.Jobs.{Job, JobReturn, Tables}
use overstate.Jobs.Args.{payload_success, split_sync_result}
use overstate.Jobs.Roster.{Resolved, resolved, unresolved, resolve_group_target}
use overstate.Jobs.Sync.{keys, stored_minions, sync_job}
use overstate.Jobs.Launch.{
  Fire, Outcome, Plan, Reply, Round, Salt, State, call_of, failed, fired, flash, last_error,
  missed_pods, name_of, plan_of, refused, reply, salt_error, who, with_world,
}

-- `_run_audit_ids`
unfoldable pub run_audit_ids : World → String → String → Option String × Option String
run_audit_ids w tgt tgt_type = elim (published_snapshot_ids w (some tgt) (some tgt_type)) [
  | none ↦ (none, none)
  | some [] ↦ (none, none)
  | some (mid ∷ []) ↦ (some mid, none)
  | some (mid ∷ other ∷ mids) ↦ (none, some (join (sorted (mid ∷ other ∷ mids))))
]

-- The name on the audit rows of a launch, and whether a browser is there to flash to: there is none
-- for a token.
abbrev pub notice_name : Salt → Option User → String
notice_name salt none = salt.current_user.username
notice_name salt (some actor) = name_of actor

abbrev pub has_browser : Option User → Bool
has_browser none = true
has_browser (some actor) = false

abbrev pub flash_if : Bool → String → String → State → State
flash_if browser text category s = if browser then flash text category s else s

-- `_audit_narrowed`
unfoldable pub audit_narrowed : Salt → Option User → List String → String → State → State
audit_narrowed salt actor narrowed perm s =
    let count = show_int (length narrowed) in
    if is_empty narrowed || perm == ""
    then s
    else flash_if (has_browser actor)
        (count <> " minions are outside your scope and will not be touched.") "warning"
        (with_world
          (log_event (notice_name salt actor) "job-constrained" (some "allow") (some perm) none
            (some (join (sorted narrowed))))
          s)

-- `_warn_missed`
unfoldable pub warn_missed : Salt → Fire → List (String × String) → State → State
warn_missed salt fire [] s = s
warn_missed salt fire ((pod, error) ∷ missed) s = warn_missed salt fire missed (
    with_world
      (log_event (notice_name salt fire.actor_user) ("run-partial:" <> (fire.fun <> (":" <> pod)))
        none none none none)
      (flash_if (has_browser fire.actor_user) (pod <> " is unreachable, so results may be partial.")
        "warning" s))

abbrev typed : Fire → String
typed fire = elim fire.tgt_requested [ none ↦ fire.tgt | some text ↦ text ]

abbrev pub job_row : Salt → User → Fire → Plan → String → Bool → Job
job_row salt user fire plan jid complete = record {
  jid = jid;
  fun = fire.fun;
  tgt = plan.tgt;
  tgt_type = plan.tgt_type;
  user = name_of user;
  started_at = salt.db_now;
  complete = complete;
  batch_group = none;
  tgt_requested = some (typed fire);
}

abbrev pub add_job : Job → State → State
add_job job s = record s { tables = record s.tables { jobs = s.tables.jobs ++ job ∷ [] } }

-- The rows and notices of a publish that some pod took.
unfoldable pub recorded : Salt → User → Fire → Plan → List (String × String) → State → State
recorded salt user fire plan missed s =
    let (mid, detail) = run_audit_ids s.tables.world plan.tgt plan.tgt_type in
    warn_missed salt fire missed (
      audit_narrowed salt fire.actor_user plan.narrowed plan.perm (
        with_world (log_event (name_of user) ("run:" <> fire.fun) none none mid detail)
          (add_job (job_row salt user fire plan salt.new_jid false) s)))

-- `_await_returner`: the budget bounds the rounds, and the end of the list is its end.
unfoldable pub await_returner : String → List Round → Tables → Bool × Tables
await_returner jid [] t = (false, t)
await_returner jid (round ∷ rounds) t =
    let t' = sync_job round.moment jid none (record t { salt_returns = round.rows }) in
    let later = await_returner jid rounds t' in
    if not (is_empty (stored_minions t'.job_returns jid))
    then (true, t')
    else if round.over
    then (false, t')
    else later

abbrev pub awaited : Salt → Fire → State → State
awaited salt fire s =
    if fire.asynchronous
    then s
    else record s { tables = (await_returner salt.new_jid salt.rounds s.tables).1 }

-- The publish to every pod, under one id.
unfoldable pub publish : Salt → User → Fire → Plan → State → Outcome × State
publish salt user fire plan s =
    let missed = missed_pods salt salt.pods in
    let s' = record s { sent = s.sent ++ map (call_of fire plan salt.new_jid) salt.pods } in
    if not (length missed =? 0) && length missed =? length salt.pods
    then (salt_error (last_error missed), s')
    else (fired salt.new_jid, awaited salt fire (recorded salt user fire plan missed s'))

abbrev return_rows : String → Fields → List JobReturn
return_rows jid end = []
return_rows jid (field mid payload fs) =
    record {
      jid = jid;
      minion_id = mid;
      success = payload_success payload;
      retcode = 0;
      payload = payload;
    }
    ∷ return_rows jid fs

-- The single minion of a list, or the list.
abbrev ssh_audit_ids : List String → Option String × Option String
ssh_audit_ids [] = (none, none)
ssh_audit_ids (mid ∷ []) = (some mid, none)
ssh_audit_ids (mid ∷ other ∷ mids) = (none, some (join (mid ∷ other ∷ mids)))

abbrev ssh_jid : Salt → Option String → String
ssh_jid salt none = salt.ssh_jid
ssh_jid salt (some jid) = jid

unfoldable pub ssh_recorded : Salt → User → Fire → Plan → String → Fields → State → State
ssh_recorded salt user fire plan jid mapping s =
    let (mid, detail) = ssh_audit_ids (sorted (keys mapping)) in
    let s' = add_job (job_row salt user fire plan jid true) s in
    audit_narrowed salt fire.actor_user plan.narrowed plan.perm (
      with_world (log_event (name_of user) ("run-ssh:" <> fire.fun) none none mid detail)
        (record s' {
          tables = record s'.tables {
            job_returns = s'.tables.job_returns ++ return_rows jid mapping;
          };
        }))

abbrev pub ssh_answered : Salt → User → Fire → Plan → Reply → State → Outcome × State
ssh_answered salt user fire plan (failed error) s = (salt_error error, s)
ssh_answered salt user fire plan (reply result) s =
    let (real, mapping) = split_sync_result s.tables.world.show result in
    let jid = ssh_jid salt real in (fired jid, ssh_recorded salt user fire plan jid mapping s)

-- salt-ssh: one pod executes, and the request waits for its reply. The call goes to the client of
-- the request, which is no pod of the list.
unfoldable pub run_ssh : Salt → User → Fire → Plan → State → Outcome × State
run_ssh salt user fire plan s =
    ssh_answered salt user fire plan salt.ssh
      (record s { sent = s.sent ++ call_of fire plan "" "" ∷ [] })

abbrev pub run_plan : Salt → User → Fire → Plan → State → Outcome × State
run_plan salt user fire plan s =
    if fire.via == "ssh" then run_ssh salt user fire plan s else publish salt user fire plan s

abbrev pub run_group : Salt → User → Fire → Plan → Resolved → State → Outcome × State
run_group salt user fire plan (unresolved error) s = (salt_error error, s)
run_group salt user fire plan (resolved targets stale) s =
    let text =
      "Group '" <> (plan.tgt <> ("': " <> (show_int stale <> " stale members skipped."))) in
    run_plan salt user fire (record plan { tgt = join targets; tgt_type = "list" })
      (if stale =? 0 then s else flash text "warning" s)

-- A group is pinned to its members in the snapshot.
unfoldable pub run_resolved : Salt → User → Fire → Plan → State → Outcome × State
run_resolved salt user fire plan s =
    if plan.tgt_type == "group"
    then run_group salt user fire plan (resolve_group_target s.tables.world plan.tgt) s
    else run_plan salt user fire plan s

abbrev pub planned : Salt → User → Fire → Result Plan → State → Outcome × State
planned salt user fire (denied d) s =
    (refused d, with_world (audit_deny user d.perm none d.detail (some (name_of user))) s)
planned salt user fire (ok plan) s = run_resolved salt user fire plan s

unfoldable pub launch : Salt → Fire → State → Outcome × State
launch salt fire s =
    let user = who salt fire.actor_user in
    planned salt user fire (plan_of s.tables.world user fire) s
