-- ===== src/Jobs/Examples/Launches.antt =====
-- Launches and batches on the sample fleet.
use overstate.Prelude.{
  Option, String, [], true, none, some, refl, ◌∷◌, ◌≡◌, if◌then◌else◌, map, ◌==◌,
}
use overstate.Json.{str}
use overstate.Authz.Examples.{site_scoped}
use overstate.Authz.Sample.{site, boss, lead}
use overstate.Batch.Split.{drop, length, slices, split_roster, take, wave_size}
use overstate.Batch.Split.Partition.{concat}
use overstate.Jobs.Args.{
  clean_args, first_function, force_beacon_kwargs, schedule_inner_fun, set_field, without_options,
}
use overstate.Jobs.Examples.{sync_runs, landed}
use overstate.Jobs.Launch.{
  Call, Fire, Salt, State, failed, fired, last_error, missed_pods, plan_of, schedule_allowed,
  scheduled_plan, scoped_plan,
}
use overstate.Jobs.Launch.Run.{
  audit_narrowed, await_returner, launch, publish, recorded, run_audit_ids, run_resolved, run_ssh,
  ssh_recorded, warn_missed,
}
use overstate.Jobs.Batched.{
  Request, Started, check_request, check_scoped, first_missing, holds_roster, run_batched, start,
  started,
}
use overstate.Jobs.Batched.Safe.{IsHanded, run_batched-IsHanded}

unfoldable pub launch_runs : Unit {0}
unfolding sync_runs clean_args first_function force_beacon_kwargs schedule_inner_fun set_field
    without_options last_error missed_pods plan_of schedule_allowed scheduled_plan scoped_plan
    audit_narrowed await_returner launch publish recorded run_audit_ids run_resolved run_ssh
    ssh_recorded warn_missed check_request check_scoped first_missing holds_roster run_batched start
    drop length slices split_roster take wave_size concat
launch_runs = tt

abbrev pub salt : Salt
salt = record {
  pods = "m1" ∷ "m2" ∷ [];
  refuses = λ pod. if pod == "m2" then some "timeout" else none;
  ssh = failed "no roster";
  new_jid = "j9";
  ssh_jid = "ssh-1";
  db_now = 5000000;
  current_user = lead;
  rounds = [];
}

abbrev pub state : State
state = record { tables = landed; sent = []; flashes = [] }

abbrev fire : Fire
fire = record {
  tgt = "*";
  tgt_type = "glob";
  fun = "pkg.install";
  args = str "vim" ∷ [];
  kwarg = none;
  asynchronous = true;
  via = "local";
  tgt_requested = none;
  actor_user = none;
}

-- The job reaches both pods, narrowed to the caller's minions; `db-1` is dropped.
fired_calls :
    let (outcome, s) = launch salt fire state in
    (outcome ≡ fired "j9")
    × (map {B = String × String × String} (λ (c : Call). (c.pod, c.tgt, c.tgt_type)) s.sent
        ≡ ("m1", "web-1,web-2", "list") ∷ ("m2", "web-1,web-2", "list") ∷ [])
    × (map {B = String × Option String} (λ a. (a.action, a.detail)) s.tables.world.audit_events
        ≡ ("run-partial:pkg.install:m2", none)
          ∷ ("job-constrained", some "db-1")
          ∷ ("run:pkg.install", some "web-1,web-2")
          ∷ [])
unfolding launch_runs
fired_calls = (refl, refl, refl)

abbrev request : Request
request = record {
  tgt = "web-*";
  tgt_type = "glob";
  fun = "pkg.install";
  args = str "vim" ∷ [];
  batch = record { mode = "count"; size = 1; stop_after = 1 };
  save_as = "";
  actor_user = some boss;
}

boss_batch : (b : Started) × (run_batched salt "g" request state ≡ started b)
unfolding launch_runs
boss_batch = (_, refl)

run_batched-IsHanded_example : IsHanded site boss request boss_batch.0.task
run_batched-IsHanded_example =
    run_batched-IsHanded salt "g" request state boss_batch.0 site_scoped boss_batch.1
