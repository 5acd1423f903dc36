-- ===== src/Jobs/Launch/Run/Authorized.antt =====
-- overstate_ui/jobs_service.py: what `launch` sends to Salt in scoped mode.
use overstate.Prelude.{
  ◌∙◌, ap, ℕ, ◌⊎◌, All, All-append, List, Option, String, [], none, not, some, ◌&&◌, ◌++◌, ◌==◌,
  ◌∷◌, ◌≡◌, inl, inr, refl, arith, true, map, eq_iff, if-both, sym, subst, all, ◌=?◌,
}
use overstate.Json.{Json, Fields}
use mathlib.Core.List.{append-nil, append_assoc}
use overstate.Text.{join}
use overstate.Sets.{contains}
use overstate.Sets.Sorting.{sorted}
use overstate.Store.{User, World}
use overstate.Authz.Flags.{scoped_mode}
use overstate.Authz.Decide.{decide, has_fleet}
use overstate.Authz.Functions.{publish_perm}
use overstate.Authz.Targets.{requested_ids, Result, Target, ok, denied, constrain_target_verbose}
use overstate.Authz.Targets.Narrowing.{constrain_target_safe}
use overstate.Jobs.Args.{force_beacon_kwargs, schedule_inner_fun}
use overstate.Jobs.Launch.{
  Call, Fire, Outcome, Plan, Reply, Salt, State, call_of, plan_of, scoped_plan, scheduled_plan,
  schedule_allowed, targeted_plan, or_blank, reply, failed, missed_pods, who,
}
use overstate.Jobs.Launch.Run.{
  publish, run_plan, run_ssh, ssh_answered, launch, planned, run_resolved, run_group,
}
use overstate.Jobs.Launch.Run.Frame.{ssh-sent, recorded-sent}
use overstate.Batch.Split.{length}
use overstate.Jobs.Roster.{Resolved, resolve_group_target, unresolved, resolved}

module _ (w : World) (user : User) (fire : Fire) where
  -- The target of the caller, or the members of the group that it names.
  abbrev pub NamesWhole : String → String → Type 0
  NamesWhole tgt tgt_type =
      ((tgt ≡ fire.tgt) × (tgt_type ≡ fire.tgt_type))
      ⊎ ((targets : List String) × (stale : ℕ) × (fire.tgt_type ≡ "group")
          × (resolve_group_target w fire.tgt ≡ resolved targets stale)
          × (tgt ≡ join targets)
          × (tgt_type ≡ "list"))

  -- Whom a publish under a permission may reach: what the caller named under a fleet grant, or the list
  -- of some minions, on each of which the user is authorized.
  abbrev pub Reaches : String → Option (List String) → String → String → Type 0
  Reaches perm none tgt tgt_type = (has_fleet w user perm ≡ true) × NamesWhole tgt tgt_type
  Reaches perm (some hit) tgt tgt_type =
      (tgt ≡ join (sorted hit))
      × (tgt_type ≡ "list")
      × ((asked : List String) × (requested_ids w perm fire.tgt fire.tgt_type ≡ ok asked)
          × ((mid : String) → contains hit mid ≡ true → contains asked mid ≡ true))
      × ((mid : String) → contains hit mid ≡ true → decide w user perm (some mid) none ≡ true)

  -- The schedule that a call adds is allowed on all that it reaches.
  abbrev pub SchedulesAllowed : Option (List String) → List Json → Option Fields → Type 0
  SchedulesAllowed hit args kwarg =
      fire.fun ≡ "schedule.add" → schedule_allowed w user (schedule_inner_fun args kwarg) hit ≡ true

  pub record IsAuthorized (c : Call) : Type 0 where
    pub perm : String
    pub hit : Option (List String)
    pub same_fun : c.fun ≡ fire.fun
    pub class : publish_perm fire.fun ≡ some perm
    pub reach : Reaches perm hit c.tgt c.tgt_type
    pub arguments : (c.args, c.kwarg) ≡ force_beacon_kwargs fire.fun fire.args fire.kwarg
    pub schedule : SchedulesAllowed hit c.args c.kwarg

  -- The same of a plan.
  record PlanAuthorized (p : Plan) : Type 0 where
    perm : String
    hit : Option (List String)
    class : publish_perm fire.fun ≡ some perm
    reach : Reaches perm hit p.tgt p.tgt_type
    arguments : (p.args, p.kwarg) ≡ force_beacon_kwargs fire.fun fire.args fire.kwarg
    schedule : SchedulesAllowed hit p.args p.kwarg

  fleet_target :
      (perm : String) (t : Target)
      → has_fleet w user perm ≡ true
      → constrain_target_verbose w user perm fire.tgt fire.tgt_type ≡ ok t
      → t.hit ≡ none
  unfolding constrain_target_verbose
  fleet_target perm t all h = ground arith

  reach_target :
      (perm : String) (t : Target)
      → constrain_target_verbose w user perm fire.tgt fire.tgt_type ≡ ok t
      → Reaches perm t.hit t.tgt t.tgt_type
  reach_target perm t h = elim (constrain_target_safe w user perm fire.tgt fire.tgt_type t h) [
    | inl same ↦
        subst (λ hit. Reaches perm hit t.tgt t.tgt_type) (sym (fleet_target perm t same.0 h))
          (same.0, inl (same.1, same.2))
    | inr n ↦
        subst (λ hit. Reaches perm hit t.tgt t.tgt_type) (sym n.reported.1)
          (n.text, n.list, (n.asked, n.resolved, n.named), λ mid e. (n.allowed mid none e).1)
  ]

  scheduled-PlanAuthorized :
      (perm : String) (t : Target) (p : Plan)
      → publish_perm fire.fun ≡ some perm
      → Reaches perm t.hit t.tgt t.tgt_type
      → scheduled_plan w user fire perm t ≡ ok p
      → PlanAuthorized p
  unfolding scheduled_plan
  scheduled-PlanAuthorized perm t p class reach h = record {
    perm = perm;
    hit = t.hit;
    class = class;
    reach = subst (λ (x : String × String). Reaches perm t.hit x.0 x.1) (ground arith) reach;
    arguments = ground arith;
    schedule = λ adds. ground (arith, eq_iff fire.fun "schedule.add");
  }

  targeted-PlanAuthorized :
      (perm : String) (r : Result Target) (p : Plan)
      → publish_perm fire.fun ≡ some perm
      → constrain_target_verbose w user perm fire.tgt fire.tgt_type ≡ r
      → targeted_plan w user fire perm r ≡ ok p
      → PlanAuthorized p
  targeted-PlanAuthorized perm (denied d) p class e h = absurd (cc)
  targeted-PlanAuthorized perm (ok t) p class e h =
      scheduled-PlanAuthorized perm t p class (reach_target perm t e) h

  scoped-PlanAuthorized :
      (o : Option String) (p : Plan)
      → publish_perm fire.fun ≡ o
      → scoped_plan w user fire (or_blank o) ≡ ok p
      → PlanAuthorized p
  unfolding scoped_plan
  scoped-PlanAuthorized none p class h = absurd (ground arith)
  scoped-PlanAuthorized (some perm) p class h =
      targeted-PlanAuthorized perm (constrain_target_verbose w user perm fire.tgt fire.tgt_type) p
        class refl (ground arith)

  plan-PlanAuthorized :
      (p : Plan) → scoped_mode w ≡ true → plan_of w user fire ≡ ok p → PlanAuthorized p
  unfolding plan_of
  plan-PlanAuthorized p scoped h =
      scoped-PlanAuthorized (publish_perm fire.fun) p refl (rw scoped at h)

  module _ (salt : Salt) (p : Plan) (good : PlanAuthorized p) where
    call-IsAuthorized : (jid pod : String) → IsAuthorized (call_of fire p jid pod)
    call-IsAuthorized jid pod = record {
      perm = good.perm;
      hit = good.hit;
      same_fun = refl;
      class = good.class;
      reach = good.reach;
      arguments = good.arguments;
      schedule = good.schedule;
    }

    calls-IsAuthorized :
        (jid : String) (pods : List String) (sent : List Call)
        → All IsAuthorized sent
        → All IsAuthorized (sent ++ map (call_of fire p jid) pods)
    calls-IsAuthorized jid [] sent before = subst (All IsAuthorized) (sym (append-nil sent)) before
    calls-IsAuthorized jid (pod ∷ pods) sent before =
        subst (All IsAuthorized) (append_assoc sent (call_of fire p jid pod ∷ []) _) (
          calls-IsAuthorized jid pods (sent ++ call_of fire p jid pod ∷ []) (
            All-append IsAuthorized sent (call_of fire p jid pod) before
              (call-IsAuthorized jid pod)))

    publish-IsAuthorized :
        (s : State) → All IsAuthorized s.sent → All IsAuthorized (publish salt user fire p s).1.sent
    unfolding publish
    publish-IsAuthorized s before =
        let missed = missed_pods salt salt.pods in
        let called = calls-IsAuthorized salt.new_jid salt.pods s.sent before in
        if-both (λ (r : Outcome × State). All IsAuthorized r.1.sent)
          (not (length missed =? 0) && length missed =? length salt.pods) _ _ (λ _. called)
          (λ _. subst (All IsAuthorized) (sym (recorded-sent salt fire user p missed _)) called)

    answered-IsAuthorized :
        (r : Reply) (s : State)
        → All IsAuthorized s.sent
        → All IsAuthorized (ssh_answered salt user fire p r s).1.sent
    answered-IsAuthorized (failed error) s before = before
    answered-IsAuthorized (reply result) s before =
        subst (All IsAuthorized) (sym (ssh-sent salt fire user p _ _ s)) before

    run-IsAuthorized :
        (s : State)
        → All IsAuthorized s.sent
        → All IsAuthorized (run_plan salt user fire p s).1.sent
    unfolding run_ssh
    run-IsAuthorized s before =
        if-both (λ (r : Outcome × State). All IsAuthorized r.1.sent) (fire.via == "ssh")
          (run_ssh salt user fire p s) (publish salt user fire p s)
          (λ _. answered-IsAuthorized salt.ssh _ (
            All-append IsAuthorized s.sent (call_of fire p "" "") before (call-IsAuthorized "" "")))
          (λ _. publish-IsAuthorized s before)

  pinned_whole :
      (p : Plan) (targets : List String) (stale : ℕ)
      → p.tgt_type ≡ "group"
      → resolve_group_target w p.tgt ≡ resolved targets stale
      → NamesWhole p.tgt p.tgt_type
      → NamesWhole (join targets) "list"
  pinned_whole p targets stale group members (inl (own, own_type)) = inr (
    targets,
    stale,
    sym own_type ∙ group,
    ap (resolve_group_target w) (sym own) ∙ members,
    refl,
    refl,
  )
  pinned_whole p targets stale group members (inr (ids, gone, named, ids_of, text, list)) =
      absurd (ground (arith, list, group, eq_iff "group" "list"))

  -- A group is only published under a fleet grant, and to its members.
  pinned-PlanAuthorized :
      (p : Plan) (targets : List String) (stale : ℕ)
      → PlanAuthorized p
      → p.tgt_type ≡ "group"
      → resolve_group_target w p.tgt ≡ resolved targets stale
      → PlanAuthorized (record p { tgt = join targets; tgt_type = "list" })
  pinned-PlanAuthorized p targets stale good group members =
      pinned (good.hit) good.reach good.schedule
    where
      pinned :
          (hit : Option (List String))
          → Reaches good.perm hit p.tgt p.tgt_type
          → SchedulesAllowed hit p.args p.kwarg
          → PlanAuthorized (record p { tgt = join targets; tgt_type = "list" })
      pinned none (fleet, whole) schedule = record {
        perm = good.perm;
        hit = none;
        class = good.class;
        reach = (fleet, pinned_whole p targets stale group members whole);
        arguments = good.arguments;
        schedule = schedule;
      }
      pinned (some ids) (text, list, asked, ids_allowed) schedule =
          absurd (ground (arith, list, group, eq_iff "group" "list"))

  module _ (salt : Salt) where
    group-IsAuthorized :
        (r : Resolved) (p : Plan) (s : State)
        → PlanAuthorized p
        → p.tgt_type ≡ "group"
        → resolve_group_target w p.tgt ≡ r
        → All IsAuthorized s.sent
        → All IsAuthorized (run_group salt user fire p r s).1.sent
    group-IsAuthorized (unresolved error) p s good group members before = before
    group-IsAuthorized (resolved targets stale) p s good group members before =
        run-IsAuthorized salt _ (pinned-PlanAuthorized p targets stale good group members) _ (
          if-both (λ (u : State). All IsAuthorized u.sent) (stale =? 0) s _ (λ _. before)
            (λ _. before))

    resolved-IsAuthorized :
        (p : Plan) (s : State)
        → s.tables.world ≡ w
        → PlanAuthorized p
        → All IsAuthorized s.sent
        → All IsAuthorized (run_resolved salt user fire p s).1.sent
    unfolding run_resolved
    resolved-IsAuthorized p s here good before =
        if-both (λ (r : Outcome × State). All IsAuthorized r.1.sent) (p.tgt_type == "group") _
          (run_plan salt user fire p s)
          (λ e.
            group-IsAuthorized (resolve_group_target s.tables.world p.tgt) p s good
              ((eq_iff p.tgt_type "group").0 e) (ap (λ v. resolve_group_target v p.tgt) (sym here))
              before)
          (λ _. run-IsAuthorized salt p good s before)

    planned-IsAuthorized :
        (r : Result Plan) (s : State)
        → s.tables.world ≡ w
        → ((p : Plan) → r ≡ ok p → PlanAuthorized p)
        → All IsAuthorized s.sent
        → All IsAuthorized (planned salt user fire r s).1.sent
    planned-IsAuthorized (denied d) s here good before = before
    planned-IsAuthorized (ok p) s here good before =
        resolved-IsAuthorized p s here (good p refl) before

pub launch-IsAuthorized :
    (salt : Salt) (fire : Fire) (s : State)
    → scoped_mode s.tables.world ≡ true
    → All (IsAuthorized s.tables.world (who salt fire.actor_user) fire) s.sent
    → All (IsAuthorized s.tables.world (who salt fire.actor_user) fire) (launch salt fire s).1.sent
unfolding launch
launch-IsAuthorized salt fire s scoped before =
    let w = s.tables.world in
    let user = who salt fire.actor_user in
    planned-IsAuthorized w user fire salt (plan_of w user fire) s refl
      (λ p e. plan-PlanAuthorized w user fire p scoped e) before
