-- ===== src/Jobs/Batched/Safe.antt =====
-- overstate_ui/jobs_service.py: the roster that `run_batched` starts with in scoped mode.
use overstate.Prelude.{
  List, String, none, some, ◌≡◌, ◌==◌, true, false, arith, inl, inr, Bool-cases, Option, [], all,
  ap, if-both, refl, subst, sym, ◌∙◌,
}
use overstate.Sets.{contains, is_empty, subset-contains}
use overstate.Store.{User, World}
use overstate.Authz.Decide.{decide, has_fleet, minions_with}
use overstate.Authz.Decide.Agreement.{has_fleet-decide, minions_with_sound}
use overstate.Authz.Functions.{publish_perm}
use overstate.Jobs.Batched.{
  Checked, Request, holds_roster, roster, check_request, check_scoped, checked_roster, granted,
  hit_roster, run_batched, start, unless_missing, started, target_roster, turned_back,
  first_missing, Started, answer_of, BatchAnswer, barred, WaveTask,
}
use overstate.Authz.Targets.{Result, Target, constrain_target_verbose, ok, denied}
use overstate.Authz.Flags.{scoped_mode}
use overstate.Jobs.Launch.{Salt, or_blank, State, who, name_of}
use overstate.Sets.Sorting.{contains-sorted, sorted-empty}
use overstate.Authz.Targets.Narrowing.{constrain_target_safe}
use overstate.Batch.Split.Partition.{concat, split_roster-partition}
use overstate.Jobs.Roster.{resolve_batch_roster}

module _ (w : World) (user : User) (r : Request) where
  -- The user is authorized on every listed minion.
  abbrev pub Holds : String → List String → Type 0
  Holds perm ids =
      (mid : String) → contains ids mid ≡ true → decide w user perm (some mid) none ≡ true

  holds : (perm : String) (ids : List String) → holds_roster w user perm ids ≡ true → Holds perm ids
  unfolding holds_roster
  holds perm ids h mid e = elim (Bool-cases (has_fleet w user perm)) [
    | inl fleet ↦ has_fleet-decide w perm (some mid) none user fleet
    | inr scoped ↦
        (minions_with_sound w perm mid user none
          (subset-contains ids (minions_with w user perm) mid (ground arith) e)).1
  ]

  pub record IsHeld (ids : List String) : Type 0 where
    pub perm : String
    pub class : publish_perm r.fun ≡ some perm
    pub runs : Holds perm ids
    pub batches : Holds "job.batch" ids
    pub saves : (r.save_as == "") ≡ false → Holds "job.save" ids
    pub some_minion : is_empty ids ≡ false

  -- What the target check leaves.
  abbrev Runs : String → Checked → Type 0
  Runs perm (roster ids narrowed) = Holds perm ids × (is_empty ids ≡ false)
  Runs perm c = Unit

  fleet_target :
      (perm : String) (t : Target)
      → has_fleet w user perm ≡ true
      → constrain_target_verbose w user perm r.tgt r.tgt_type ≡ ok t
      → t.hit ≡ none
  unfolding constrain_target_verbose
  fleet_target perm t all h = ground arith

  snapshot-Runs :
      (perm : String) (o : Option (List String))
      → has_fleet w user perm ≡ true
      → Runs perm (checked_roster o)
  snapshot-Runs perm none fleet = tt
  snapshot-Runs perm (some ids) fleet =
      if-both (Runs perm) (is_empty ids) (turned_back "No known minions match.") (roster ids [])
        (λ _. tt)
        (λ some_id. (λ mid e. has_fleet-decide w perm (some mid) none user fleet, some_id))

  hit-Runs :
      (perm : String) (requested : Option (List String)) (hit : List String)
      → Holds perm hit
      → is_empty hit ≡ false
      → Runs perm (hit_roster w r requested (some hit))
  hit-Runs perm none hit h some_hit =
      (λ mid e. h mid (sym (contains-sorted hit mid) ∙ e), sorted-empty hit some_hit)
  hit-Runs perm (some requested) hit h some_hit =
      (λ mid e. h mid (sym (contains-sorted hit mid) ∙ e), sorted-empty hit some_hit)

  target-Runs :
      (perm : String) (t : Target)
      → constrain_target_verbose w user perm r.tgt r.tgt_type ≡ ok t
      → Runs perm (target_roster w r (ok t))
  target-Runs perm t h = elim (constrain_target_safe w user perm r.tgt r.tgt_type t h) [
    | inl same ↦
        subst (λ hit. Runs perm (hit_roster w r t.requested hit))
          (sym (fleet_target perm t same.0 h))
          (snapshot-Runs perm (resolve_batch_roster w r.tgt r.tgt_type) same.0)
    | inr n ↦
        subst (λ hit. Runs perm (hit_roster w r t.requested hit)) (sym n.reported.1)
          (hit-Runs perm t.requested n.hit (λ mid e. (n.allowed mid none e).1) n.not_empty)
  ]

  result-Runs :
      (perm : String) (o : Result Target)
      → constrain_target_verbose w user perm r.tgt r.tgt_type ≡ o
      → Runs perm (target_roster w r o)
  result-Runs perm (denied d) h = tt
  result-Runs perm (ok t) h = target-Runs perm t h

  module _ (perm : String) (class : publish_perm r.fun ≡ some perm)
      (ids narrowed : List String) where
    granted-IsHeld :
        (c : Checked) → Runs perm c → granted w user r c ≡ roster ids narrowed → IsHeld ids
    granted-IsHeld (barred p detail) h e = absurd (cc)
    granted-IsHeld (turned_back text) h e = absurd (cc)
    granted-IsHeld (roster ids' narrowed') (runs, some_id) e =
        let same : ids' ≡ ids = ground arith in
        record {
          perm = perm;
          class = class;
          runs = subst (Holds perm) same runs;
          batches = subst (Holds "job.batch") same (holds "job.batch" ids' (ground arith));
          saves = λ named. subst (Holds "job.save") same (holds "job.save" ids' (ground arith));
          some_minion = ap is_empty (sym same) ∙ some_id;
        }

    missing-IsHeld :
        (o : Option String) (c : Checked)
        → Runs perm c
        → unless_missing o (granted w user r c) ≡ roster ids narrowed
        → IsHeld ids
    missing-IsHeld none c h e = granted-IsHeld c h e
    missing-IsHeld (some p) c h e = absurd (cc)

  scoped-IsHeld :
      (o : Option String) (ids narrowed : List String)
      → publish_perm r.fun ≡ o
      → check_scoped w user r (or_blank o) ≡ roster ids narrowed
      → IsHeld ids
  unfolding check_scoped
  scoped-IsHeld none ids narrowed class e = absurd (ground arith)
  scoped-IsHeld (some perm) ids narrowed class e =
      missing-IsHeld perm class ids narrowed (first_missing w user r perm) _
        (result-Runs perm (constrain_target_verbose w user perm r.tgt r.tgt_type) refl)
        (ground arith)

  checked-IsHeld :
      (ids narrowed : List String)
      → scoped_mode w ≡ true
      → check_request w user r ≡ roster ids narrowed
      → IsHeld ids
  unfolding check_request
  checked-IsHeld ids narrowed scoped e =
      scoped-IsHeld (publish_perm r.fun) ids narrowed refl (rw scoped at e)

-- The task runs the requested function, for the user, in waves of a roster that the user holds.
pub record IsHanded (w : World) (user : User) (r : Request) (task : WaveTask) : Type 0 where
  pub held : IsHeld w user r (concat task.waves)
  pub same_fun : task.fun ≡ r.fun
  pub runs_as : task.user ≡ name_of user

abbrev AnswerHeld : World → User → Request → BatchAnswer → Type 0
AnswerHeld w user r (started s) = IsHanded w user r s.task
AnswerHeld w user r _ = Unit

started-Held :
    (salt : Salt) (user : User) (r : Request) (group : String) (ids narrowed : List String)
    (s : State)
    → IsHeld s.tables.world user r ids
    → AnswerHeld s.tables.world user r (started (start salt user r group ids narrowed s))
unfolding start
started-Held salt user r group ids narrowed s h = record {
  held =
      subst (IsHeld s.tables.world user r)
        (sym (split_roster-partition ids r.batch.mode r.batch.size).0) h;
  same_fun = refl;
  runs_as = refl;
}

-- In scoped mode a batch that starts hands the queue a task of the requested function, under the name
-- of the user who started it or of the owner of the token, in waves of a roster that is not empty. On
-- each minion of each wave that user is authorized for the class of the function, for `job.batch` and,
-- where the job is saved, for `job.save`.
pub run_batched-IsHanded :
    (salt : Salt) (group : String) (r : Request) (s : State) (b : Started)
    → scoped_mode s.tables.world ≡ true
    → run_batched salt group r s ≡ started b
    → IsHanded s.tables.world (who salt r.actor_user) r b.task
unfolding run_batched
run_batched-IsHanded salt group r s b scoped e =
    subst (AnswerHeld s.tables.world (who salt r.actor_user) r) e
      (answer-Held (check_request s.tables.world (who salt r.actor_user) r) refl)
  where
    answer-Held :
        (c : Checked)
        → check_request s.tables.world (who salt r.actor_user) r ≡ c
        → AnswerHeld s.tables.world
            (who salt r.actor_user)
            r
            (answer_of salt (who salt r.actor_user) r group s c)
    answer-Held (barred perm detail) h = tt
    answer-Held (turned_back text) h = tt
    answer-Held (roster ids narrowed) h =
        started-Held salt (who salt r.actor_user) r group ids narrowed s
          (checked-IsHeld s.tables.world (who salt r.actor_user) r ids narrowed scoped h)
