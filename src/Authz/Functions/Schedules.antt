-- ===== src/Authz/Functions/Schedules.antt =====
-- overstate_ui/authz.py: `may_define_schedule_fleet` beside `may_define_schedule`.
use overstate.Prelude.{◌≡◌, arith, some, none, ◌≢◌, ◌<>◌}
use overstate.Authz.Functions.{
  orchestrate, function_class, World, User, String, may_define_schedule, may_define_schedule_fleet,
  Option, true, Class, is_allowed_fun, decide, fleet_class, on_minion_class, class_name,
}
use overstate.Authz.Decide.Agreement.{has_fleet-decide}

module _ (w : World) (user : User) where
  class_mono :
      (mid : String) (c : Option Class)
      → fleet_class w user c ≡ true
      → on_minion_class w user mid c ≡ true
  class_mono mid none h = h
  class_mono mid (some orchestrate) h = has_fleet-decide w _ none none user h
  class_mono mid (some c) h = ground (
    arith,
    has_fleet-decide w ("job.run." <> class_name c) (some mid) none user,
    has_fleet-decide w ("schedule.allow." <> class_name c) (some mid) none user,
  )

  -- A schedule that a caller may define for the whole fleet may be defined for each minion.
  pub fleet-may_define_schedule :
      (mid fun : String)
      → may_define_schedule_fleet w user fun ≡ true
      → may_define_schedule w user mid fun ≡ true
  unfolding may_define_schedule_fleet may_define_schedule
  fleet-may_define_schedule mid fun h = ground (
    arith,
    class_mono mid (function_class fun),
    has_fleet-decide w "schedule.write" (some mid) none user,
  )

  -- A schedule is defined only for an allowed function with a class, by a caller who holds
  -- `schedule.write` on the minion.
  pub may_define_schedule-needs :
      (mid fun : String)
      → may_define_schedule w user mid fun ≡ true
      → (is_allowed_fun fun ≡ true)
        × (decide w user "schedule.write" (some mid) none ≡ true)
        × (function_class fun ≢ none)
  unfolding may_define_schedule
  may_define_schedule-needs mid fun h = ground arith
