-- ===== src/Jobs/Launch/Run/Frame.antt =====
-- overstate_ui/jobs_service.py: the notices and rows of a launch send nothing to Salt.
use overstate.Prelude.{Bool, List, String, [], ◌∷◌, ◌≡◌, ◌∙◌, ◌==◌, ◌||◌, refl, if-both}
use overstate.Json.{Fields}
use overstate.Sets.{is_empty}
use overstate.Store.{User}
use overstate.Jobs.Launch.{Fire, Plan, Salt, State, flash}
use overstate.Jobs.Launch.Run.{
  audit_narrowed, awaited, flash_if, has_browser, recorded, ssh_recorded, warn_missed,
}

module _ (salt : Salt) (fire : Fire) where
  flash_if-sent :
      (b : Bool) (text category : String) (s : State) → (flash_if b text category s).sent ≡ s.sent
  flash_if-sent b text category s =
      if-both (λ (u : State). u.sent ≡ s.sent) b (flash text category s) s (λ _. refl) (λ _. refl)

  narrowed-sent :
      (plan : Plan) (s : State)
      → (audit_narrowed salt fire.actor_user plan.narrowed plan.perm s).sent ≡ s.sent
  unfolding audit_narrowed
  narrowed-sent plan s =
      if-both (λ (u : State). u.sent ≡ s.sent) (is_empty plan.narrowed || plan.perm == "") s _
        (λ _. refl) (λ _. flash_if-sent (has_browser fire.actor_user) _ "warning" _)

  warn-sent :
      (missed : List (String × String)) (s : State) → (warn_missed salt fire missed s).sent ≡ s.sent
  unfolding warn_missed
  warn-sent [] s = refl
  warn-sent ((pod, error) ∷ missed) s =
      warn-sent missed _ ∙ flash_if-sent (has_browser fire.actor_user) _ "warning" s

  pub recorded-sent :
      (user : User) (plan : Plan) (missed : List (String × String)) (s : State)
      → (awaited salt fire (recorded salt user fire plan missed s)).sent ≡ s.sent
  unfolding recorded
  recorded-sent user plan missed s =
      if-both (λ (u : State). u.sent ≡ s.sent) fire.asynchronous
        (recorded salt user fire plan missed s) _ (λ _. warn-sent missed _ ∙ narrowed-sent plan _)
        (λ _. warn-sent missed _ ∙ narrowed-sent plan _)

  pub ssh-sent :
      (user : User) (plan : Plan) (jid : String) (mapping : Fields) (s : State)
      → (ssh_recorded salt user fire plan jid mapping s).sent ≡ s.sent
  unfolding ssh_recorded
  ssh-sent user plan jid mapping s = narrowed-sent plan _
