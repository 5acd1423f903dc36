-- ===== src/Authz/Functions/Classes.antt =====
-- overstate_ui/authz.py: `publish_perm` and `can_see_return_body` beside the function classes.
use mathlib.Core.Option.{some-injective, none-ne-some}
use overstate.Prelude.{
  ◌≡◌, String, some, true, arith, All, List, none, ◌∷◌, [], ◌⊎◌, Option, eq_iff, subst, sym, refl,
  inl, inr,
}
use overstate.Authz.Functions.{
  Class, read, change, state, orchestrate, other_perm, class_perm, is_allowed_fun,
  can_see_return_body, api_read_funs, function_class, publish_perm,
}
use overstate.Sets.{contains, All-contains}
use overstate.Authz.Catalog.{is_perm, perm_domain, minion}
use overstate.Store.{World, User}
use overstate.Authz.Flags.{scoped_mode}
use overstate.Authz.Decide.{decide}

-- A permission of the catalogue that is checked minion by minion.
abbrev pub IsScopable : String → Type 0
IsScopable perm = (is_perm perm ≡ true) × (perm_domain perm ≡ minion)

-- What holds of the value of an option, if it has one.
data AllSome (P : String → Type 0) : Option String → Type 0 where
  nothing : AllSome P none
  this : {x : String} → P x → AllSome P (some x)

AllSome-value :
    {P : String → Type 0} {o : Option String} (y : String) → AllSome P o → o ≡ some y → P y
AllSome-value {P} y nothing e = absurd (none-ne-some y e)
AllSome-value {P} y (this p) e = subst P (some-injective _ _ e) p

other_perm-cases :
    (fun : String)
    → (other_perm fun ≡ none)
      ⊎ (other_perm fun ≡ some "pillar.read")
      ⊎ (other_perm fun ≡ some "mine.read")
      ⊎ (other_perm fun ≡ some "beacon.write")
      ⊎ (other_perm fun ≡ some "job.kill")
      ⊎ (other_perm fun ≡ some "schedule.write")
unfolding other_perm
other_perm-cases fun = ground arith

other_perm-IsScopable : (fun : String) → AllSome IsScopable (other_perm fun)
unfolding is_perm perm_domain contains
other_perm-IsScopable fun = elim (other_perm-cases fun) [
  | inl e ↦ rw e nothing
  | inr (inl e) ↦ rw e (this (refl, refl))
  | inr (inr (inl e)) ↦ rw e (this (refl, refl))
  | inr (inr (inr (inl e))) ↦ rw e (this (refl, refl))
  | inr (inr (inr (inr (inl e)))) ↦ rw e (this (refl, refl))
  | inr (inr (inr (inr (inr e)))) ↦ rw e (this (refl, refl))
]

class_perm-IsScopable : (c : Option Class) (fun : String) → AllSome IsScopable (class_perm c fun)
unfolding is_perm perm_domain contains
class_perm-IsScopable none fun = other_perm-IsScopable fun
class_perm-IsScopable (some read) fun = this (refl, refl)
class_perm-IsScopable (some change) fun = this (refl, refl)
class_perm-IsScopable (some state) fun = this (refl, refl)
class_perm-IsScopable (some orchestrate) fun = other_perm-IsScopable fun

-- Whatever function a scoped caller publishes, the permission that constrains it is in the
-- catalogue and is checked minion by minion.
pub publish_perm-IsScopable : (fun perm : String) → publish_perm fun ≡ some perm → IsScopable perm
unfolding publish_perm
publish_perm-IsScopable fun perm h =
    AllSome-value perm (class_perm-IsScopable (function_class fun) fun) h

api_read_table : All (λ fun. publish_perm fun ≡ some "job.run.read") api_read_funs
unfolding publish_perm function_class contains
api_read_table = (refl, (refl, (refl, (refl, (refl, (refl, tt))))))

-- The functions of the token API are all published under `job.run.read`.
pub api_read_funs-publish_perm :
    (fun : String) → contains api_read_funs fun ≡ true → publish_perm fun ≡ some "job.run.read"
api_read_funs-publish_perm fun h =
    All-contains (λ f. publish_perm f ≡ some "job.run.read") api_read_funs fun api_read_table h

orchestrate_only :
    (fun : String) → function_class fun ≡ some orchestrate → fun ≡ "state.orchestrate"
unfolding function_class
orchestrate_only fun h = ground (arith, eq_iff fun "state.orchestrate")

-- Orchestration has no permission to be published under.
pub orchestrate-publish_perm :
    (fun : String) → function_class fun ≡ some orchestrate → publish_perm fun ≡ none
unfolding publish_perm function_class other_perm contains is_allowed_fun
orchestrate-publish_perm fun h =
    subst (λ f. publish_perm f ≡ none) (sym (orchestrate_only fun h)) refl

abbrev pub body_funs : List String
body_funs =
    "state.apply" ∷ "state.highstate" ∷ "state.show_sls" ∷ "state.show_highstate" ∷ "pillar.items"
    ∷ "grains.items" ∷ "mine.get" ∷ []

module _ (w : World) (user : User) (mid : String) (scoped : scoped_mode w ≡ true) where
  abbrev pub SeesAsPublished : String → Type 0
  SeesAsPublished fun =
      (perm : String) × (publish_perm fun ≡ some perm)
      × (can_see_return_body w user fun mid ≡ decide w user perm (some mid) none)

  sees_table : All SeesAsPublished body_funs
  unfolding can_see_return_body publish_perm other_perm function_class contains
  sees_table = (
    (_, refl, rw scoped),
    (
      (_, refl, rw scoped),
      (
        (_, refl, rw scoped),
        (
          (_, refl, rw scoped),
          ((_, refl, rw scoped), ((_, refl, rw scoped), ((_, refl, rw scoped), tt))),
        ),
      ),
    ),
  )

  -- In scoped mode the body of a state, pillar, grains or mine function shows exactly to those who
  -- may publish that function on the minion.
  pub can_see_return_body-publish :
      (fun : String) → contains body_funs fun ≡ true → SeesAsPublished fun
  can_see_return_body-publish fun h = All-contains SeesAsPublished body_funs fun sees_table h
