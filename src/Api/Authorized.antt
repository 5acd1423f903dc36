-- ===== src/Api/Authorized.antt =====
-- overstate_ui/api.py: what a Bearer token makes Salt do.
use overstate.Prelude.{
  All, List, Option, String, [], none, some, true, ℕ, ◌∷◌, ◌≡◌, ◌∙◌, ◌⊎◌, inl, inr, refl, sym, ap,
  subst, arith, if-both, Bool-cases,
}
use overstate.Json.{Json, Fields, obj, null, bool, num, str, arr, get, truthy}
use overstate.Sets.{contains}
use overstate.Store.{AuditEvent, User, World}
use overstate.Authz.Flags.{scoped_mode, rbac_flag}
use overstate.Authz.Functions.{api_read_funs}
use overstate.Jobs.Args.{has_key}
use overstate.Jobs.Launch.{Fire, who, State}
use overstate.Jobs.Launch.Run.{launch}
use overstate.Jobs.Launch.Run.Authorized.{IsAuthorized, launch-IsAuthorized}
use overstate.Api.{
  Pin, raises, overflows, no_row, names, ApiState, ApiToken, Outside, Response, SavedJob, world_of,
  Authenticated, authenticate, rejected, accepted,
}
use overstate.Api.Requests.{
  body_of, confirm_funs, fire_as, fire_checked, fire_found, fire_pin, fire_read, fire_saved,
  free_fire, is_pin, noted, pin_of, pinned_fire, read_fun, saved_by_id, saved_fire, unpinned_fire,
  unpinned_for, run_job, authenticated_of,
}
use overstate.Authz.Gates.{log_event}
use overstate.Api.Tokens.Live.{IsGenuine, Shows, authenticate-Shows}

-- Two databases that differ at most in their audit rows.
abbrev pub SameButAudit : World → World → Type 0
SameButAudit w v = (rows : List AuditEvent) × (v ≡ record w { audit_events = rows })

audit-scoped : (w v : World) → SameButAudit w v → scoped_mode v ≡ scoped_mode w
unfolding scoped_mode rbac_flag
audit-scoped w v (rows, e) = ap scoped_mode e

-- The saved job of the token's pin as it is stored, or a function that a token may read with.
abbrev pub MayFire : User → List SavedJob → ApiToken → Fire → Type 0
MayFire user saved_jobs row fire =
    ((row.saved_job_id ≡ none) × (contains api_read_funs fire.fun ≡ true))
    ⊎ ((saved : SavedJob) × (row.saved_job_id ≡ some saved.id)
        × (saved_by_id saved_jobs saved.id ≡ some saved)
        × (fire ≡ saved_fire user saved))

-- The state that a response comes with, for a token of a user: Salt received nothing, or only calls
-- that the user is authorized for.
pub record Fired (o : Outside) (user : User) (row : ApiToken) (s out : ApiState) : Type 0 where
  pub fire : Fire
  pub actor : fire.actor_user ≡ some user
  pub may : MayFire user s.saved_jobs row fire
  pub world : World
  pub same : SameButAudit (world_of s) world
  pub calls : All (IsAuthorized world user fire) out.state.sent

module _ (o : Outside) (user : User) (row : ApiToken) (s : ApiState)
    (scoped : scoped_mode (world_of s) ≡ true) (silent : s.state.sent ≡ []) where
  abbrev Safe : Response × ApiState → Type 0
  Safe r = (r.1.state.sent ≡ []) ⊎ Fired o user row s r.1

  fire-Safe :
      (fire : Fire) (t : ApiState)
      → fire.actor_user ≡ some user
      → MayFire user s.saved_jobs row fire
      → SameButAudit (world_of s) (world_of t)
      → t.state.sent ≡ []
      → Safe (fire_as o fire t)
  unfolding fire_as
  fire-Safe fire t actor may same quiet =
      let w = world_of t in
      let own = ap (who o.salt) actor in
      let none_yet =
        subst (All (IsAuthorized w (who o.salt fire.actor_user) fire)) (sym quiet) tt in
      let authorized =
        launch-IsAuthorized o.salt fire t.state (audit-scoped (world_of s) w same ∙ scoped)
          none_yet in
      inr (record {
        fire = fire;
        actor = actor;
        may = may;
        world = w;
        same = same;
        calls =
            subst (λ u. All (IsAuthorized w u fire) (launch o.salt fire t.state).1.sent) own
              authorized;
      })

  noted-world : (saved : SavedJob) → SameButAudit (world_of s) (world_of (noted user saved s))
  unfolding log_event
  noted-world saved =
      if-both (λ (u : ApiState). SameButAudit (world_of s) (world_of u))
        (contains confirm_funs saved.fun) _ s (λ _. (_, refl))
        (λ _. ((world_of s).audit_events, refl))

  noted-sent : (saved : SavedJob) → (noted user saved s).state.sent ≡ []
  noted-sent saved =
      if-both (λ (u : ApiState). u.state.sent ≡ []) (contains confirm_funs saved.fun) _ s
        (λ _. silent) (λ _. silent)

  pin_is : (pin : Option ℕ) (id : ℕ) → is_pin pin id ≡ true → pin ≡ some id
  pin_is none id h = cc
  pin_is (some p) id h = ground arith

  saved-id : (js : List SavedJob) (id : ℕ) (j : SavedJob) → saved_by_id js id ≡ some j → j.id ≡ id
  unfolding saved_by_id
  saved-id [] id j h = cc
  saved-id (k ∷ js) id j h = ground (arith, saved-id js id j)

  saved-Safe :
      (saved : SavedJob)
      → saved_by_id s.saved_jobs saved.id ≡ some saved
      → Safe (fire_saved o user row saved s)
  unfolding fire_saved
  saved-Safe saved stored = elim (Bool-cases (is_pin row.saved_job_id saved.id)) [
    | inr other ↦ rw other (inl silent)
    | inl own ↦ rw own (
        if-both Safe (truthy saved.batch) _ _ (λ _. inl silent)
          (λ _.
            fire-Safe (saved_fire user saved) (noted user saved s) refl
              (inr (saved, pin_is row.saved_job_id saved.id own, stored, refl)) (noted-world saved)
              (noted-sent saved)))
  ]

  found-Safe :
      (pin : ℕ) (j : Option SavedJob)
      → saved_by_id s.saved_jobs pin ≡ j
      → Safe (fire_found o user row j s)
  found-Safe pin none e = inl silent
  found-Safe pin (some saved) e = saved-Safe saved (
      subst (λ id. saved_by_id s.saved_jobs id ≡ some saved)
        (sym (saved-id s.saved_jobs pin saved e)) e)

  pin-Safe : (pin : Pin) → Safe (fire_pin o user row pin s)
  pin-Safe raises = inl silent
  pin-Safe overflows = inl silent
  pin-Safe no_row = inl silent
  pin-Safe (names pin) = found-Safe pin (saved_by_id s.saved_jobs pin) refl

  read_fun-in :
      (v : Json) (fun : String) → read_fun v ≡ some fun → contains api_read_funs fun ≡ true
  read_fun-in (str text) fun h = ground arith
  read_fun-in null fun h = cc
  read_fun-in (bool b) fun h = cc
  read_fun-in (num text) fun h = cc
  read_fun-in (arr vs) fun h = cc
  read_fun-in (obj fs) fun h = cc

  checked-Safe :
      (fun : String) (target : Option (String × String))
      (arguments : Option (List Json × Option Fields))
      → row.saved_job_id ≡ none
      → contains api_read_funs fun ≡ true
      → Safe (fire_checked o user fun target arguments s)
  checked-Safe fun none arguments free reads = inl silent
  checked-Safe fun (some target) none free reads = inl silent
  checked-Safe fun (some (tgt, tgt_type)) (some (args, kwarg)) free reads =
      fire-Safe (free_fire user fun (tgt, tgt_type) (args, kwarg)) s refl (inl (free, reads))
        ((world_of s).audit_events, refl) silent

  read-Safe :
      (body : Fields) (fun : Option String)
      → row.saved_job_id ≡ none
      → read_fun (get "fun" body) ≡ fun
      → Safe (fire_read o user body fun s)
  read-Safe body none free e = inl silent
  read-Safe body (some fun) free e = checked-Safe fun _ _ free (read_fun-in (get "fun" body) fun e)

  free-Safe :
      (body : Fields) (pin : Option ℕ)
      → row.saved_job_id ≡ pin
      → Safe (unpinned_for o user body pin s)
  unfolding unpinned_fire
  free-Safe body none free = read-Safe body (read_fun (get "fun" body)) free refl
  free-Safe body (some pin) e = inl silent

  body-Safe : (body : Option Json) → Safe (body_of o user row body s)
  unfolding pinned_fire
  body-Safe none = inl silent
  body-Safe (some null) = inl silent
  body-Safe (some (bool b)) = inl silent
  body-Safe (some (num text)) = inl silent
  body-Safe (some (str text)) = inl silent
  body-Safe (some (arr vs)) = inl silent
  body-Safe (some (obj body)) =
      if-both Safe (has_key "saved_id" body) _ _ (λ _. pin-Safe (pin_of o (get "saved_id" body)))
        (λ _. free-Safe body row.saved_job_id refl)

module _ (o : Outside) (header : Option String) (body : Option Json) (s : ApiState)
    (scoped : scoped_mode (world_of s) ≡ true) (silent : s.state.sent ≡ []) where
  -- Either Salt received nothing, or a genuine token fired for its owner.
  abbrev pub Answered : ApiState → Type 0
  Answered out =
      (out.state.sent ≡ [])
      ⊎ ((user : User) × (row : ApiToken) × IsGenuine o header s user row × Fired o user row s out)

  fired-Answered :
      (user : User) (row : ApiToken) (t : ApiState)
      → t.state ≡ s.state
      → t.saved_jobs ≡ s.saved_jobs
      → IsGenuine o header s user row
      → Answered (body_of o user row body t).1
  fired-Answered user row t same_state same_jobs genuine =
      let at = ap (λ (st : State). scoped_mode st.tables.world) same_state ∙ scoped in
      elim (body-Safe o user row t at (ap (λ (st : State). st.sent) same_state ∙ silent) body) [
        | inl quiet ↦ inl quiet
        | inr f ↦ inr (
          user,
          row,
          genuine,
          record {
            fire = f.fire;
            actor = f.actor;
            may = subst (λ js. MayFire user js row f.fire) same_jobs f.may;
            world = f.world;
            same = subst (λ (st : State). SameButAudit st.tables.world f.world) same_state f.same;
            calls = f.calls;
          },
        )
      ]

  shown-Answered :
      (a : Authenticated × ApiState) → Shows o header s a → Answered (authenticated_of o body a).1
  shown-Answered (rejected status text, t) shows =
      inl (ap (λ (st : State). st.sent) shows.0 ∙ silent)
  shown-Answered (accepted user row, t) (same_state, same_jobs, genuine) =
      fired-Answered user row t same_state same_jobs genuine

  -- The token API makes Salt do nothing but this, in scoped mode: the header carries a prefix and a
  -- secret that a stored row verifies which is neither revoked nor expired and has budget left; the job
  -- is the saved job of the row's pin as it is stored, or, without a pin, a function of the read class;
  -- and every call that Salt receives is of the job's function and is authorized for the row's owner. In
  -- every other case Salt receives nothing.
  pub run_job-Answered : Answered (run_job o header body s).1
  unfolding run_job
  run_job-Answered =
      rw scoped (shown-Answered (authenticate o header s) (authenticate-Shows o header s))
