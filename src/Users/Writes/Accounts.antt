-- ===== src/Users/Writes/Accounts.antt =====
-- overstate_ui/users.py: the rows of the account writers beside a fleet admin's own grant and mapping.
use overstate.Prelude.{
  Bool-cases, Option, String, any, any-append, any-map-keep, any_mono, arith, false, inl, inr, none,
  not, refl, some, true, ℕ, ◌&&◌, ◌==◌, ◌=?◌, ◌≡◌,
}
use overstate.Authz.Entries.{is_id}
use overstate.Users.Writes.Anchor.{anchored, keep-keep, any-keep}
use overstate.Users.Accounts.{delete_user, replace_rung, without_rungs, disown, is_rung_of}
use overstate.Users.Grants.{has_admin_mapping, is_fleet_admin}
use overstate.Store.{World, User, UserIdpGroup}

ids_apart : (o : Option ℕ) (a b : ℕ) → is_id o a ≡ true → (b =? a) ≡ false → is_id o b ≡ false
ids_apart none a b h e = refl
ids_apart (some n) a b h e = ground arith

-- Another user's rungs, and the caller's own where the new rung is admin.
pub rung-anchored :
    (w : World) (me user : User) (role : String)
    → (user.id =? me.id && not (role == "admin")) ≡ false
    → anchored w me.id ≡ true
    → anchored (replace_rung w me user role) me.id ≡ true
unfolding anchored has_admin_mapping replace_rung without_rungs any
rung-anchored w me user role allowed h = elim (Bool-cases (user.id =? me.id)) [
  | inl own ↦ rw any-append (ground arith)
  | inr other ↦
      let others =
        any-keep (is_fleet_admin me.id) (λ g. not (is_rung_of user.id g)) w.grants
          (λ g mine. ground (arith, ids_apart g.subject_user_id me.id user.id)) in
      rw any-append (ground (arith, others))
]

pub drop_user-anchored :
    (w : World) (uid me : ℕ)
    → (uid =? me) ≡ false
    → anchored w me ≡ true
    → anchored (delete_user w uid) me ≡ true
unfolding anchored delete_user has_admin_mapping
drop_user-anchored w uid me other h =
    let claims =
      keep-keep (λ (m : UserIdpGroup). m.user_id =? me) (λ m. not (m.user_id =? uid))
        w.user_idp_groups (λ m e. ground arith) in
    let grants =
      any_mono (is_fleet_admin me)
        (λ g. not (is_id g.subject_user_id uid) && is_fleet_admin me (disown uid g)) w.grants
        (λ g mine. ground (arith, ids_apart g.subject_user_id me uid)) in
    rw (claims, any-map-keep) (ground (arith, grants))
