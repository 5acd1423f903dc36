-- ===== src/Authz/RoleCache/Ladder.antt =====
-- overstate_ui/authz.py: the role that `refresh_role_cache` writes beside the fleet grants.
use overstate.Prelude.{
  Bool, Bool-cases, List, String, [], any, any_mono, arith, eq_iff, false, inl, inr, refl, true,
  ◌&&◌, ◌==◌, ◌∷◌, ◌≡◌,
}
use overstate.Sets.{contains}
use overstate.Store.{World, User}
use overstate.Authz.Catalog.{is_ladder, has_perm}
use overstate.Authz.Catalog.Laws.{is_perm_of_has_perm}
use overstate.Authz.Entries.{Entry, grant_entries, effective_entries, with_fallback}
use overstate.Authz.Decide.{has_fleet}
use overstate.Authz.Memo.{Memo}
use overstate.Authz.Memo.Coherence.{IsCoherent}
use overstate.Authz.RoleCache.{ladder, cached_role, refresh_role_cache, scoped_or_none}
use overstate.Authz.RoleCache.Refresh.{refresh-role}

ladder-any :
    (role perm : String) (es : List Entry)
    → has_perm role perm ≡ true
    → ladder role es ≡ true
    → any (λ e. has_perm e.role perm && e.kind == "fleet") es ≡ true
unfolding ladder
ladder-any role perm es h k =
    any_mono (λ e. e.role == role && e.kind == "fleet")
      (λ e. has_perm e.role perm && e.kind == "fleet") es
      (λ e p. ground (arith, eq_iff e.role role)) k

no_ladder : (es : List Entry) → is_ladder (scoped_or_none es) ≡ false
unfolding is_ladder contains
no_ladder [] = refl
no_ladder (e ∷ es) = refl

ladder_of_cached :
    (es : List Entry) → is_ladder (cached_role es) ≡ true → ladder (cached_role es) es ≡ true
unfolding cached_role
ladder_of_cached es k = elim (Bool-cases (ladder "admin" es)) [
  | inl a ↦ rw (a, cached_role) a
  | inr a ↦ elim (Bool-cases (ladder "operator" es)) [
    | inl o ↦ rw (a, o, cached_role) o
    | inr o ↦ elim (Bool-cases (ladder "viewer" es)) [
      | inl v ↦ rw (a, o, v, cached_role) v
      | inr v ↦ cc (rw (a, o, v, cached_role) at k, no_ladder es)
    ]
  ]
]

-- An entry that decides a question leaves no room for the fallback.
pub any-with_fallback :
    (w : World) (role : String) (p : Entry → Bool) (es : List Entry)
    → any p es ≡ true
    → any p (with_fallback w role es) ≡ true
unfolding any with_fallback
any-with_fallback w role p [] h = cc
any-with_fallback w role p (e ∷ es) h = h

-- If a refresh from a coherent memo caches a ladder role, the user holds every permission of that
-- role on the fleet by the grants and mappings themselves.
pub refresh-has_fleet :
    (w : World) (user : User) (m : Memo) (perm : String)
    → IsCoherent w m
    → is_ladder (refresh_role_cache w user m).role ≡ true
    → has_perm (refresh_role_cache w user m).role perm ≡ true
    → has_fleet w user perm ≡ true
refresh-has_fleet w user m perm ok rung has =
    let es = grant_entries w user in
    let role = cached_role es in
    let same = refresh-role w user m ok in
    let rung' : is_ladder role ≡ true = rw same at rung in
    let has' : has_perm role perm ≡ true = rw same at has in
    let held = ladder-any role perm es has' (ladder_of_cached es rung') in
    let on_fleet = any-with_fallback w user.role _ es held in
    unfold has_fleet effective_entries in ground (arith, is_perm_of_has_perm role perm, on_fleet)
