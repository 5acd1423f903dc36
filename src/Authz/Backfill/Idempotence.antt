-- ===== src/Authz/Backfill/Idempotence.antt =====
-- overstate_ui/authz.py: repeated runs of `backfill_rbac`.
use overstate.Prelude.{
  All, List, String, [], any, any-append, arith, eq_refl, refl, true, ℕ, ◌++◌, ◌∷◌, ◌≡◌, ◌+◌,
}
use overstate.Store.{World, User, Grant, IdpRoleMapping}
use overstate.Authz.Catalog.{is_ladder}
use overstate.Authz.Backfill.{
  has_grant, backfill_grant, backfill_user, backfill_users, has_mapping, backfill_mapping,
  backfill_pair, backfill_pairs, group_pairs, backfill_rbac,
}

-- Nothing is left to do for a user.
abbrev pub IsFilled : List Grant → User → Type 0
IsFilled gs u = is_ladder u.role ≡ true → has_grant u gs ≡ true

has_grant_self :
    (gid : ℕ) (u : User) (gs : List Grant) → has_grant u (gs ++ backfill_grant gid u ∷ []) ≡ true
unfolding has_grant any
has_grant_self gid u gs = rw any-append (ground (arith, eq_refl u.role))

has_grant-append :
    (v : User) (gs : List Grant) (g : Grant)
    → has_grant v gs ≡ true
    → has_grant v (gs ++ g ∷ []) ≡ true
unfolding has_grant any
has_grant-append v gs g h = rw any-append (ground arith)

user-IsFilled : (first : ℕ) (u : User) (s : List Grant × ℕ) → IsFilled (backfill_user first u s).0 u
unfolding backfill_user
user-IsFilled first u (gs, n) h = ground (arith, has_grant_self (first + n) u gs)

user-keeps :
    (first : ℕ) (u v : User) (s : List Grant × ℕ)
    → has_grant v s.0 ≡ true
    → has_grant v (backfill_user first u s).0 ≡ true
unfolding backfill_user
user-keeps first u v (gs, n) h =
    ground (arith, has_grant-append v gs (backfill_grant (first + n) u))

users-keeps :
    (first : ℕ) (us : List User) (v : User) (s : List Grant × ℕ)
    → has_grant v s.0 ≡ true
    → has_grant v (backfill_users first us s).0 ≡ true
unfolding backfill_users
users-keeps first [] v s h = h
users-keeps first (u ∷ us) v s h =
    users-keeps first us v (backfill_user first u s) (user-keeps first u v s h)

-- After the loop every user with a ladder role has the fleet grant of that role.
pub users-IsFilled :
    (first : ℕ) (us : List User) (s : List Grant × ℕ)
    → All (IsFilled (backfill_users first us s).0) us
unfolding backfill_users
users-IsFilled first [] s = tt
users-IsFilled first (u ∷ us) s = (
  λ h. users-keeps first us u (backfill_user first u s) (user-IsFilled first u s h),
  users-IsFilled first us (backfill_user first u s),
)

users-done :
    (first : ℕ) (us : List User) (gs : List Grant) (n : ℕ)
    → All (IsFilled gs) us
    → backfill_users first us (gs, n) ≡ (gs, n)
unfolding backfill_users backfill_user
users-done first [] gs n h = refl
users-done first (u ∷ us) gs n (h, hs) = ground (arith, h, users-done first us gs n hs)

-- The same for the mappings.
abbrev pub IsMapped : List IdpRoleMapping → String × String → Type 0
IsMapped ms pair = has_mapping pair ms ≡ true

has_mapping_self :
    (pair : String × String) (ms : List IdpRoleMapping)
    → has_mapping pair (ms ++ backfill_mapping pair ∷ []) ≡ true
unfolding has_mapping any
has_mapping_self (group_name, role) ms =
    rw any-append (ground (arith, eq_refl group_name, eq_refl role))

has_mapping-append :
    (pair : String × String) (ms : List IdpRoleMapping) (m : IdpRoleMapping)
    → has_mapping pair ms ≡ true
    → has_mapping pair (ms ++ m ∷ []) ≡ true
unfolding has_mapping any
has_mapping-append (group_name, role) ms m h = rw any-append (ground arith)

pair-IsMapped :
    (p : String × String) (s : List IdpRoleMapping × ℕ) → IsMapped (backfill_pair p s).0 p
unfolding backfill_pair
pair-IsMapped p (ms, n) = ground (arith, has_mapping_self p ms)

pairs-keeps :
    (ps : List (String × String)) (q : String × String) (s : List IdpRoleMapping × ℕ)
    → IsMapped s.0 q
    → IsMapped (backfill_pairs ps s).0 q
unfolding backfill_pairs backfill_pair
pairs-keeps [] q s h = h
pairs-keeps (p ∷ ps) q (ms, n) h =
    pairs-keeps ps q (backfill_pair p (ms, n))
      (ground (arith, has_mapping-append q ms (backfill_mapping p)))

pub pairs-IsMapped :
    (ps : List (String × String)) (s : List IdpRoleMapping × ℕ)
    → All (IsMapped (backfill_pairs ps s).0) ps
unfolding backfill_pairs
pairs-IsMapped [] s = tt
pairs-IsMapped (p ∷ ps) s = (
  pairs-keeps ps p (backfill_pair p s) (pair-IsMapped p s),
  pairs-IsMapped ps (backfill_pair p s),
)

pairs-done :
    (ps : List (String × String)) (ms : List IdpRoleMapping) (n : ℕ)
    → All (IsMapped ms) ps
    → backfill_pairs ps (ms, n) ≡ (ms, n)
unfolding backfill_pairs backfill_pair
pairs-done [] ms n h = refl
pairs-done (p ∷ ps) ms n (h, hs) = ground (arith, h, pairs-done ps ms n hs)

-- A second run with the same group settings makes no grant and no mapping.
pub backfill_rbac-idempotent :
    (w : World) (admin_groups operator_groups : String)
    → let w' = (backfill_rbac w admin_groups operator_groups).world in
      backfill_rbac w' admin_groups operator_groups
      ≡ record { world = w'; grants = 0; mappings = 0 }
unfolding backfill_rbac
backfill_rbac-idempotent w admin_groups operator_groups =
    let pairs = group_pairs admin_groups operator_groups in
    let first = w.next_grant_id in
    let made = backfill_users first w.users (w.grants, 0) in
    let users =
      users-done (first + made.1) w.users made.0 0 (users-IsFilled first w.users (w.grants, 0)) in
    let mapped =
      pairs-done pairs (backfill_pairs pairs (w.mappings, 0)).0 0
        (pairs-IsMapped pairs (w.mappings, 0)) in
    let same_id : (first + made.1) + 0 ≡ first + made.1 = omega arith in rw (users, mapped, same_id)
