-- ===== src/Users/Writes/Anchor.antt =====
-- overstate_ui/users.py: the rows of the grant writers beside a fleet admin's own grant and mapping.
use overstate.Prelude.{
  Bool, Bool-cases, List, String, [], any, any-append, any_mono, arith, eq_iff, false, inl, inr,
  keep, not, refl, some, subst, sym, true, ℕ, ◌&&◌, ◌==◌, ◌=?◌, ◌||◌, ◌∷◌, ◌≡◌, ap,
}
use overstate.Store.{Grant, World, LocalGroupMember, User}
use overstate.Users.Grants.{
  delete_row, grant_by_id, has_admin_mapping, add_grant, has_other_fleet_admin, is_fleet_admin,
  is_last_admin,
}
use overstate.Users.Frame.{SameAccess, SameAccess-grants, SameAccess-admin_mapping}
use overstate.Users.Groups.{deleted_group}
use overstate.Authz.Entries.{is_id}

-- The user holds admin on the fleet by a grant or a mapping of their own, not through a local group.
unfoldable pub anchored : World → ℕ → Bool
anchored w uid = any (is_fleet_admin uid) w.grants || has_admin_mapping w uid

module _ {ℓ} {A : Type ℓ} where
  pub any-keep :
      (p q : A → Bool) (xs : List A)
      → ((x : A) → p x ≡ true → q x ≡ true)
      → any p xs ≡ true
      → any p (keep q xs) ≡ true
  unfolding any keep
  any-keep p q [] h e = e
  any-keep p q (x ∷ xs) h e = ground (arith, h x, any-keep p q xs h)

  pub keep-keep :
      (p q : A → Bool) (xs : List A)
      → ((x : A) → p x ≡ true → q x ≡ true)
      → keep p (keep q xs) ≡ keep p xs
  unfolding keep
  keep-keep p q [] h = refl
  keep-keep p q (x ∷ xs) h = ground (arith, h x, keep-keep p q xs h)

user_kind : (k : String) → (k == "user") ≡ true → (k == "local_group") ≡ false
user_kind k e = subst (λ s. (s == "local_group") ≡ false) (sym ((eq_iff k "user").0 e)) refl

group_kind : (k : String) → (k == "local_group") ≡ true → (k == "user") ≡ false
group_kind k e = subst (λ s. (s == "user") ≡ false) (sym ((eq_iff k "local_group").0 e)) refl

pub same-anchored :
    (w w' : World) (uid : ℕ) → SameAccess w w' → anchored w uid ≡ true → anchored w' uid ≡ true
unfolding anchored
same-anchored w w' uid s h = ground (
  arith,
  ap (λ gs. any (is_fleet_admin uid) gs) (SameAccess-grants w w' s),
  SameAccess-admin_mapping w w' s uid,
)

pub add-anchored :
    (w : World) (g : Grant) (uid : ℕ) → anchored w uid ≡ true → anchored (add_grant g w) uid ≡ true
unfolding anchored has_admin_mapping
add-anchored w g uid h = rw any-append (ground (arith))

-- A row that is not the user's own admin grant may go.
delete_row-any :
    (p : Grant → Bool) (gid : ℕ) (gs : List Grant) (g : Grant)
    → grant_by_id gs gid ≡ some g
    → p g ≡ false
    → any p gs ≡ true
    → any p (delete_row gid gs) ≡ true
unfolding any grant_by_id delete_row
delete_row-any p gid [] g e foreign h = cc
delete_row-any p gid (x ∷ xs) g e foreign h = ground (arith, delete_row-any p gid xs g)

-- Nor does the row with an id when another one serves.
delete_row-other :
    (p : Grant → Bool) (gid : ℕ) (gs : List Grant)
    → any (λ g. p g && not (g.id =? gid)) gs ≡ true
    → any p (delete_row gid gs) ≡ true
unfolding any delete_row
delete_row-other p gid [] h = h
delete_row-other p gid (x ∷ xs) h = ground (
  arith,
  delete_row-other p gid xs,
  any_mono (λ g. p g && not (g.id =? gid)) p xs (λ g e. ground arith),
)

pub found_id : (gs : List Grant) (gid : ℕ) (g : Grant) → grant_by_id gs gid ≡ some g → g.id ≡ gid
unfolding grant_by_id
found_id [] gid g e = absurd (ground arith)
found_id (x ∷ xs) gid g e = ground (arith, found_id xs gid g)

abbrev pub without_row : World → ℕ → World
without_row w gid = record w { grants = delete_row gid w.grants }

module _ (w : World) (gid : ℕ) (g : Grant) (found : grant_by_id w.grants gid ≡ some g) where
  pub foreign-anchored :
      (uid : ℕ)
      → is_fleet_admin uid g ≡ false
      → anchored w uid ≡ true
      → anchored (without_row w gid) uid ≡ true
  unfolding anchored has_admin_mapping
  foreign-anchored uid foreign h =
      ground (arith, delete_row-any (is_fleet_admin uid) gid w.grants g found foreign)

  pub guarded-anchored :
      (me : User)
      → is_last_admin w me g ≡ false
      → anchored w me.id ≡ true
      → anchored (without_row w gid) me.id ≡ true
  unfolding anchored has_admin_mapping has_other_fleet_admin
  guarded-anchored me other h =
      let own : Bool = is_fleet_admin me.id g in
      let same = found_id w.grants gid g found in
      elim (Bool-cases (is_fleet_admin me.id g)) [
        | inl mine ↦ ground (arith, same, delete_row-other (is_fleet_admin me.id) gid w.grants)
        | inr foreign ↦
            ground (arith, delete_row-any (is_fleet_admin me.id) gid w.grants g found foreign)
      ]

pub group_row-anchored :
    (uid : ℕ) (g : Grant) → (g.subject_kind == "local_group") ≡ true → is_fleet_admin uid g ≡ false
group_row-anchored uid g e = ground (arith, group_kind g.subject_kind e)

pub drop_group-anchored :
    (w : World) (gid uid : ℕ) → anchored w uid ≡ true → anchored (deleted_group w gid) uid ≡ true
unfolding anchored has_admin_mapping deleted_group
drop_group-anchored w gid uid h = ground (
  arith,
  any-keep (is_fleet_admin uid)
      (λ g. not (g.subject_kind == "local_group" && is_id g.subject_group_id gid)) w.grants
      (λ g own. ground (arith, user_kind g.subject_kind)),
)

pub members-anchored :
    (w : World) (rows : List LocalGroupMember) (uid : ℕ)
    → anchored w uid ≡ true
    → anchored (record w { local_group_members = rows }) uid ≡ true
unfolding anchored has_admin_mapping
members-anchored w rows uid h = h
