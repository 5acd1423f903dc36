-- ===== src/Users/Groups/Members.antt =====
-- overstate_ui/users.py: the member list that `edit_local_group_members` leaves.
use overstate.Prelude.{
  Bool, Bool-cases, List, [], any, any-append, any-map-keep, any_congr, ap, arith, false, if-both,
  if◌then◌else◌, inl, inr, keep, map, not, refl, subst, true, ℕ, ◌&&◌, ◌=?◌, ◌∙◌, ◌∷◌, ◌≡◌, ◌++◌,
  ◌||◌,
}
use overstate.Store.{LocalGroupMember, World, User, LocalGroup}
use overstate.Users.Groups.{edited_page, has_id, members_of, replace_members, without_ids}
use overstate.Authz.Memo.{Memo}
use overstate.Users.Frame.{SameAccess, SameAccess-members, SameAccess-trans, log_event-SameAccess}
use overstate.Users.Frame.Pages.{refresh_members-SameAccess}

-- Whether the rows make a user a member of a group.
unfoldable pub in_group : ℕ → ℕ → List LocalGroupMember → Bool
in_group gid n rows = any (λ r. r.group_id =? gid && r.user_id =? n) rows

module _ {ℓ} {A : Type ℓ} (u : A → ℕ) (c : A → Bool) (q : ℕ → Bool) (n : ℕ) where
  -- Among the elements with number `n`, a test of the number is a test of `n`.
  any_at :
      (xs : List A)
      → any (λ x. q (u x) && (c x && u x =? n)) xs ≡ (q n && any (λ x. c x && u x =? n) xs)
  unfolding any
  any_at [] = ground arith
  any_at (x ∷ xs) = elim (Bool-cases (u x =? n)) [
    | inl hit ↦ let same : q (u x) ≡ q n = ap q (ground arith) in ground (arith, same, any_at xs)
    | inr other ↦ ground (arith, any_at xs)
  ]

any_of_keep {ℓ} :
    {A : Type ℓ} (p q : A → Bool) (xs : List A) → any p (keep q xs) ≡ any (λ x. q x && p x) xs
unfolding any keep
any_of_keep p q [] = refl
any_of_keep p q (x ∷ xs) = ground (arith, any_of_keep p q xs)

has_id-without :
    (ids gone : List ℕ) (n : ℕ)
    → has_id (without_ids ids gone) n ≡ (not (has_id gone n) && has_id ids n)
unfolding has_id without_ids
has_id-without ids gone n =
    any_of_keep (λ m. m =? n) (λ m. not (has_id gone m)) ids
    ∙ any_at (λ m. m) (λ _. true) (λ m. not (has_id gone m)) n ids

in_group-append :
    (gid n : ℕ) (a b : List LocalGroupMember)
    → in_group gid n (a ++ b) ≡ (in_group gid n a || in_group gid n b)
unfolding in_group
in_group-append gid n a b = any-append (λ r. r.group_id =? gid && r.user_id =? n) a b

other_new :
    (other gid n : ℕ) (ids : List ℕ)
    → (other =? gid) ≡ false
    → in_group other n (map (λ uid. record { group_id = gid; user_id = uid }) ids) ≡ false
unfolding in_group any
other_new other gid n [] apart = refl
other_new other gid n (m ∷ ids) apart = ground (arith, other_new other gid n ids apart)

module _ (gid : ℕ) (wanted current : List ℕ) (rows : List LocalGroupMember) (n : ℕ) where
  kept_rows :
      in_group gid n
        (keep (λ r. not (r.group_id =? gid && has_id (without_ids current wanted) r.user_id)) rows)
      ≡ (not (has_id (without_ids current wanted) n) && in_group gid n rows)
  unfolding in_group
  kept_rows =
      any_of_keep _ _ rows
      ∙ (any_congr _
            (λ r.
              not (has_id (without_ids current wanted) r.user_id)
              && (r.group_id =? gid && r.user_id =? n))
            rows (λ r. ground arith)
          ∙ any_at (λ (r : LocalGroupMember). r.user_id) (λ r. r.group_id =? gid)
              (λ m. not (has_id (without_ids current wanted) m)) n rows)

  new_rows :
      in_group gid n
        (map (λ uid. record { group_id = gid; user_id = uid }) (without_ids wanted current))
      ≡ (not (has_id current n) && has_id wanted n)
  unfolding in_group without_ids has_id any
  new_rows =
      any-map-keep _ _ (λ m. not (has_id current m)) wanted
      ∙ (any_congr _ (λ m. not (has_id current m) && (true && m =? n)) wanted (λ m. ground arith)
          ∙ any_at (λ m. m) (λ _. true) (λ m. not (has_id current m)) n wanted)

  -- With the rows' own members as the current ones, the replacement leaves the wanted members.
  pub in_group-replace_members :
      has_id current n ≡ in_group gid n rows
      → in_group gid n (replace_members gid wanted current rows) ≡ has_id wanted n
  unfolding replace_members
  in_group-replace_members now = ground (
    arith,
    in_group-append gid n
        (keep (λ r. not (r.group_id =? gid && has_id (without_ids current wanted) r.user_id)) rows)
        (map (λ uid. record { group_id = gid; user_id = uid }) (without_ids wanted current)),
    has_id-without current wanted n,
    kept_rows,
    new_rows,
  )

  other_kept :
      (other : ℕ)
      → (other =? gid) ≡ false
      → in_group other n (
          keep (λ r. not (r.group_id =? gid && has_id (without_ids current wanted) r.user_id)) rows)
        ≡ in_group other n rows
  unfolding in_group
  other_kept other apart =
      any_of_keep _ _ rows
      ∙ any_congr _ (λ r. r.group_id =? other && r.user_id =? n) rows (λ r. ground arith)

  pub other_group-replace_members :
      (other : ℕ)
      → (other =? gid) ≡ false
      → in_group other n (replace_members gid wanted current rows) ≡ in_group other n rows
  unfolding replace_members
  other_group-replace_members other apart = ground (
    arith,
    in_group-append other n
        (keep (λ r. not (r.group_id =? gid && has_id (without_ids current wanted) r.user_id)) rows)
        (map (λ uid. record { group_id = gid; user_id = uid }) (without_ids wanted current)),
    other_kept other apart,
    other_new other gid n (without_ids wanted current) apart,
  )

pub members_of-in_group :
    (w : World) (gid n : ℕ) → has_id (members_of w gid) n ≡ in_group gid n w.local_group_members
unfolding has_id members_of in_group
members_of-in_group w gid n = any-map-keep _ _ _ w.local_group_members

-- What the page of an edit leaves, up to what no decision reads.
pub edited_page-access :
    (w : World) (me : User) (m : Memo) (gid : ℕ) (group : LocalGroup) (delegated : Bool)
    (wanted : List ℕ)
    → SameAccess
        (record w {
          local_group_members = replace_members gid wanted (members_of w gid) w.local_group_members;
        })
        (edited_page w me m gid group delegated wanted).world
unfolding edited_page
edited_page-access w me m gid group delegated wanted =
    SameAccess-trans _ _ _ (refresh_members-SameAccess _ _ m) (log_event-SameAccess _ _ _ _ _ _ _)

-- After an edit of the members that is let through, the members of the group are exactly the posted
-- ids of users that exist, and every other group has its members from before.
pub edited_page-members :
    (w : World) (me : User) (m : Memo) (gid : ℕ) (group : LocalGroup) (delegated : Bool)
    (wanted : List ℕ) (g n : ℕ)
    → in_group g n (edited_page w me m gid group delegated wanted).world.local_group_members
      ≡ (if g =? gid then has_id wanted n else in_group g n w.local_group_members)
edited_page-members w me m gid group delegated wanted g n =
    let current = members_of w gid in
    let rows = replace_members gid wanted current w.local_group_members in
    let same = SameAccess-members _ _ (edited_page-access w me m gid group delegated wanted) in
    rw same (
      if-both (λ b. in_group g n rows ≡ b) (g =? gid) _ _
        (λ hit.
          subst (λ i. in_group i n rows ≡ has_id wanted n) (ground arith)
            (in_group-replace_members gid wanted current w.local_group_members n
              (members_of-in_group w gid n)))
        (λ other. other_group-replace_members gid wanted current w.local_group_members n g other))
