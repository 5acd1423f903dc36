-- ===== src/Users/Writes/Kept.antt =====
-- overstate_ui/users.py: the grant views beside the fleet admin's own grant or mapping.
use overstate.Prelude.{
  Bool, Option, String, [], arith, if-both, none, not, some, subst, sym, true, ℕ, ◌==◌, ◌||◌, ◌∷◌,
  ◌≡◌,
}
use overstate.Store.{World, User, Grant, LocalGroup}
use overstate.Authz.Memo.{Memo}
use overstate.Users.Frame.{SameAccess, SameAccess-trans, log_event-SameAccess}
use overstate.Users.Grants.{
  create_grant_view, delete_grant_view, deleted_page, insert_user_grant, write_user_grant,
  delete_found, grant_by_id, written_user_grant, checked_user_grant, edited_user_grant, is_taken,
  add_grant, edit_error, is_last_admin, user_grant_error,
}
use overstate.Users.GroupGrants.{
  create_group_grant_view, delete_group_grant_view, group_deleted_page, insert_group_grant,
  write_group_grant, delete_found_group_grant, checked_group_grant, edited_group_grant,
  written_group_grant, write_error,
}
use overstate.Users.Writes.Anchor.{
  anchored, same-anchored, without_row, found_id, foreign-anchored, add-anchored,
  group_row-anchored, guarded-anchored,
}
use overstate.Users.{Form, Page, deny}
use overstate.Users.Scope.{Checked, accepted, refused}
use overstate.Authz.Entries.{is_id}
use overstate.Users.Frame.Pages.{deny-SameAccess, refresh_members-SameAccess}
use overstate.Users.Grants.Escalation.{granted_page-access}
use overstate.Users.GroupGrants.Escalation.{group_granted-access}
use overstate.Users.Groups.{members_of}

module _ (w : World) (me : User) where
  -- What the caller is anchored by survives.
  abbrev pub Kept : World → Type 0
  Kept w' = anchored w me.id ≡ true → anchored w' me.id ≡ true

  pub same-Kept : (w' : World) → SameAccess w w' → Kept w'
  same-Kept w' s h = same-anchored w w' me.id s h

  then-Kept : (x w' : World) → Kept x → SameAccess x w' → Kept w'
  then-Kept x w' k s h = same-anchored x w' me.id s (k h)

  deny-Kept : (m : Memo) → Kept (deny me w m).world
  deny-Kept m = same-Kept _ (deny-SameAccess me w m)

  here-Kept : Kept w
  here-Kept h = h

  insert-Kept :
      (m : Memo) (user : User) (delegated : Bool) (g : Grant)
      → Kept (insert_user_grant w me m user delegated g).world
  unfolding insert_user_grant
  insert-Kept m user delegated g =
      if-both (λ (page : Page). Kept page.world) (is_taken g w.grants) _ _ (λ _. here-Kept)
        (λ _.
          then-Kept (add_grant g w) _ (add-anchored w g me.id)
            (granted_page-access (add_grant g w) me m user delegated g))

  written-Kept :
      (m : Memo) (user : User) (role kind value : String) (o : Option String)
      → Kept (written_user_grant w me m user role kind value o).world
  written-Kept m user role kind value (some err) = deny-Kept m
  written-Kept m user role kind value none = insert-Kept m user _ _

  checked-Kept :
      (m : Memo) (user : User) (role kind : String) (c : Checked)
      → Kept (checked_user_grant w me m user role kind c).world
  unfolding write_user_grant
  checked-Kept m user role kind (refused err) = here-Kept
  checked-Kept m user role kind (accepted value) =
      written-Kept m user role kind value (user_grant_error w me user role kind value)

  pub create_grant_view-Kept :
      (m : Memo) (form : Form) (o : Option User) → Kept (create_grant_view w me m form o).world
  unfolding create_grant_view
  create_grant_view-Kept m form none = here-Kept
  create_grant_view-Kept m form (some user) = checked-Kept m user _ _ _

  insert_group-Kept :
      (m : Memo) (group : LocalGroup) (delegated : Bool) (g : Grant)
      → Kept (insert_group_grant w me m group delegated g).world
  unfolding insert_group_grant
  insert_group-Kept m group delegated g =
      if-both (λ (page : Page). Kept page.world) (is_taken g w.grants) _ _ (λ _. here-Kept)
        (λ _.
          then-Kept (add_grant g w) _ (add-anchored w g me.id)
            (group_granted-access (add_grant g w) me m group delegated g))

  written_group-Kept :
      (m : Memo) (group : LocalGroup) (role kind value : String) (o : Option String)
      → Kept (written_group_grant w me m group role kind value o).world
  written_group-Kept m group role kind value (some err) = deny-Kept m
  written_group-Kept m group role kind value none = insert_group-Kept m group _ _

  checked_group-Kept :
      (m : Memo) (group : LocalGroup) (role kind : String) (c : Checked)
      → Kept (checked_group_grant w me m group role kind c).world
  unfolding write_group_grant
  checked_group-Kept m group role kind (refused err) = here-Kept
  checked_group-Kept m group role kind (accepted value) =
      written_group-Kept m group role kind value (write_error w me role kind value none)

  pub create_group_grant_view-Kept :
      (m : Memo) (form : Form) (o : Option LocalGroup)
      → Kept (create_group_grant_view w me m form o).world
  unfolding create_group_grant_view
  create_group_grant_view-Kept m form none = here-Kept
  create_group_grant_view-Kept m form (some group) = checked_group-Kept m group _ _ _

  -- The page after a row is gone: its audit row and its refreshes change no decision.
  deleted_page-access :
      (m : Memo) (uid : ℕ) (delegated : Bool) (g : Grant)
      → SameAccess (without_row w g.id) (deleted_page w me m uid delegated g).world
  unfolding deleted_page
  deleted_page-access m uid delegated g =
      SameAccess-trans (without_row w g.id) _ _
        (log_event-SameAccess _ _ _ _ _ _ (without_row w g.id))
        (refresh_members-SameAccess (uid ∷ []) _ m)

  group_deleted_page-access :
      (m : Memo) (gid : ℕ) (delegated : Bool) (g : Grant)
      → SameAccess (without_row w g.id) (group_deleted_page w me m gid delegated g).world
  unfolding group_deleted_page
  group_deleted_page-access m gid delegated g =
      SameAccess-trans (without_row w g.id) _ _
        (log_event-SameAccess _ _ _ _ _ _ (without_row w g.id))
        (refresh_members-SameAccess (members_of w gid) _ m)

  row-Kept :
      (gid : ℕ) (g : Grant) (w' : World)
      → grant_by_id w.grants gid ≡ some g
      → Kept (without_row w gid)
      → SameAccess (without_row w g.id) w'
      → Kept w'
  row-Kept gid g w' found k s =
      then-Kept (without_row w g.id) w'
        (subst (λ i. Kept (without_row w i)) (sym (found_id w.grants gid g found)) k) s

  edited-Kept :
      (m : Memo) (uid gid : ℕ) (g : Grant) (o : Option String)
      → grant_by_id w.grants gid ≡ some g
      → Kept (edited_user_grant w me m uid g o).world
  edited-Kept m uid gid g (some err) found = deny-Kept m
  edited-Kept m uid gid g none found =
      if-both (λ (page : Page). Kept page.world) (is_last_admin w me g) _ _ (λ _. here-Kept)
        (λ other.
          row-Kept gid g _ found (guarded-anchored w gid g found me other)
            (deleted_page-access m uid _ g))

  pub delete_grant_view-Kept :
      (m : Memo) (uid gid : ℕ) (o : Option Grant)
      → grant_by_id w.grants gid ≡ o
      → Kept (delete_grant_view w me m uid o).world
  unfolding delete_grant_view delete_found
  delete_grant_view-Kept m uid gid none found = here-Kept
  delete_grant_view-Kept m uid gid (some g) found =
      if-both (λ (page : Page). Kept page.world)
        (not (g.subject_kind == "user") || not (is_id g.subject_user_id uid)) _ _ (λ _. here-Kept)
        (λ _. edited-Kept m uid gid g (edit_error w me g) found)

  edited_group-Kept :
      (m : Memo) (gid grant_id : ℕ) (g : Grant) (o : Option String)
      → grant_by_id w.grants grant_id ≡ some g
      → (g.subject_kind == "local_group") ≡ true
      → Kept (edited_group_grant w me m gid g o).world
  edited_group-Kept m gid grant_id g (some err) found kind = deny-Kept m
  edited_group-Kept m gid grant_id g none found kind =
      row-Kept grant_id g _ found
        (foreign-anchored w grant_id g found me.id (group_row-anchored me.id g kind))
        (group_deleted_page-access m gid _ g)

  pub delete_group_grant_view-Kept :
      (m : Memo) (gid grant_id : ℕ) (o : Option Grant)
      → grant_by_id w.grants grant_id ≡ o
      → Kept (delete_group_grant_view w me m gid o).world
  unfolding delete_group_grant_view delete_found_group_grant
  delete_group_grant_view-Kept m gid grant_id none found = here-Kept
  delete_group_grant_view-Kept m gid grant_id (some g) found =
      if-both (λ (page : Page). Kept page.world)
        (not (g.subject_kind == "local_group") || not (is_id g.subject_group_id gid)) _ _
        (λ _. here-Kept)
        (λ e.
          edited_group-Kept m gid grant_id g
            (write_error w me g.role g.scope_kind g.scope_value (some g)) found (ground arith))
