-- ===== src/Users/Writes/Views.antt =====
-- overstate_ui/users.py: the group and account views beside the fleet admin's own grant or mapping.
use overstate.Prelude.{
  List, Option, String, any, false, if-both, ltb, none, not, refl, some, ℕ, ◌&&◌, ◌==◌, ◌=?◌, ◌||◌,
  ◌≡◌,
}
use overstate.Store.{World, User, LocalGroup}
use overstate.Authz.Memo.{Memo}
use overstate.Users.Accounts.{
  create_account_view, delete_view, set_role_view, set_scoped_role, is_level, replace_rung,
  text_length,
}
use overstate.Users.Frame.{SameAccess, SameAccess-trans, log_event-SameAccess, refresh-SameAccess}
use overstate.Users.Groups.{
  create_local_group_view, delete_group_view, edit_members_view, edited_page,
  rename_local_group_view, deleted_group_page, edited_members, group_error, name_taken,
  deleted_group, replace_members, known_ids, posted_ids, members_of,
}
use overstate.Users.Writes.Kept.{Kept, same-Kept}
use overstate.Users.{Page}
use overstate.Users.Writes.Anchor.{same-anchored, drop_group-anchored, members-anchored}
use overstate.Users.Frame.Pages.{deny-SameAccess, refresh_members-SameAccess}
use overstate.Users.Writes.Accounts.{drop_user-anchored, rung-anchored}
use overstate.Authz.Flags.{scoped_mode}

module _ (w : World) (me : User) where
  abbrev Keeps : World → Type 0
  Keeps = Kept w me

  abbrev same-Keeps : (w' : World) → SameAccess w w' → Keeps w'
  same-Keeps = same-Kept w me

  here-Keeps : Keeps w
  here-Keeps h = h

  -- New and renamed groups leave the decisions alone.
  groups-access :
      (gs : List LocalGroup) (n : ℕ)
      → SameAccess w (record w { local_groups = gs; next_group_id = n })
  groups-access gs n = record {
    us = w.users;
    evs = w.audit_events;
    groups = gs;
    a = w.next_user_id;
    b = n;
    c = w.next_grant_id;
    same = refl;
  }

  users-access : (us : List User) (n : ℕ) → SameAccess w (record w { users = us; next_user_id = n })
  users-access us n = record {
    us = us;
    evs = w.audit_events;
    groups = w.local_groups;
    a = n;
    b = w.next_group_id;
    c = w.next_grant_id;
    same = refl;
  }

  pub add_group-Keeps : (m : Memo) (name : String) → Keeps (create_local_group_view w m name).world
  unfolding create_local_group_view
  add_group-Keeps m name =
      if-both (λ (page : Page). Keeps page.world) (name == "") _ _ (λ _. here-Keeps)
        (λ _.
          if-both (λ (page : Page). Keeps page.world) (name_taken name w.local_groups) _ _
            (λ _. here-Keeps) (λ _. same-Keeps _ (groups-access _ _)))

  pub rename_group-Keeps :
      (m : Memo) (gid : ℕ) (name : String) (o : Option LocalGroup)
      → Keeps (rename_local_group_view w m gid name o).world
  unfolding rename_local_group_view
  rename_group-Keeps m gid name none = here-Keeps
  rename_group-Keeps m gid name (some group) =
      if-both (λ (page : Page). Keeps page.world) (name == "") _ _ (λ _. here-Keeps)
        (λ _.
          if-both (λ (page : Page). Keeps page.world)
            (any (λ g. g.name == name && not (g.id =? gid)) w.local_groups) _ _ (λ _. here-Keeps)
            (λ _. same-Keeps _ (groups-access _ w.next_group_id)))

  members-Keeps :
      (m : Memo) (gid : ℕ) (raws : List String) (group : LocalGroup) (o : Option String)
      → Keeps (edited_members w me m gid raws group o).world
  unfolding edited_page
  members-Keeps m gid raws group (some err) = same-Keeps _ (deny-SameAccess me w m)
  members-Keeps m gid raws group none = λ h.
      let rows =
        replace_members gid (known_ids w (posted_ids raws)) (members_of w gid)
          w.local_group_members in
      same-anchored (record w { local_group_members = rows }) _ me.id
        (SameAccess-trans _ _ _ (refresh_members-SameAccess _ _ m)
          (log_event-SameAccess _ _ _ _ _ _ _))
        (members-anchored w rows me.id h)

  pub edit_members-Keeps :
      (m : Memo) (gid : ℕ) (raws : List String) (o : Option LocalGroup)
      → Keeps (edit_members_view w me m gid raws o).world
  unfolding edit_members_view
  edit_members-Keeps m gid raws none = here-Keeps
  edit_members-Keeps m gid raws (some group) = members-Keeps m gid raws group (group_error w me gid)

  dropped-Keeps :
      (m : Memo) (gid : ℕ) (group : LocalGroup) (o : Option String)
      → Keeps (deleted_group_page w me m gid group o).world
  dropped-Keeps m gid group (some err) = same-Keeps _ (deny-SameAccess me w m)
  dropped-Keeps m gid group none = λ h.
      same-anchored (deleted_group w gid) _ me.id (refresh_members-SameAccess _ _ m)
        (drop_group-anchored w gid me.id h)

  pub drop_group-Keeps :
      (m : Memo) (gid : ℕ) (o : Option LocalGroup) → Keeps (delete_group_view w me m gid o).world
  unfolding delete_group_view
  drop_group-Keeps m gid none = here-Keeps
  drop_group-Keeps m gid (some group) = dropped-Keeps m gid group (group_error w me gid)

  scoped_role-Keeps :
      (m : Memo) (user : User) (role : String)
      → (user.id =? me.id && not (role == "admin")) ≡ false
      → Keeps (set_scoped_role w me m user role).world
  unfolding set_scoped_role
  scoped_role-Keeps m user role allowed h =
      same-anchored (replace_rung w me user role) _ me.id
        (SameAccess-trans _ _ _ (log_event-SameAccess _ _ _ _ _ _ _) (refresh-SameAccess _ user m))
        (rung-anchored w me user role allowed h)

  pub set_role-Keeps :
      (m : Memo) (role : String) (o : Option User) → Keeps (set_role_view w me m role o).world
  unfolding set_role_view
  set_role-Keeps m role none = here-Keeps
  set_role-Keeps m role (some user) =
      if-both (λ (page : Page). Keeps page.world) (not (is_level role)) _ _ (λ _. here-Keeps)
        (λ _.
          if-both (λ (page : Page). Keeps page.world) (user.id =? me.id && not (role == "admin")) _
            _ (λ _. here-Keeps)
            (λ allowed.
              if-both (λ (page : Page). Keeps page.world) (not (scoped_mode w)) _ _
                (λ _. same-Keeps _ (users-access _ w.next_user_id))
                (λ _. scoped_role-Keeps m user role allowed)))

  pub add_account-Keeps : (m : Memo) (name : String) → Keeps (create_account_view w m name).world
  unfolding create_account_view
  add_account-Keeps m name =
      if-both (λ (page : Page). Keeps page.world) (name == "" || ltb 64 (text_length name)) _ _
        (λ _. here-Keeps)
        (λ _.
          if-both (λ (page : Page). Keeps page.world) (any (λ u. u.username == name) w.users) _ _
            (λ _. here-Keeps)
            (λ _.
              same-Keeps _ (SameAccess-trans _ _ _ (users-access _ _) (refresh-SameAccess _ _ m))))

  pub drop_user-Keeps : (m : Memo) (o : Option User) → Keeps (delete_view w me m o).world
  unfolding delete_view
  drop_user-Keeps m none = here-Keeps
  drop_user-Keeps m (some user) =
      if-both (λ (page : Page). Keeps page.world) (user.id =? me.id) _ _ (λ _. here-Keeps)
        (λ other. drop_user-anchored w user.id me.id other)
