-- ===== src/Users/GroupGrants/Escalation.antt =====
-- overstate_ui/users.py: `create_local_group_grant` by a delegate.
use overstate.Prelude.{
  Bool, Option, Option-cases, String, arith, false, if-both, inl, inr, none, some, subst, sym, ℕ,
  ◌≡◌, ◌≢◌, true, ◌⊎◌,
}
use overstate.Store.{World, User, LocalGroup, Grant}
use overstate.Users.{fleet_grant_admin, Form, Page}
use overstate.Authz.Catalog.{perm_domain, delegate}
use overstate.Authz.Memo.{Memo}
use overstate.Users.Frame.{SameAccess, SameAccess-refl, SameAccess-trans, log_event-SameAccess}
use overstate.Users.Grants.Escalation.{NoMore, same-NoMore, write_error-none, added-NoMore}
use overstate.Users.GroupGrants.{
  create_group_grant_view, create_local_group_grant, group_granted_page, insert_group_grant,
  write_group_grant, write_error, checked_group_grant, written_group_grant,
}
use overstate.Users.Frame.Pages.{
  guarded-world, permission_required-IsGate, deny-SameAccess, refresh_members-SameAccess,
}
use overstate.Users.Scope.{Checked, accepted, refused}
use overstate.Authz.Delegation.{delegate_grant_error}
use overstate.Users.Grants.{grant_gate, is_taken, add_grant}
use overstate.Users.Groups.{local_group_by_id}
use overstate.Authz.Decide.{decide}

pub group_granted-access :
    (x : World) (me : User) (m : Memo) (group : LocalGroup) (delegated : Bool) (g : Grant)
    → SameAccess x (group_granted_page x me m group delegated g).world
unfolding group_granted_page
group_granted-access x me m group delegated g =
    SameAccess-trans x _ _ (log_event-SameAccess _ _ _ _ _ _ x) (refresh_members-SameAccess _ _ m)

module _ (w : World) (me : User) (delegate_only : fleet_grant_admin w me ≡ false) (v : User)
    (perm mid : String) (path : Option String) (no_view : perm_domain perm ≢ delegate) where
  abbrev Bounded : World → Type 0
  Bounded = NoMore w me delegate_only v perm mid path no_view

  abbrev same-Bounded : (w' : World) → SameAccess w w' → Bounded w'
  same-Bounded = same-NoMore w me delegate_only v perm mid path no_view

  insert-Bounded :
      (m : Memo) (group : LocalGroup) (delegated : Bool) (g : Grant)
      → delegate_grant_error w me g.role g.scope_kind g.scope_value ≡ none
      → Bounded (insert_group_grant w me m group delegated g).world
  unfolding insert_group_grant
  insert-Bounded m group delegated g passed =
      if-both (λ (page : Page). Bounded page.world) (is_taken g w.grants) _ _
        (λ _. same-Bounded w (SameAccess-refl w))
        (λ _.
          added-NoMore w me delegate_only v perm mid path no_view g passed _
            (group_granted-access (add_grant g w) me m group delegated g))

  write-Bounded :
      (m : Memo) (group : LocalGroup) (role kind value : String)
      → Bounded (write_group_grant w me m group role kind value).world
  unfolding write_group_grant
  write-Bounded m group role kind value =
      elim (Option-cases (write_error w me role kind value none)) [
        | inl passed ↦
            subst
              (λ (o : Option String).
                Bounded (written_group_grant w me m group role kind value o).world)
              (sym passed)
              (insert-Bounded m group _ _ (
                write_error-none w me delegate_only v perm mid path no_view role kind value none
                  none (ground arith)))
        | inr (err, e) ↦
            subst
              (λ (o : Option String).
                Bounded (written_group_grant w me m group role kind value o).world)
              (sym e) (same-Bounded _ (deny-SameAccess me w m))
      ]

  checked-Bounded :
      (m : Memo) (group : LocalGroup) (role kind : String) (c : Checked)
      → Bounded (checked_group_grant w me m group role kind c).world
  checked-Bounded m group role kind (refused err) = same-Bounded w (SameAccess-refl w)
  checked-Bounded m group role kind (accepted value) = write-Bounded m group role kind value

  view-Bounded :
      (m : Memo) (form : Form) (o : Option LocalGroup)
      → Bounded (create_group_grant_view w me m form o).world
  unfolding create_group_grant_view
  view-Bounded m form none = same-Bounded w (SameAccess-refl w)
  view-Bounded m form (some group) = checked-Bounded m group _ _ _

  -- No escalation by a grant to a local group: what a caller without a fleet `grant.admin` leaves
  -- decided for a user on a minion, off the delegated views, was decided before, or the caller is
  -- authorized for it.
  pub create_group_grant_safe :
      (m : Memo) (gid : ℕ) (form : Form)
      → decide (create_local_group_grant w me m gid form).world v perm (some mid) path ≡ true
      → (decide w v perm (some mid) path ≡ true) ⊎ (decide w me perm (some mid) path ≡ true)
  unfolding create_local_group_grant
  create_group_grant_safe m gid form =
      guarded-world Bounded w (grant_gate w me m) _ (permission_required-IsGate w me _ m)
        same-Bounded
        (view-Bounded (grant_gate w me m).memo form (local_group_by_id w.local_groups gid))
