-- ===== src/Users/Grants/Escalation.antt =====
-- overstate_ui/users.py: `create_grant` by a delegate.
use overstate.Prelude.{
  Bool, Option, Option-cases, String, arith, false, if-both, inl, inr, none, some, subst, sym, true,
  ℕ, ◌∙◌, ◌≡◌, ◌≢◌, ◌⊎◌,
}
use overstate.Store.{World, User, Grant, user_by_id}
use overstate.Users.{fleet_grant_admin, delegate_grant_write_error, Form, Page}
use overstate.Authz.Catalog.{perm_domain, delegate}
use overstate.Authz.Decide.{decide}
use overstate.Authz.Memo.{Memo}
use overstate.Users.Frame.{
  SameAccess, SameAccess-decide, SameAccess-trans, SameAccess-refl, log_event-SameAccess,
  refresh-SameAccess,
}
use overstate.Users.Grants.{
  create_grant, create_grant_view, granted_page, insert_user_grant, write_user_grant,
  user_grant_error, add_grant, checked_user_grant, written_user_grant, grant_gate, is_taken,
}
use overstate.Authz.Delegation.{delegate_grant_error}
use overstate.Users.Scope.{Checked, accepted, refused}
use overstate.Users.Frame.Pages.{guarded-world, deny-SameAccess, permission_required-IsGate}
use overstate.Users.Grants.Added.{decide-add}
use overstate.Authz.Delegation.Escalation.{delegated_held}

pub granted_page-access :
    (x : World) (me : User) (m : Memo) (user : User) (delegated : Bool) (g : Grant)
    → SameAccess x (granted_page x me m user delegated g).world
unfolding granted_page
granted_page-access x me m user delegated g =
    SameAccess-trans x _ _ (log_event-SameAccess _ _ _ _ _ _ x) (refresh-SameAccess _ user m)

module _ (w : World) (me : User) (delegate_only : fleet_grant_admin w me ≡ false) (v : User)
    (perm mid : String) (path : Option String) (no_view : perm_domain perm ≢ delegate) where
  -- No more is decided than before, but for what the caller holds on the same minion.
  abbrev pub NoMore : World → Type 0
  NoMore w' =
      decide w' v perm (some mid) path ≡ true
      → (decide w v perm (some mid) path ≡ true) ⊎ (decide w me perm (some mid) path ≡ true)

  pub same-NoMore : (w' : World) → SameAccess w w' → NoMore w'
  same-NoMore w' s h = inl (sym (SameAccess-decide w w' s v perm (some mid) path) ∙ h)

  module _ (g : Grant)
      (passed : delegate_grant_error w me g.role g.scope_kind g.scope_value ≡ none) where
    pub added-NoMore : (w' : World) → SameAccess (add_grant g w) w' → NoMore w'
    added-NoMore w' s h =
        let now = sym (SameAccess-decide (add_grant g w) w' s v perm (some mid) path) ∙ h in
        elim (decide-add w g v perm (some mid) path now) [
          | inl old ↦ inl old
          | inr new ↦ inr (
              delegated_held w me g.role g.scope_kind g.scope_value passed perm mid path no_view
                new)
        ]

  pub write_error-none :
      (role kind value : String) (grant : Option Grant) (subject : Option ℕ)
      → delegate_grant_write_error w me role kind value grant subject ≡ none
      → delegate_grant_error w me role kind value ≡ none
  unfolding delegate_grant_write_error
  write_error-none role kind value grant subject h = ground arith

  insert-NoMore :
      (m : Memo) (user : User) (delegated : Bool) (g : Grant)
      → delegate_grant_error w me g.role g.scope_kind g.scope_value ≡ none
      → NoMore (insert_user_grant w me m user delegated g).world
  unfolding insert_user_grant
  insert-NoMore m user delegated g passed =
      if-both (λ (page : Page). NoMore page.world) (is_taken g w.grants) _ _
        (λ _. same-NoMore w (SameAccess-refl w))
        (λ _. added-NoMore g passed _ (granted_page-access (add_grant g w) me m user delegated g))

  write-NoMore :
      (m : Memo) (user : User) (role kind value : String)
      → NoMore (write_user_grant w me m user role kind value).world
  unfolding write_user_grant
  write-NoMore m user role kind value =
      elim (Option-cases (user_grant_error w me user role kind value)) [
        | inl passed ↦
            subst
              (λ (o : Option String).
                NoMore (written_user_grant w me m user role kind value o).world)
              (sym passed)
              (insert-NoMore m user _ _
                (write_error-none role kind value none (some user.id) (ground arith)))
        | inr (err, e) ↦
            subst
              (λ (o : Option String).
                NoMore (written_user_grant w me m user role kind value o).world)
              (sym e) (same-NoMore _ (deny-SameAccess me w m))
      ]

  checked-NoMore :
      (m : Memo) (user : User) (role kind : String) (c : Checked)
      → NoMore (checked_user_grant w me m user role kind c).world
  checked-NoMore m user role kind (refused err) = same-NoMore w (SameAccess-refl w)
  checked-NoMore m user role kind (accepted value) = write-NoMore m user role kind value

  view-NoMore :
      (m : Memo) (form : Form) (o : Option User) → NoMore (create_grant_view w me m form o).world
  unfolding create_grant_view
  view-NoMore m form none = same-NoMore w (SameAccess-refl w)
  view-NoMore m form (some user) = checked-NoMore m user _ _ _

  -- No escalation by the grant dialog. Whatever a request of a caller without a fleet `grant.admin`
  -- leaves decided for a user on a minion, off the delegated views, was decided before, or the caller
  -- is authorized for the same permission on that minion.
  pub create_grant_safe :
      (m : Memo) (uid : ℕ) (form : Form)
      → decide (create_grant w me m uid form).world v perm (some mid) path ≡ true
      → (decide w v perm (some mid) path ≡ true) ⊎ (decide w me perm (some mid) path ≡ true)
  unfolding create_grant
  create_grant_safe m uid form =
      guarded-world NoMore w (grant_gate w me m) _ (permission_required-IsGate w me _ m) same-NoMore
        (view-NoMore (grant_gate w me m).memo form (user_by_id w.users uid))
