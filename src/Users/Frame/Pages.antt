-- ===== src/Users/Frame/Pages.antt =====
-- overstate_ui/users.py: the gates, refreshes and denials beside the tables that decisions read.
use overstate.Prelude.{
  List, Option, String, [], false, if-both, none, not, refl, some, true, ℕ, ◌∷◌, ◌≡◌, subst, sym,
  if◌then◌else◌,
}
use overstate.Authz.Gates.{
  audit_deny, pass_any, pass_level, permission_required, roles_required, Passage, any_authorized,
  require,
}
use overstate.Store.{User, World, user_by_id}
use overstate.Users.{deny, refresh_members, refresh_one, guarded, Page, denied_page, require_scoped}
use overstate.Authz.Memo.{Memo, authorize}
use overstate.Users.Frame.{
  SameAccess, SameAccess-refl, log_event-SameAccess, refresh-SameAccess, SameAccess-trans,
}
use overstate.Authz.Flags.{scoped_mode}

refresh_one-SameAccess :
    (o : Option User) (w : World) (m : Memo) → SameAccess w (refresh_one o w m).0
refresh_one-SameAccess none w m = SameAccess-refl w
refresh_one-SameAccess (some u) w m = refresh-SameAccess w u m

pub refresh_members-SameAccess :
    (uids : List ℕ) (w : World) (m : Memo) → SameAccess w (refresh_members uids w m).0
unfolding refresh_members
refresh_members-SameAccess [] w m = SameAccess-refl w
refresh_members-SameAccess (uid ∷ uids) w m =
    let (w', m') = refresh_one (user_by_id w.users uid) w m in
    SameAccess-trans w w' _ (refresh_one-SameAccess (user_by_id w.users uid) w m)
      (refresh_members-SameAccess uids w' m')

-- A gate writes at most the audit row of a denial, and none where it passes.
pub record IsGate (w : World) (p : Passage) : Type 0 where
  pub access : SameAccess w p.world
  pub kept : p.passed ≡ true → p.world ≡ w

audit_deny-SameAccess :
    (user : User) (perm : String) (mid : Option String) (detail : String) (w : World)
    → SameAccess w (audit_deny user perm mid detail none w)
unfolding audit_deny
audit_deny-SameAccess user perm mid detail w = log_event-SameAccess _ _ _ _ _ _ w

pass_any-IsGate :
    (w : World) (me : User) (perms : List String) (named : String) (m : Memo)
    → IsGate w (pass_any w me perms named m)
unfolding pass_any
pass_any-IsGate w me perms named m =
    let (allowed, m') = any_authorized w me perms m in
    if-both (IsGate w) allowed (record { passed = true; world = w; memo = m' })
      (record { passed = false; world = audit_deny me named none "no-grant" none w; memo = m' })
      (λ _. record { access = SameAccess-refl w; kept = λ _. refl })
      (λ _. record { access = audit_deny-SameAccess me named none "no-grant" w; kept = λ e. cc })

pass_level-IsGate : (w : World) (me : User) (n : ℕ) (m : Memo) → IsGate w (pass_level w me n m)
unfolding pass_level
pass_level-IsGate w me n m = record { access = SameAccess-refl w; kept = λ _. refl }

pub permission_required-IsGate :
    (w : World) (me : User) (perms : List String) (m : Memo)
    → IsGate w (permission_required w me perms m)
unfolding permission_required
permission_required-IsGate w me perms m =
    if-both (IsGate w) (not (scoped_mode w)) _ _ (λ _. pass_level-IsGate w me 2 m)
      (λ _. pass_any-IsGate w me perms _ m)

pub roles_required-IsGate :
    (w : World) (me : User) (n : ℕ) (m : Memo) → IsGate w (roles_required w me n m)
unfolding roles_required
roles_required-IsGate w me n m =
    if-both (IsGate w) (not (scoped_mode w)) _ _ (λ _. pass_level-IsGate w me n m)
      (λ _. pass_any-IsGate w me _ _ m)

require-IsGate :
    (w : World) (me : User) (perm : String) (m : Memo)
    → IsGate w (require w me perm none none "no-grant" m)
unfolding require
require-IsGate w me perm m =
    let (allowed, m') = authorize w me perm none none m in
    if-both (IsGate w) (not (scoped_mode w)) (record { passed = true; world = w; memo = m })
      (if allowed then record { passed = true; world = w; memo = m' } else record {
        passed = false;
        world = audit_deny me perm none "no-grant" none w;
        memo = m';
      })
      (λ _. record { access = SameAccess-refl w; kept = λ _. refl })
      (λ _.
        if-both (IsGate w) allowed (record { passed = true; world = w; memo = m' })
          (record { passed = false; world = audit_deny me perm none "no-grant" none w; memo = m' })
          (λ _. record { access = SameAccess-refl w; kept = λ _. refl })
          (λ _. record {
            access = audit_deny-SameAccess me perm none "no-grant" w;
            kept = λ e. cc;
          }))

pub require_scoped-IsGate :
    (w : World) (me : User) (perm : String) (m : Memo) → IsGate w (require_scoped w me perm m)
unfolding require_scoped
require_scoped-IsGate w me perm m =
    if-both (IsGate w) (scoped_mode w) _ _ (λ _. require-IsGate w me perm m)
      (λ _. record { access = SameAccess-refl w; kept = λ _. refl })

pub deny-SameAccess : (me : User) (w : World) (m : Memo) → SameAccess w (deny me w m).world
unfolding deny
deny-SameAccess me w m = audit_deny-SameAccess me "grant.delegate" none "out-of-scope" w

-- What holds of every database that decides the same, and of what the view leaves, holds of what a
-- guarded view leaves.
pub guarded-world {κ} :
    (P : World → Type κ) (w : World) (p : Passage) (view : World → Memo → Page)
    → IsGate w p
    → ((w' : World) → SameAccess w w' → P w')
    → P (view w p.memo).world
    → P (guarded p view).world
unfolding guarded
guarded-world P w p view gate same viewed =
    if-both (λ (page : Page). P page.world) p.passed (view p.world p.memo)
      (denied_page p.world p.memo)
      (λ e. subst (λ x. P (view x p.memo).world) (sym (gate.kept e)) viewed)
      (λ _. same p.world gate.access)
