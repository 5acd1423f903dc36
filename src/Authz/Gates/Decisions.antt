-- ===== src/Authz/Gates/Decisions.antt =====
-- overstate_ui/authz.py and overstate_ui/auth.py: the gates beside the decisions of the rows.
use overstate.Prelude.{
  List, Option, String, [], any, if◌then◌else◌, none, not, refl, ◌||◌, ◌∷◌, ◌≡◌, Bool, arith, false,
  if-both, subst, true, ℕ, ◌∙◌,
}
use overstate.Store.{World, User}
use overstate.Authz.Catalog.{floor_perms}
use overstate.Authz.Flags.{scoped_mode}
use overstate.Authz.Entries.{effective_entries}
use overstate.Authz.Decide.{decide}
use overstate.Authz.Memo.{Memo, authorize}
use overstate.Authz.Memo.Coherence.{IsCoherent, IsCurrent, authorize-decide}
use overstate.Authz.Gates.{
  audit_deny, Passage, require, any_authorized, pass_any, pass_level, permission_required,
  roles_required, first_or,
}

-- A gate's outcome from the mode and an answer.
abbrev settle : World → World → Memo → Bool → Bool × Memo → Passage
settle w denied m s r =
    if not s
    then record { passed = true; world = w; memo = m }
    else if r.0
    then record { passed = true; world = w; memo = r.1 }
    else record { passed = false; world = denied; memo = r.1 }

-- What a gate promises: it passes just when allowed, writes the denial just when it does not pass,
-- and leaves a coherent memo.
abbrev pub Settled : World → World → Bool → Passage → Type 0
Settled w denied allowed r =
    (r.passed ≡ allowed) × (r.world ≡ (if allowed then w else denied)) × IsCoherent w r.memo

settle-Settled :
    (w denied : World) (m : Memo) (s : Bool) (r : Bool × Memo)
    → IsCoherent w m
    → IsCoherent w r.1
    → Settled w denied (not s || r.0) (settle w denied m s r)
settle-Settled w denied m false r ok ok' = (refl, refl, ok)
settle-Settled w denied m true (true, m') ok ok' = (refl, refl, ok')
settle-Settled w denied m true (false, m') ok ok' = (refl, refl, ok')

module _ (w : World) (user : User) (current : IsCurrent w user) where
  -- From a coherent memo `require` lets the request through exactly when access control is legacy or
  -- the rows allow the permission. A request that passes leaves the database alone; one that does
  -- not leaves exactly one more audit row, the denial. The memo stays coherent.
  pub require-decide :
      (perm : String) (minion prefix : Option String) (detail : String) (m : Memo)
      → IsCoherent w m
      → Settled w
          (audit_deny user perm minion detail none w)
          (not (scoped_mode w) || decide w user perm minion prefix)
          (require w user perm minion prefix detail m)
  unfolding require
  require-decide perm minion prefix detail m ok =
      let (right, ok') = authorize-decide w user current perm minion prefix m ok in
      let denied = audit_deny user perm minion detail none w in
      let answer = authorize w user perm minion prefix m in
      subst
        (λ b.
          Settled w denied (not (scoped_mode w) || b) (settle w denied m (scoped_mode w) answer))
        right (settle-Settled w denied m (scoped_mode w) answer ok ok')

  abbrev IsAny : List String → Bool × Memo → Type 0
  IsAny perms r = (r.0 ≡ any (λ p. decide w user p none none) perms) × IsCoherent w r.1

  or_later :
      (p : String) (ps : List String) (r later : Bool × Memo)
      → r.0 ≡ decide w user p none none
      → IsCoherent w r.1
      → IsAny ps later
      → IsAny (p ∷ ps) (if r.0 then (true, r.1) else later)
  unfolding any
  or_later p ps (true, m) later h ok (k, ok') = (ground arith, ok)
  or_later p ps (false, m) later h ok (k, ok') = (ground arith, ok')

  any_authorized-decide :
      (perms : List String) (m : Memo)
      → IsCoherent w m
      → IsAny perms (any_authorized w user perms m)
  unfolding any_authorized any
  any_authorized-decide [] m ok = (refl, ok)
  any_authorized-decide (p ∷ ps) m ok =
      let (right, ok') = authorize-decide w user current p none none m ok in
      or_later p ps (authorize w user p none none m)
        (any_authorized w user ps (authorize w user p none none m).1) right ok'
        (any_authorized-decide ps (authorize w user p none none m).1 ok')

  pass_any-Settled :
      (perms : List String) (named : String) (m : Memo)
      → IsCoherent w m
      → Settled w
          (audit_deny user named none "no-grant" none w)
          (any (λ p. decide w user p none none) perms)
          (pass_any w user perms named m)
  unfolding pass_any
  pass_any-Settled perms named m ok =
      let denied = audit_deny user named none "no-grant" none w in
      let (right, ok') = any_authorized-decide perms m ok in
      subst (λ b. Settled w denied b (settle w denied m true (any_authorized w user perms m))) right
        (settle-Settled w denied m true (any_authorized w user perms m) ok ok')

  -- In scoped mode a view behind `permission_required` runs exactly when one of the permissions is
  -- held on some scope, and a denial is audited under the first of them.
  pub permission_required-decide :
      (perms : List String) (m : Memo)
      → IsCoherent w m
      → scoped_mode w ≡ true
      → Settled w
          (audit_deny user (first_or "no-grant" perms) none "no-grant" none w)
          (any (λ p. decide w user p none none) perms)
          (permission_required w user perms m)
  unfolding permission_required
  permission_required-decide perms m ok scoped =
      let named = first_or "no-grant" perms in
      let denied = audit_deny user named none "no-grant" none w in
      if-both (Settled w denied (any (λ p. decide w user p none none) perms)) (not (scoped_mode w))
        (pass_level w user 2 m) (pass_any w user perms named m) (λ e. absurd (ground arith))
        (λ _. pass_any-Settled perms named m ok)

  no_entry :
      (perm : String) (minion prefix : Option String)
      → effective_entries w user ≡ []
      → decide w user perm minion prefix ≡ false
  unfolding decide
  no_entry perm minion prefix h = rw h (unfold any in ground arith)

  none_held :
      (perms : List String)
      → effective_entries w user ≡ []
      → any (λ p. decide w user p none none) perms ≡ false
  unfolding any
  none_held [] h = refl
  none_held (p ∷ ps) h = ground (arith, no_entry p none none h, none_held ps h)

  -- The backstop: in scoped mode a user without any effective entry passes no gate, whatever the
  -- level or the permission.
  pub zero_grant_denied :
      (minimum : ℕ) (perm : String) (minion prefix : Option String) (detail : String) (m : Memo)
      → IsCoherent w m
      → scoped_mode w ≡ true
      → effective_entries w user ≡ []
      → ((roles_required w user minimum m).passed ≡ false)
        × ((require w user perm minion prefix detail m).passed ≡ false)
  unfolding roles_required
  zero_grant_denied minimum perm minion prefix detail m ok scoped h =
      let floor = floor_perms minimum in
      let none_of = none_held floor h in
      let passed = (pass_any-Settled floor (first_or "" floor) m ok).0 in
      let required = (require-decide perm minion prefix detail m ok).0 in
      let denied = no_entry perm minion prefix h in
      (
        if-both (λ (r : Passage). r.passed ≡ false) (not (scoped_mode w))
            (pass_level w user minimum m) (pass_any w user floor (first_or "" floor) m)
            (λ e. absurd (ground arith)) (λ _. passed ∙ none_of),
        required ∙ ground (arith, denied),
      )
