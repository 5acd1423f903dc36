-- ===== src/Users/Scope/Accepted.antt =====
-- overstate_ui/users.py: what `_validate_grant_scope` accepts.
use overstate.Prelude.{
  String, arith, eq_iff, eq_refl, false, not, refl, subst, sym, true, ◌&&◌, ◌==◌, ◌||◌, ◌≡◌,
}
use overstate.Users.Scope.{
  check_matcher, is_role, validate_grant_scope, check_prefix, is_file_role, accepted,
}
use overstate.Authz.Decide.{is_ignored}
use overstate.Sets.{contains}
use overstate.Store.{World}
use overstate.Authz.Delegation.{delegate_scope_kinds}
use overstate.Users.{Form}

-- The shape of an accepted grant: a known role, on the fleet, or a file role on a path, or another
-- role that may leave the fleet on a minion matcher.
pub record IsWellScoped (role kind value : String) : Type 0 where
  pub known : is_role role ≡ true
  pub heeded : is_ignored (record { role = role; kind = kind; value = value }) ≡ false
  pub path_kind : (kind == "prefix") ≡ (is_file_role role && not (kind == "fleet"))
  pub kind_known :
      (kind == "fleet" || kind == "prefix" || contains delegate_scope_kinds kind) ≡ true

eq_sym : (a b : String) → (a == b) ≡ true → (b == a) ≡ true
eq_sym a b e = subst (λ s. (s == a) ≡ true) ((eq_iff a b).0 e) (eq_refl a)

kinds_differ : (kind : String) → (kind == "fleet") ≡ true → (kind == "prefix") ≡ false
kinds_differ kind e = subst (λ s. (s == "prefix") ≡ false) (sym ((eq_iff kind "fleet").0 e)) refl

matcher_kind :
    (w : World) (kind : String) (form : Form) (value : String)
    → check_matcher w kind form ≡ accepted value
    → contains delegate_scope_kinds kind ≡ true
unfolding check_matcher contains
matcher_kind w kind form value h =
    ground (arith, eq_sym kind "group", eq_sym kind "list", eq_sym kind "glob", eq_sym kind "grain")

-- Whatever a grant dialog accepts is a known role in a scope of its kind, which the brake on
-- fleet-only roles never drops; a path scope goes with the file roles and with no other.
pub validate-IsWellScoped :
    (w : World) (role kind : String) (form : Form) (value : String)
    → validate_grant_scope w role kind form ≡ accepted value
    → IsWellScoped role kind value
unfolding validate_grant_scope check_prefix is_ignored
validate-IsWellScoped w role kind form value h = record {
  known = ground arith;
  heeded = ground arith;
  path_kind = ground (arith, kinds_differ kind);
  kind_known = ground (arith, matcher_kind w kind form value);
}
