-- ===== src/Login/Provision/Linked.antt =====
-- overstate_ui/auth.py: the row that `filter_by(oidc_issuer=..., oidc_sub=...)` finds.
use overstate.Prelude.{
  All, All-mono, any, eq_iff, ◌==◌, ◌&&◌, Bool, subst, sym, true, List, String, [], none, some,
  false, ◌∷◌, ◌≡◌, ◌=?◌, inl, inr, arith, Bool-cases, Among, any-Among, any-none,
}
use overstate.Store.{User}
use overstate.Login.Provision.{Identity, find_linked, is_name_taken}

-- The identity is the issuer's subject, for the account.
abbrev pub Carries : String → String → User → Identity → Type 0
Carries issuer sub u i = (i.user_id ≡ u.id) × (i.oidc_issuer ≡ issuer) × (i.oidc_sub ≡ sub)

abbrev tests : String → String → User → Identity → Bool
tests issuer sub u i = i.user_id =? u.id && i.oidc_issuer == issuer && i.oidc_sub == sub

tests-Carries :
    (issuer sub : String) (u : User) (i : Identity)
    → tests issuer sub u i ≡ true
    → Carries issuer sub u i
tests-Carries issuer sub u i h = (
  ground arith,
  ground (arith, eq_iff i.oidc_issuer issuer),
  ground (arith, eq_iff i.oidc_sub sub),
)

Carries-tests :
    (issuer sub : String) (u : User) (i : Identity)
    → tests issuer sub u i ≡ false
    → Carries issuer sub u i
    → ⊥
Carries-tests issuer sub u i h (own, same_issuer, same_sub) =
    ground (arith, eq_iff i.oidc_issuer issuer, eq_iff i.oidc_sub sub)

pub found-Carries :
    (ids : List Identity) (issuer sub : String) (us : List User) (v : User)
    → find_linked ids issuer sub us ≡ some v
    → Among us v × (i : Identity) × Among ids i × Carries issuer sub v i
unfolding find_linked
found-Carries ids issuer sub [] v h = absurd (cc)
found-Carries ids issuer sub (u ∷ us) v h = elim (Bool-cases (any (tests issuer sub u) ids)) [
  | inl linked ↦
      let same : v ≡ u = ground arith in
      let (i, member, holds) = any-Among (tests issuer sub u) ids linked in
      (
        inl same,
        i,
        member,
        subst (λ x. Carries issuer sub x i) (sym same) (tests-Carries issuer sub u i holds),
      )
  | inr other ↦
      let later = found-Carries ids issuer sub us v (rw other at h) in
      (inr later.0, later.1, later.2, later.3)
]

-- Nobody of the users carries the subject.
abbrev pub NobodyCarries : List Identity → String → String → List User → Type 0
NobodyCarries ids issuer sub us = All (λ u. All (λ i. Carries issuer sub u i → ⊥) ids) us

pub missing-NobodyCarries :
    (ids : List Identity) (issuer sub : String) (us : List User)
    → find_linked ids issuer sub us ≡ none
    → NobodyCarries ids issuer sub us
unfolding find_linked
missing-NobodyCarries ids issuer sub [] h = tt
missing-NobodyCarries ids issuer sub (u ∷ us) h =
    let unlinked : any (tests issuer sub u) ids ≡ false = ground arith in
    (
      All-mono _ _ ids (λ i no. Carries-tests issuer sub u i no)
          (any-none (tests issuer sub u) ids unlinked),
      missing-NobodyCarries ids issuer sub us (rw unlinked at h),
    )

pub free_name :
    (us : List User) (name : String)
    → is_name_taken us name ≡ false
    → All (λ v. (v.username == name) ≡ false) us
unfolding is_name_taken
free_name us name h = any-none (λ u. u.username == name) us h
