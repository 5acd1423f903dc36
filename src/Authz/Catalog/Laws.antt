-- ===== src/Authz/Catalog/Laws.antt =====
-- overstate_ui/authz.py: how the catalogue of roles and permissions hangs together.
use overstate.Prelude.{
  ◌≡◌, String, true, some, List, [], ◌∷◌, arith, inl, inr, Option-cases, All, Bool-cases, refl,
  ◌==◌,
}
use overstate.Sets.{contains, union}
use overstate.Authz.Catalog.{role_perms, is_perm, has_perm, role_table, find_role, any_role_has}

any_role_has_of_found :
    (rows : List (String × List String)) (role perm : String) (perms : List String)
    → find_role role rows ≡ some perms
    → contains perms perm ≡ true
    → any_role_has perm rows ≡ true
any_role_has_of_found [] role perm perms e h = cc
any_role_has_of_found ((name, ps) ∷ rows) role perm perms e h =
    ground (arith, any_role_has_of_found rows role perm perms)

-- A permission that some role carries is in the catalogue.
pub is_perm_of_has_perm : (role perm : String) → has_perm role perm ≡ true → is_perm perm ≡ true
unfolding has_perm
is_perm_of_has_perm role perm h = elim (Option-cases (role_perms role)) [
  | inl missing ↦ cc (rw (missing, has_perm) at h)
  | inr (perms, found) ↦
      let held : contains perms perm ≡ true = rw (found, has_perm) at h in
      unfold is_perm role_perms in any_role_has_of_found role_table role perm perms found held
]

-- Every listed role with one permission has the other.
abbrev Carries : String → String → List (String × List String) → Type 0
Carries p q = All (λ row. contains row.1 p ≡ true → contains row.1 q ≡ true)

find_role-Carries :
    (p q role : String) (rows : List (String × List String)) (perms : List String)
    → Carries p q rows
    → find_role role rows ≡ some perms
    → contains perms p ≡ true
    → contains perms q ≡ true
find_role-Carries p q role [] perms h e c = cc
find_role-Carries p q role ((name, ps) ∷ rows) perms (h, hs) e c =
    elim (Bool-cases (name == role)) [
      | inl same ↦ let eq : ps ≡ perms = ground arith in rw eq at (h (rw (← eq) at c))
      | inr other ↦ find_role-Carries p q role rows perms hs (ground arith) c
    ]

write-Carries : Carries "file.write" "file.read" role_table
unfolding contains union
write-Carries = (
  λ _. refl,
  (
    λ _. refl,
    (
      λ _. refl,
      (
        λ h. cc,
        (
          λ h. cc,
          (
            λ h. cc,
            (
              λ h. cc,
              (λ h. cc, (λ _. refl, (λ h. cc, (λ h. cc, (λ _. refl, (λ _. refl, (λ h. cc, tt))))))),
            ),
          ),
        ),
      ),
    ),
  ),
)

-- A role that may write files may read them.
pub file_write-file_read :
    (role : String) → has_perm role "file.write" ≡ true → has_perm role "file.read" ≡ true
unfolding has_perm
file_write-file_read role h = elim (Option-cases (role_perms role)) [
  | inl missing ↦ cc (rw (missing, has_perm) at h)
  | inr (perms, found) ↦
      let writes : contains perms "file.write" ≡ true = rw (found, has_perm) at h in
      rw (found, has_perm)
        (unfold role_perms in
          find_role-Carries "file.write" "file.read" role role_table perms write-Carries found
            writes)
]
