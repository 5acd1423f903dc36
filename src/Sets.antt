-- ===== src/Sets.antt =====
-- Python's `set[str]`, as a list without repetition that is read by membership only. The code under
-- overstate_ui builds such sets by comprehensions, `|=`, `&` and `<=`, and reads them by `in`,
-- by truth and through `sorted`.
pub mod Sorting
use overstate.Prelude.{
  ◌≡◌, refl, String, Bool, true, false, not, ◌&&◌, ◌||◌, List, [], ◌∷◌, ◌==◌, eq_iff, eq_refl,
  arith, if◌then◌else◌, Bool-cases, ◌⊎◌, inl, inr, any, All, subst,
}

-- `x in s`
unfoldable pub contains : List String → String → Bool
contains [] x = false
contains (y ∷ s) x = y == x || contains s x

-- `s.add(x)`
unfoldable pub add : String → List String → List String
add x s = if contains s x then s else x ∷ s

-- `{f(x) for x in xs}`, after `f`
unfoldable pub from_list : List String → List String
unfolding add contains
from_list [] = []
from_list (x ∷ xs) = add x (from_list xs)

-- `a | b`
unfoldable pub union : List String → List String → List String
unfolding add contains
union [] b = b
union (x ∷ a) b = add x (union a b)

-- `{x for x in a if p(x)}`
unfoldable pub filter : (String → Bool) → List String → List String
filter p [] = []
filter p (x ∷ a) = let rest = filter p a in if p x then x ∷ rest else rest

-- `a & b`
unfoldable pub inter : List String → List String → List String
unfolding filter contains
inter a b = filter (contains b) a

-- `a - b`
unfoldable pub diff : List String → List String → List String
unfolding filter contains
diff a b = filter (λ x. not (contains b x)) a

-- `a <= b`
unfoldable pub subset : List String → List String → Bool
unfolding contains
subset [] b = true
subset (x ∷ a) b = contains b x && subset a b

-- `not s`
unfoldable pub is_empty : List String → Bool
is_empty [] = true
is_empty (x ∷ s) = false

pub contains-nil : (x : String) → contains [] x ≡ false
unfolding contains
contains-nil x = refl

pub contains-cons :
    (y : String) (s : List String) (x : String) → contains (y ∷ s) x ≡ (y == x || contains s x)
unfolding contains
contains-cons y s x = refl

pub contains-add :
    (y : String) (s : List String) (x : String) → contains (add y s) x ≡ (y == x || contains s x)
unfolding add contains
contains-add y s x = ground (arith, eq_iff y x)

pub contains-from_list : (xs : List String) (x : String) → contains (from_list xs) x ≡ contains xs x
unfolding from_list contains
contains-from_list [] x = refl
contains-from_list (y ∷ xs) x =
    ground (arith, contains-from_list xs x, contains-from_list xs y, eq_iff y x)

pub contains-union :
    (a b : List String) (x : String) → contains (union a b) x ≡ (contains a x || contains b x)
unfolding union contains
contains-union [] b x = refl
contains-union (y ∷ a) b x = ground (arith, contains-union a b x, contains-union a b y, eq_iff y x)

pub contains-filter :
    (p : String → Bool) (a : List String) (x : String)
    → contains (filter p a) x ≡ (contains a x && p x)
unfolding filter contains
contains-filter p [] x = refl
contains-filter p (y ∷ a) x = ground (arith, contains-filter p a x, eq_iff y x)

pub contains-inter :
    (a b : List String) (x : String) → contains (inter a b) x ≡ (contains a x && contains b x)
unfolding inter
contains-inter a b x = contains-filter (contains b) a x

pub contains-diff :
    (a b : List String) (x : String) → contains (diff a b) x ≡ (contains a x && not (contains b x))
unfolding diff
contains-diff a b x = contains-filter (λ y. not (contains b y)) a x

-- `a <= b` carries membership.
pub subset-contains :
    (a b : List String) (x : String) → subset a b ≡ true → contains a x ≡ true → contains b x ≡ true
unfolding subset contains
subset-contains [] b x h e = ground arith
subset-contains (y ∷ a) b x h e = ground (arith, subset-contains a b x, eq_iff y x)

-- `a <= b` is all that membership says.
pub subset_of_contains :
    (a b : List String)
    → ((x : String) → contains a x ≡ true → contains b x ≡ true)
    → subset a b ≡ true
unfolding subset contains
subset_of_contains [] b h = refl
subset_of_contains (y ∷ a) b h =
    ground (arith, h y, subset_of_contains a b (λ x e. h x (ground arith)), eq_refl y)

pub is_empty-contains : (s : List String) (x : String) → is_empty s ≡ true → contains s x ≡ false
unfolding is_empty contains
is_empty-contains [] x h = refl
is_empty-contains (y ∷ s) x h = ground arith

-- What holds of every listed text holds of a member.
pub All-contains {ℓ} :
    (P : String → Type ℓ) (xs : List String) (x : String) → All P xs → contains xs x ≡ true → P x
unfolding contains
All-contains P [] x h e = absurd (ground arith)
All-contains P (y ∷ xs) x (h, hs) e = elim (Bool-cases (y == x)) [
  | inl same ↦ subst P ((eq_iff y x).0 same) h
  | inr other ↦ All-contains P xs x hs (ground arith)
]
