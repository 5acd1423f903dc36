-- ===== src/Sets/Sorting.antt =====
-- `sorted` on texts, by code points, as the code publishes id lists.
use Prim.Native.String.{compare}
use text.Mathlib.Text.{is_lt}
use overstate.Prelude.{
  ◌≡◌, refl, String, Bool, ◌||◌, List, [], ◌∷◌, ◌==◌, arith, if◌then◌else◌, false,
}
use overstate.Sets.{contains, is_empty}

abbrev pub str_ltb : String → String → Bool
str_ltb s t = is_lt (compare s t)

unfoldable pub insert_sorted : String → List String → List String
insert_sorted x [] = x ∷ []
insert_sorted x (y ∷ s) =
    let rest = insert_sorted x s in if str_ltb y x then y ∷ rest else x ∷ y ∷ s

unfoldable pub sorted : List String → List String
unfolding insert_sorted
sorted [] = []
sorted (x ∷ s) = insert_sorted x (sorted s)

contains-insert_sorted :
    (x : String) (s : List String) (z : String)
    → contains (insert_sorted x s) z ≡ (x == z || contains s z)
unfolding insert_sorted contains
contains-insert_sorted x [] z = refl
contains-insert_sorted x (y ∷ s) z = ground (arith, contains-insert_sorted x s z)

-- Sorting keeps the members.
pub contains-sorted : (s : List String) (z : String) → contains (sorted s) z ≡ contains s z
unfolding sorted contains
contains-sorted [] z = refl
contains-sorted (x ∷ s) z =
    ground (arith, contains-insert_sorted x (sorted s) z, contains-sorted s z)

insert_sorted-empty : (x : String) (s : List String) → is_empty (insert_sorted x s) ≡ false
unfolding insert_sorted is_empty
insert_sorted-empty x [] = refl
insert_sorted-empty x (y ∷ s) = ground arith

pub sorted-empty : (xs : List String) → is_empty xs ≡ false → is_empty (sorted xs) ≡ false
unfolding sorted is_empty insert_sorted
sorted-empty [] h = h
sorted-empty (x ∷ xs) h = insert_sorted-empty x (sorted xs)
