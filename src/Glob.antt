-- ===== src/Glob.antt =====
-- `fnmatch.fnmatchcase` of Python's standard library, which every glob scope, glob target and grain
-- pattern of overstate_ui/authz.py goes through: `*`, `?`, `[seq]` and `[!seq]` over whole texts.
pub mod Matching
use Prim.Native.Char.{code}
use Prim.Native.String
use overstate.Prelude.{
  ℕ, zero, suc, String, Bool, true, false, not, ◌&&◌, ◌||◌, Option, none, some, List, [], ◌∷◌, leb,
  ◌=?◌, if◌then◌else◌, any, ◌≡◌, refl,
}

-- The code points of a text.
abbrev pub codes : String → List ℕ
codes String.[] = []
codes (String.◌∷◌ c s) = code c ∷ codes s

pub data Item : Type 0 where
  one : ℕ → Item
  range : ℕ → ℕ → Item

pub data Token : Type 0 where
  star : Token
  any_char : Token
  lit : ℕ → Token
  set : Bool → List Item → Token

-- The index of the first `]`.
unfoldable pub close_at : List ℕ → Option ℕ
close_at [] = none
close_at (c ∷ s) =
    let later = close_at s in
    if c =? b']' then some 0 else elim later [ none ↦ none | some n ↦ some (suc n) ]

abbrev shifted : Option ℕ → Option ℕ
shifted none = none
shifted (some n) = some (suc n)

-- A `]` that stands first belongs to the set.
unfoldable pub close_after_first : List ℕ → Option ℕ
unfolding close_at
close_after_first [] = none
close_after_first (c ∷ s) = if c =? b']' then shifted (close_at s) else close_at (c ∷ s)

-- The length of the body of a set, none if it is not closed.
unfoldable pub body_length : List ℕ → Option ℕ
unfolding close_after_first
body_length [] = none
body_length (c ∷ s) = if c =? b'!' then shifted (close_after_first s) else close_after_first (c ∷ s)

unfoldable pub take : ℕ → List ℕ → List ℕ
take zero s = []
take (suc n) [] = []
take (suc n) (c ∷ s) = c ∷ take n s

unfoldable pub items : List ℕ → List Item
items [] = []
items (a ∷ []) = one a ∷ []
items (a ∷ d ∷ []) = one a ∷ one d ∷ []
items (a ∷ d ∷ b ∷ s) =
    let ranged = items s in
    let single = items (d ∷ b ∷ s) in if d =? b'-' then range a b ∷ ranged else one a ∷ single

unfoldable pub set_of : List ℕ → Token
unfolding items
set_of [] = set false []
set_of (c ∷ s) = if c =? b'!' then set true (items s) else set false (items (c ∷ s))

-- The first argument counts the characters of a set that was read, which are passed over.
unfoldable pub parse : ℕ → List ℕ → List Token
unfolding body_length take set_of
parse skip [] = []
parse (suc skip) (c ∷ s) = parse skip s
parse zero (c ∷ s) =
    let rest = parse zero s in
    let closed = λ (n : ℕ). set_of (take n s) ∷ parse (suc n) s in
    if c =? b'*'
    then star ∷ rest
    else if c =? b'?'
    then any_char ∷ rest
    else if c =? b'['
    then elim (body_length s) [ none ↦ lit c ∷ rest | some n ↦ closed n ]
    else lit c ∷ rest

unfoldable pub in_item : ℕ → Item → Bool
in_item c (one a) = c =? a
in_item c (range a b) = leb a c && leb c b

unfoldable pub in_set : ℕ → Bool → List Item → Bool
unfolding in_item any
in_set c true its = not (any (in_item c) its)
in_set c false its = any (in_item c) its

unfoldable pub matches : List Token → List ℕ → Bool
unfolding in_set
matches [] [] = true
matches [] (c ∷ s) = false
matches (star ∷ ts) [] = matches ts []
matches (star ∷ ts) (c ∷ s) =
    let here = matches ts (c ∷ s) in let later = matches (star ∷ ts) s in here || later
matches (any_char ∷ ts) [] = false
matches (any_char ∷ ts) (c ∷ s) = matches ts s
matches (lit a ∷ ts) [] = false
matches (lit a ∷ ts) (c ∷ s) = c =? a && matches ts s
matches (set neg its ∷ ts) [] = false
matches (set neg its ∷ ts) (c ∷ s) = in_set c neg its && matches ts s

-- `fnmatch.fnmatchcase(name, pattern)`
unfoldable pub fnmatchcase : String → String → Bool
unfolding parse matches
fnmatchcase name pattern = matches (parse 0 (codes pattern)) (codes name)

tests :
    (fnmatchcase "web-01" "web-*" ≡ true)
    × (fnmatchcase "web-01" "web-0[1-3]" ≡ true)
    × (fnmatchcase "web-04" "web-0[!1-3]" ≡ true)
    × (fnmatchcase "a]" "a[]]" ≡ true)
    × (fnmatchcase "a[" "a[" ≡ true)
    × (fnmatchcase "db" "*b?" ≡ false)
unfolding fnmatchcase
tests = (refl, refl, refl, refl, refl, refl)
