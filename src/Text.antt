-- ===== src/Text.antt =====
-- The string methods that the code under overstate_ui calls: `strip`, `split(",")`, `partition(":")`,
-- `",".join`, `int(...)` and the test of a `/`-separated prefix.
pub mod Lists
pub mod Words
pub mod Paths
pub mod Dumps
use Prim.Native.Char.{code}
use overstate.Prelude.{
  ℕ, ◌+◌, ◌*◌, ◌-◌, String, ◌<>◌, Bool, true, false, not, ◌&&◌, ◌||◌, Option, none, some, List, [],
  ◌∷◌, leb, ◌=?◌, ◌==◌, starts_with, if◌then◌else◌,
}

-- The characters that `str.strip` removes.
unfoldable pub is_space : ℕ → Bool
is_space c =
    (leb 9 c && leb c 13)
    || (leb 28 c && leb c 32)
    || c =? 133
    || c =? 160
    || c =? 5760
    || (leb 8192 c && leb c 8202)
    || c =? 8232
    || c =? 8233
    || c =? 8239
    || c =? 8287
    || c =? 12288

unfoldable pub lstrip : String → String
unfolding is_space
lstrip String.[] = ""
lstrip (String.◌∷◌ c s) = let rest = lstrip s in if is_space (code c) then rest else String.◌∷◌ c s

abbrev pub cons_unless : Bool → String → String → String
cons_unless true s String.[] = ""
cons_unless true s (String.◌∷◌ d r) = s <> String.◌∷◌ d r
cons_unless false s r = s <> r

unfoldable pub rstrip : String → String
unfolding is_space
rstrip String.[] = ""
rstrip (String.◌∷◌ c s) = cons_unless (is_space (code c)) (String.◌∷◌ c "") (rstrip s)

-- `s.strip()`
unfoldable pub strip : String → String
unfolding lstrip rstrip
strip s = lstrip (rstrip s)

abbrev pub push_head : String → List String → List String
push_head c [] = c ∷ []
push_head c (part ∷ parts) = (c <> part) ∷ parts

-- `s.split(c)` for a separator of one character
unfoldable pub split : ℕ → String → List String
split sep String.[] = "" ∷ []
split sep (String.◌∷◌ c s) =
    let parts = split sep s in
    if code c =? sep then "" ∷ parts else push_head (String.◌∷◌ c "") parts

-- `s.partition(c)`: none where `c not in s`
unfoldable pub partition : ℕ → String → Option (String × String)
partition sep String.[] = none
partition sep (String.◌∷◌ c s) =
    let rest = partition sep s in
    if code c =? sep
    then some ("", s)
    else elim rest [ none ↦ none | some (a, b) ↦ some (String.◌∷◌ c a, b) ]

-- `",".join(xs)`
unfoldable pub join : List String → String
join [] = ""
join (x ∷ []) = x
join (x ∷ y ∷ xs) = x <> ("," <> join (y ∷ xs))

-- The digits that `int(...)` has read, and whether an underscore or nothing came last.
unfoldable pub read_digits : String → ℕ → Bool → Option ℕ
read_digits String.[] n pending = if pending then none else some n
read_digits (String.◌∷◌ c s) n pending =
    let digit = read_digits s (n * 10 + (code c - 48)) false in
    let under = read_digits s n true in
    if leb 48 (code c) && leb (code c) 57
    then digit
    else if code c =? 95 && not pending
    then under
    else none

abbrev unsigned : String → Option ℕ
unfolding read_digits
unsigned String.[] = none
unsigned (String.◌∷◌ c s) =
    if code c =? 43 then read_digits s 0 true else read_digits (String.◌∷◌ c s) 0 true

-- `int(s)` for the row ids that the code looks up: a negative number names no row, as an error does.
unfoldable pub parse_id : String → Option ℕ
unfolding strip read_digits unsigned
parse_id s = unsigned (strip s)

-- `path == prefix or path.startswith(prefix + "/")`
unfoldable pub under_prefix : String → String → Bool
under_prefix path prefix = path == prefix || starts_with path (prefix <> "/")
