-- ===== src/Text/Paths.antt =====
-- Paths as overstate_ui/users.py normalizes a prefix: `strip("/")` and `posixpath.normpath` of a
-- relative path.
use overstate.Prelude.{List, String, [], if◌then◌else◌, not, ℕ, ◌<>◌, ◌==◌, ◌=?◌, ◌||◌, ◌∷◌}
use Prim.Native.Char.{code}
use mathlib.Core.List.{reverse}
use overstate.Text.{cons_unless, split}

unfoldable pub lstrip_char : ℕ → String → String
lstrip_char a String.[] = ""
lstrip_char a (String.◌∷◌ c s) =
    let rest = lstrip_char a s in if code c =? a then rest else String.◌∷◌ c s

unfoldable pub rstrip_char : ℕ → String → String
rstrip_char a String.[] = ""
rstrip_char a (String.◌∷◌ c s) = cons_unless (code c =? a) (String.◌∷◌ c "") (rstrip_char a s)

-- `s.strip(c)`
unfoldable pub strip_char : ℕ → String → String
strip_char a s = lstrip_char a (rstrip_char a s)

-- `sep.join(xs)`
unfoldable pub join_with : String → List String → String
join_with sep [] = ""
join_with sep (x ∷ []) = x
join_with sep (x ∷ y ∷ xs) = x <> (sep <> join_with sep (y ∷ xs))

abbrev pop_or_keep : List String → List String
pop_or_keep [] = ".." ∷ []
pop_or_keep (c ∷ cs) = if c == ".." then ".." ∷ c ∷ cs else cs

-- One component against the stack, whose top comes first.
unfoldable pub norm_step : String → List String → List String
norm_step comp stack =
    if comp == "" || comp == "."
    then stack
    else if not (comp == "..")
    then comp ∷ stack
    else pop_or_keep stack

unfoldable pub norm_components : List String → List String → List String
norm_components [] stack = stack
norm_components (c ∷ cs) stack = norm_components cs (norm_step c stack)

abbrev dot_if_empty : String → String
dot_if_empty p = if p == "" then "." else p

-- `normpath(p)`, for a path that does not begin with a slash
unfoldable pub normpath : String → String
normpath p = dot_if_empty (join_with "/" (reverse (norm_components (split b'/' p) [])))
