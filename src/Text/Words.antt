-- ===== src/Text/Words.antt =====
-- The word and number texts of overstate_ui/users.py: `s.replace(",", " ").split()`, `str.isdigit` and
-- `str(n)`. The digits of `isdigit` are the ASCII ones.
use overstate.Prelude.{
  Bool, List, String, [], false, if◌then◌else◌, leb, not, suc, true, zero, ℕ, ◌+◌, ◌&&◌, ◌<>◌, ◌==◌,
  ◌=?◌, ◌∷◌,
}
use Prim.Native.Char.{code}
use overstate.Text.{is_space, push_head}

-- `s.replace(a, b)` for single characters
unfoldable pub replace_char : ℕ → String → String → String
replace_char a b String.[] = ""
replace_char a b (String.◌∷◌ c s) =
    let rest = replace_char a b s in if code c =? a then b <> rest else String.◌∷◌ c rest

-- The words of a text, with whether the first one begins at its first character.
unfoldable pub open_words : String → List String × Bool
open_words String.[] = ([], false)
open_words (String.◌∷◌ c s) =
    let (words, open_word) = open_words s in
    if is_space (code c)
    then (words, false)
    else if open_word
    then (push_head (String.◌∷◌ c "") words, true)
    else (String.◌∷◌ c "" ∷ words, true)

-- `s.split()`
unfoldable pub split_words : String → List String
split_words s = (open_words s).0

unfoldable pub all_digits : String → Bool
all_digits String.[] = true
all_digits (String.◌∷◌ c s) = leb 48 (code c) && leb (code c) 57 && all_digits s

-- `s.isdigit()`
unfoldable pub is_digit : String → Bool
is_digit s = not (s == "") && all_digits s

-- The decimal digits, lowest first, of a number and of the next one.
unfoldable pub next_digits : List ℕ → List ℕ
next_digits [] = 1 ∷ []
next_digits (d ∷ ds) = let rest = next_digits ds in if d =? 9 then 0 ∷ rest else suc d ∷ ds

unfoldable pub digits_of : ℕ → List ℕ
digits_of zero = 0 ∷ []
digits_of (suc n) = next_digits (digits_of n)

-- The text at a place of a table.
unfoldable pub text_at : List String → ℕ → String
text_at [] n = ""
text_at (t ∷ ts) zero = t
text_at (t ∷ ts) (suc n) = text_at ts n

abbrev pub hex_digits : List String
hex_digits =
    "0" ∷ "1" ∷ "2" ∷ "3" ∷ "4" ∷ "5" ∷ "6" ∷ "7" ∷ "8" ∷ "9" ∷ "a" ∷ "b" ∷ "c" ∷ "d" ∷ "e" ∷ "f"
    ∷ []

unfoldable pub digits_text : List ℕ → String
digits_text [] = ""
digits_text (d ∷ ds) = digits_text ds <> text_at hex_digits d

-- `str(n)`
unfoldable pub show_int : ℕ → String
show_int n = digits_text (digits_of n)

abbrev lower_code : ℕ → ℕ
lower_code c = if leb 65 c && leb c 90 then c + 32 else c

-- `s.lower() == t`, for a text `t` of which no letter comes from a letter outside of ASCII
unfoldable pub lower_is : String → String → Bool
lower_is String.[] String.[] = true
lower_is String.[] (String.◌∷◌ d t) = false
lower_is (String.◌∷◌ c s) String.[] = false
lower_is (String.◌∷◌ c s) (String.◌∷◌ d t) = lower_code (code c) =? code d && lower_is s t

-- `s[:n]`
unfoldable pub first_chars : ℕ → String → String
first_chars zero s = ""
first_chars (suc n) String.[] = ""
first_chars (suc n) (String.◌∷◌ c s) = String.◌∷◌ c (first_chars n s)
