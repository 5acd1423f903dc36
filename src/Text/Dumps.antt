-- ===== src/Text/Dumps.antt =====
-- `json.dumps` of a list of strings, as overstate_ui/users.py stores a list scope.
use overstate.Prelude.{List, String, if◌then◌else◌, leb, ltb, map, ℕ, ◌&&◌, ◌+◌, ◌-◌, ◌<>◌, ◌=?◌}
use Prim.Native.Char.{code, Char}
use Prim.Native.Nat.{◌/◌, ◌%◌}
use overstate.Text.Paths.{join_with}
use overstate.Text.Words.{text_at, hex_digits}

abbrev hex_digit : ℕ → String
hex_digit n = text_at hex_digits n

-- `\uXXXX`
abbrev unit_escape : ℕ → String
unit_escape n =
    "\\u"
    <> (hex_digit (n / 4096 % 16)
        <> (hex_digit (n / 256 % 16) <> (hex_digit (n / 16 % 16) <> hex_digit (n % 16))))

-- A character beyond the first plane is written as a surrogate pair.
abbrev wide_escape : ℕ → String
wide_escape n =
    if ltb n 65536
    then unit_escape n
    else unit_escape (55296 + (n - 65536) / 1024) <> unit_escape (56320 + (n - 65536) % 1024)

-- The escape of one character, where it needs one.
unfoldable pub escape : Char → String
escape c =
    let n = code c in
    if n =? 34
    then "\\\""
    else if n =? 92
    then "\\\\"
    else if n =? 10
    then "\\n"
    else if n =? 13
    then "\\r"
    else if n =? 9
    then "\\t"
    else if n =? 8
    then "\\b"
    else if n =? 12
    then "\\f"
    else if leb 32 n && leb n 126
    then String.◌∷◌ c ""
    else wide_escape n

unfoldable pub escape_all : String → String
escape_all String.[] = ""
escape_all (String.◌∷◌ c s) = escape c <> escape_all s

abbrev quoted : String → String
quoted s = "\"" <> (escape_all s <> "\"")

-- `json.dumps(xs)`
unfoldable pub dumps : List String → String
dumps xs = "[" <> (join_with ", " (map quoted xs) <> "]")
