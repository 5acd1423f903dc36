-- ===== src/Users/Scope.antt =====
-- overstate_ui/users.py: `_validate_grant_scope`, which checks a grant dialog and normalizes its scope.
pub mod Accepted
use overstate.Prelude.{
  Bool, List, String, [], false, if◌then◌else◌, none, not, some, starts_with, true, ◌<>◌, ◌==◌,
  ◌||◌, ◌∷◌,
}
use overstate.Authz.Catalog.{role_perms, is_fleet_only}
use overstate.Sets.{contains, is_empty}
use overstate.Store.{World, group_by_id}
use overstate.Users.{Form, get_or_empty}
use overstate.Text.{parse_id, strip, split}
use overstate.Text.Paths.{strip_char, normpath}
use overstate.Text.Words.{split_words, replace_char, is_digit}
use overstate.Text.Dumps.{dumps}
use overstate.Authz.Grains.{snapshot_grain_keys}

pub data Checked : Type 0 where
  refused : String → Checked
  accepted : String → Checked

-- The tokens, each once, in their order.
unfoldable pub dedup : List String → List String → List String
dedup seen [] = []
dedup seen (t ∷ ts) =
    let later = dedup seen ts in
    let kept = dedup (t ∷ seen) ts in if contains seen t then later else t ∷ kept

-- `_parse_member_ids`; the words of a text are stripped and not empty
unfoldable pub parse_member_ids : Form → List String
parse_member_ids form =
    dedup [] (split_words (replace_char b',' " " (get_or_empty form "scope_value")))

unfoldable pub is_file_role : String → Bool
is_file_role role = role == "file-reader" || role == "file-editor"

unfoldable pub check_prefix : String → Form → Checked
check_prefix role form =
    let prefix = strip_char b'/' (strip (get_or_empty form "scope_value")) in
    if not (is_file_role role)
    then refused ("Role '" <> (role <> "' has no file permissions to scope to a path."))
    else if prefix == "" || starts_with prefix "/" || contains (split b'/' prefix) ".."
    then refused "Prefix must be a relative path without '..'."
    else accepted (normpath prefix)

abbrev or_else_text : String → String → String
or_else_text a b = if a == "" then b else a

abbrev known_group : World → String → Bool
known_group w raw = elim (parse_id raw) [
  | none ↦ false
  | some gid ↦ elim (group_by_id w.minion_groups gid) [ none ↦ false | some g ↦ true ]
]

unfoldable pub check_group : World → Form → Checked
check_group w form =
    let raw =
      or_else_text (strip (get_or_empty form "scope_value_group"))
        (strip (get_or_empty form "scope_value")) in
    if not (is_digit raw)
    then refused "Pick a minion group."
    else if not (known_group w raw)
    then refused "Unknown minion group."
    else accepted raw

unfoldable pub check_list : Form → Checked
check_list form =
    let members = parse_member_ids form in
    if is_empty members
    then refused "A list scope needs at least one minion id."
    else accepted (dumps members)

unfoldable pub check_glob : Form → Checked
check_glob form =
    let pattern = strip (get_or_empty form "scope_value") in
    if pattern == "" then refused "A glob scope needs a pattern." else accepted pattern

unfoldable pub check_grain : Form → Checked
check_grain form =
    let key = strip (get_or_empty form "grain_key") in
    let value = strip (get_or_empty form "grain_value") in
    if not (contains snapshot_grain_keys key)
    then refused "Pick a snapshot grain key."
    else if value == ""
    then refused "A grain scope needs a value."
    else accepted (key <> (":" <> value))

-- The minion matchers.
unfoldable pub check_matcher : World → String → Form → Checked
check_matcher w scope_kind form =
    if scope_kind == "group"
    then check_group w form
    else if scope_kind == "list"
    then check_list form
    else if scope_kind == "glob"
    then check_glob form
    else if scope_kind == "grain"
    then check_grain form
    else refused "Unknown scope kind."

-- `role in ROLE_PERMS`
unfoldable pub is_role : String → Bool
is_role role = elim (role_perms role) [ none ↦ false | some perms ↦ true ]

unfoldable pub validate_grant_scope : World → String → String → Form → Checked
validate_grant_scope w role scope_kind form =
    if not (is_role role)
    then refused "Unknown role."
    else if scope_kind == "fleet"
    then accepted "*"
    else if is_fleet_only role
    then refused ("Role '" <> (role <> "' can only be granted on the whole fleet."))
    else if scope_kind == "prefix"
    then check_prefix role form
    else if is_file_role role
    then refused ("Role '" <> (role <> "' can only be granted on a file prefix or the fleet."))
    else check_matcher w scope_kind form
