-- ===== src/Jobs/Args.antt =====
-- overstate_ui/jobs_service.py: the arguments of a function that a job publishes, and the reply of a
-- call that waits for it. An argument is a text or a document; the keys of a document are distinct.
use overstate.Prelude.{
  Bool, List, Option, String, [], if◌then◌else◌, none, not, some, ◌==◌, ◌∷◌, ◌||◌, true, false,
}
use overstate.Json.{Json, Fields, obj, arr, str, bool, end, field, get, truthy, elements, to_str}
use overstate.Text.{partition, split}

abbrev pub is_pillar_option : String → Bool
is_pillar_option key = key == "include_pillar" || key == "include_opts"

-- `{k: v for k, v in item.items() if k not in (...)}`
unfoldable pub without_options : Fields → Fields
without_options end = end
without_options (field k v fs) =
    let rest = without_options fs in if is_pillar_option k then rest else field k v rest

abbrev first_part : List String → String
first_part [] = ""
first_part (p ∷ ps) = p

abbrev pub names_option : Json → Bool
names_option (str s) = is_pillar_option (first_part (split b'=' s))
names_option _ = false

abbrev pub cleaned : Json → Json
cleaned (obj fs) = obj (without_options fs)
cleaned v = v

unfoldable pub clean_args : List Json → List Json
unfolding without_options split
clean_args [] = []
clean_args (v ∷ vs) = let rest = clean_args vs in if names_option v then rest else cleaned v ∷ rest

-- `d[key] = value`
unfoldable pub set_field : String → Json → Fields → Fields
set_field key v end = field key v end
set_field key v (field k u fs) = if k == key then field k v fs else field k u (set_field key v fs)

abbrev or_no_fields : Option Fields → Fields
or_no_fields none = end
or_no_fields (some fs) = fs

abbrev pub forced : Option Fields → Fields
forced kwarg =
    set_field "include_opts" (bool false)
      (set_field "include_pillar" (bool false) (or_no_fields kwarg))

-- `_force_beacon_kwargs`
unfoldable pub force_beacon_kwargs : String → List Json → Option Fields → List Json × Option Fields
unfolding clean_args set_field
force_beacon_kwargs fun args kwarg =
    if not (fun == "beacons.list") then (args, kwarg) else (clean_args args, some (forced kwarg))

abbrev text_of : Json → Option String
text_of (str s) = some s
text_of _ = none

abbrev value_of_function : Option (String × String) → Option String
value_of_function none = none
value_of_function (some (name, value)) = if name == "function" then some value else none

abbrev function_in : Json → Option String
function_in (obj fs) = text_of (get "function" fs)
function_in (str s) = value_of_function (partition b'=' s)
function_in _ = none

abbrev or_else : Option String → Option String → Option String
or_else none later = later
or_else (some s) later = some s

unfoldable pub first_function : List Json → Option String
unfolding partition get
first_function [] = none
first_function (v ∷ vs) = or_else (function_in v) (first_function vs)

abbrev kwarg_function : Option Fields → Option String
kwarg_function none = none
kwarg_function (some fs) = text_of (get "function" fs)

-- `_schedule_inner_fun`
unfoldable pub schedule_inner_fun : List Json → Option Fields → Option String
unfolding first_function get
schedule_inner_fun args kwarg = or_else (kwarg_function kwarg) (first_function args)

-- `mapping.update(value)`
unfoldable pub update : Fields → Fields → Fields
unfolding set_field
update fs end = fs
update fs (field k v new) = update (set_field k v fs) new

abbrev jid_or : (Json → String) → Option String → Json → Option String
jid_or show (some jid) v = some jid
jid_or show none v = if truthy v then some (to_str show v) else none

abbrev add_return : String → Json → Fields → Fields
add_return key (obj returns) mapping =
    if key == "return" then update mapping returns else set_field key (obj returns) mapping
add_return key v mapping = set_field key v mapping

-- The entries of a dict in the reply: the job id that it names first, and the returns by minion.
unfoldable pub split_entries :
    (Json → String) → Fields → Option String × Fields → Option String × Fields
unfolding update set_field truthy to_str
split_entries show end (jid, mapping) = (jid, mapping)
split_entries show (field key v fs) (jid, mapping) =
    split_entries show fs
      (if key == "jid" then (jid_or show jid v, mapping) else (jid, add_return key v mapping))

abbrev split_item : (Json → String) → Json → Option String × Fields → Option String × Fields
split_item show (obj fs) acc = split_entries show fs acc
split_item show _ acc = acc

unfoldable pub split_items :
    (Json → String) → List Json → Option String × Fields → Option String × Fields
unfolding split_entries
split_items show [] acc = acc
split_items show (v ∷ vs) acc = split_items show vs (split_item show v acc)

abbrev items_of : Json → List Json
items_of (arr vs) = elements vs
items_of v = v ∷ []

-- `_split_sync_result`
unfoldable pub split_sync_result : (Json → String) → Json → Option String × Fields
unfolding split_items elements
split_sync_result show result = split_items show (items_of result) (none, end)

unfoldable pub has_key : String → Fields → Bool
has_key key end = false
has_key key (field k v fs) = k == key || has_key key fs

-- `_payload_success`
unfoldable pub payload_success : Json → Bool
unfolding has_key truthy get
payload_success (obj fs) = if has_key "success" fs then truthy (get "success" fs) else true
payload_success v = truthy v
