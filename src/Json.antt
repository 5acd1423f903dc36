-- ===== src/Json.antt =====
-- Decoded JSON documents, as the JSON columns of the tables and `json.loads` give them. A number
-- carries its text, which is all that the modelled code reads of it (`str(value)`).
use overstate.Prelude.{String, Bool, true, false, not, ◌||◌, List, [], ◌∷◌, ◌==◌, if◌then◌else◌}

mutual
  pub data Json : Type 0 where
    null : Json
    bool : Bool → Json
    num : String → Json
    str : String → Json
    arr : Items → Json
    obj : Fields → Json

  pub data Items : Type 0 where
    nil : Items
    cons : Json → Items → Items

  pub data Fields : Type 0 where
    end : Fields
    field : String → Json → Fields → Fields

unfoldable pub elements : Items → List Json
elements nil = []
elements (cons v vs) = v ∷ elements vs

-- `d.get(key)`; the keys of a decoded object are distinct.
unfoldable pub get : String → Fields → Json
get key end = null
get key (field k v fs) = if k == key then v else get key fs

-- The truth value that `x or {}` tests.
unfoldable pub truthy : Json → Bool
truthy null = false
truthy (bool b) = b
truthy (num text) = not (text == "0" || text == "0.0" || text == "-0.0")
truthy (str s) = not (s == "")
truthy (arr nil) = false
truthy (arr (cons v vs)) = true
truthy (obj end) = false
truthy (obj (field k v fs)) = true

-- `value if isinstance(value, list) else []`
unfoldable pub list_or_nil : Json → List Json
unfolding elements
list_or_nil (arr vs) = elements vs
list_or_nil _ = []

-- `str(value)`: the text of a list or dict, its Python `repr`, is an argument.
unfoldable pub to_str : (Json → String) → Json → String
to_str show null = "None"
to_str show (bool true) = "True"
to_str show (bool false) = "False"
to_str show (num text) = text
to_str show (str s) = s
to_str show (arr vs) = show (arr vs)
to_str show (obj fs) = show (obj fs)
