-- ===== src/Authz/Grains.antt =====
-- overstate_ui/authz.py: `match_grain`, over the snapshot grains of overstate_ui/inventory.py.
pub mod Snapshot
use overstate.Prelude.{
  String, Bool, true, false, not, Option, none, some, List, [], ◌∷◌, ◌++◌, ◌==◌, any, if◌then◌else◌,
}
use overstate.Text.{partition}
use overstate.Json.{Json, null, bool, num, str, arr, obj, Items, nil, cons, Fields, get}
use overstate.Glob.{fnmatchcase}
use overstate.Glob.Matching.{has_glob}
use overstate.Sets.{contains}

abbrev pub snapshot_grain_keys : List String
snapshot_grain_keys =
    "os" ∷ "osfinger" ∷ "osrelease" ∷ "fqdn" ∷ "ipv4" ∷ "cpuarch" ∷ "num_cpus" ∷ "mem_total"
    ∷ "virtual" ∷ "saltversion" ∷ "proxytype" ∷ "proxyid" ∷ []

-- The texts of a grain value: nested lists are flattened, null and objects give none.
unfoldable mutual
  pub candidates : Json → List String
  candidates null = []
  candidates (bool true) = "true" ∷ []
  candidates (bool false) = "false" ∷ []
  candidates (num text) = text ∷ []
  candidates (str s) = s ∷ []
  candidates (arr vs) = item_candidates vs
  candidates (obj fs) = []

  pub item_candidates : Items → List String
  item_candidates nil = []
  item_candidates (cons v vs) = candidates v ++ item_candidates vs

-- One candidate against the pattern.
unfoldable pub fits : String → String → Bool
fits pattern candidate =
    if has_glob pattern then fnmatchcase candidate pattern else candidate == pattern

abbrev match_fields : Fields → Option (String × String) → Bool
match_fields grains none = false
match_fields grains (some (key, pattern)) =
    if not (contains snapshot_grain_keys key)
    then false
    else any (fits pattern) (candidates (get key grains))

unfoldable pub match_grain : Json → String → Bool
match_grain (obj grains) expr = match_fields grains (partition b':' expr)
match_grain _ expr = false
