-- ===== src/Authz/Grains/Snapshot.antt =====
-- overstate_ui/authz.py: which grains `match_grain` reads.
use overstate.Prelude.{Bool-cases, Option, String, inl, inr, none, refl, some, true, ◌≡◌}
use overstate.Sets.{contains}
use overstate.Json.{Fields, obj, get}
use overstate.Text.{partition}
use overstate.Authz.Grains.{snapshot_grain_keys, match_grain, match_fields}

abbrev pub SameGrains : Fields → Fields → Type 0
SameGrains a b = (key : String) → contains snapshot_grain_keys key ≡ true → get key a ≡ get key b

match_fields_same :
    (a b : Fields) (cut : Option (String × String))
    → SameGrains a b
    → match_fields a cut ≡ match_fields b cut
match_fields_same a b none h = refl
match_fields_same a b (some (key, pattern)) h =
    elim (Bool-cases (contains snapshot_grain_keys key)) [
      | inl known ↦ rw (h key known)
      | inr other ↦ rw other
    ]

-- Two grain documents that agree on the snapshot keys match the same expressions: no other grain
-- can widen a scope or a target.
pub match_grain_same :
    (a b : Fields) (expr : String)
    → SameGrains a b
    → match_grain (obj a) expr ≡ match_grain (obj b) expr
unfolding match_grain
match_grain_same a b expr h = match_fields_same a b (partition b':' expr) h
