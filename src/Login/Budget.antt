-- ===== src/Login/Budget.antt =====
-- overstate_ui/auth.py: the budget of login attempts in process memory and in Redis. Times are whole
-- ticks of the monotonic clock, and a key is the address and the user name of an attempt.
pub mod Window
use overstate.Prelude.{
  Bool, List, Option, String, [], false, if◌then◌else◌, keep, leb, ltb, none, not, some, true, ℕ,
  ◌++◌, ◌-◌, ◌==◌, ◌∷◌,
}
use overstate.Batch.Split.{length}

-- `_attempts.get(key, [])`
unfoldable pub hits_of : List (String × List ℕ) → String → List ℕ
hits_of [] key = []
hits_of ((k, hits) ∷ rows) key = if k == key then hits else hits_of rows key

-- `_attempts[key] = hits`
unfoldable pub set_hits : String → List ℕ → List (String × List ℕ) → List (String × List ℕ)
set_hits key hits [] = (key, hits) ∷ []
set_hits key hits ((k, old) ∷ rows) =
    let rest = set_hits key hits rows in if k == key then (k, hits) ∷ rows else (k, old) ∷ rest

-- `[t for t in hits if now - t < window]`
unfoldable pub live : ℕ → ℕ → List ℕ → List ℕ
live window now hits = keep (λ t. ltb (now - t) window) hits

-- `_memory_limited`
unfoldable pub memory_limited :
    List (String × List ℕ) → String → ℕ → ℕ → ℕ → Bool × List (String × List ℕ)
memory_limited attempts key limit window now =
    let hits = live window now (hits_of attempts key) in
    if leb limit (length hits)
    then (true, set_hits key hits attempts)
    else (false, set_hits key (hits ++ now ∷ []) attempts)

-- `_rate_limited`, with the count that Redis answers, none where it does not answer
unfoldable pub rate_limited :
    Option ℕ → List (String × List ℕ) → String → ℕ → ℕ → ℕ → Bool × List (String × List ℕ)
rate_limited none attempts key limit window now = memory_limited attempts key limit window now
rate_limited (some count) attempts key limit window now = (ltb limit count, attempts)

-- `_rate_reset`, of the memory
unfoldable pub rate_reset : String → List (String × List ℕ) → List (String × List ℕ)
rate_reset key rows = keep (λ row. not (row.0 == key)) rows
