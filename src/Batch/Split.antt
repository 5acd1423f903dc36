-- ===== src/Batch/Split.antt =====
-- overstate_ui/tasks_batch.py: `split_roster`.
pub mod Partition
use overstate.Prelude.{List, String, [], if◌then◌else◌, suc, zero, ℕ, ◌*◌, ◌+◌, ◌==◌, ◌∷◌}
use Prim.Native.Nat.{◌/◌}

module _ {ℓ} {A : Type ℓ} where
  -- `len(xs)`, `xs[:n]` and `xs[n:]`
  unfoldable pub length : List A → ℕ
  length [] = 0
  length (x ∷ xs) = suc (length xs)

  unfoldable pub take : ℕ → List A → List A
  take zero xs = []
  take (suc n) [] = []
  take (suc n) (x ∷ xs) = x ∷ take n xs

  unfoldable pub drop : ℕ → List A → List A
  drop zero xs = xs
  drop (suc n) [] = []
  drop (suc n) (x ∷ xs) = drop n xs

  -- `[xs[i : i + size] for i in range(0, len(xs), size)]`, on fuel; the length of the list is enough.
  unfoldable pub slices : ℕ → ℕ → List A → List (List A)
  slices fuel size [] = []
  slices zero size (x ∷ xs) = []
  slices (suc fuel) size (x ∷ xs) = take size (x ∷ xs) ∷ slices fuel size (drop size (x ∷ xs))

-- `max(1, n)`
abbrev pub at_least_one : ℕ → ℕ
at_least_one zero = 1
at_least_one (suc n) = suc n

-- The size of a wave: `-(-n // 100)` rounds up.
unfoldable pub wave_size : ℕ → String → ℕ → ℕ
wave_size count mode size =
    if mode == "percent"
    then at_least_one (at_least_one ((count * size + 99) / 100))
    else at_least_one size

unfoldable pub split_roster : List String → String → ℕ → List (List String)
split_roster roster mode size = slices (length roster) (wave_size (length roster) mode size) roster
