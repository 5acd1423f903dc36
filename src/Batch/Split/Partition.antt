-- ===== src/Batch/Split/Partition.antt =====
-- overstate_ui/tasks_batch.py: the waves of `split_roster` beside the roster.
use overstate.Prelude.{
  All, List, String, [], ap, arith, if-both, refl, subst, suc, sym, zero, ℕ, ◌++◌, ◌==◌, ◌∙◌, ◌∷◌,
  ◌≡◌, ◌≤◌,
}
use overstate.Batch.Split.{take, length, slices, split_roster, wave_size, at_least_one, drop}

module _ {ℓ} {A : Type ℓ} where
  -- `sum(waves, [])`
  unfoldable pub concat : List (List A) → List A
  concat [] = []
  concat (xs ∷ xss) = xs ++ concat xss

  take-drop : (n : ℕ) (xs : List A) → take n xs ++ drop n xs ≡ xs
  unfolding take drop
  take-drop zero xs = refl
  take-drop (suc n) [] = refl
  take-drop (suc n) (x ∷ xs) = ap (λ ys. x ∷ ys) (take-drop n xs)

  length-drop : (n : ℕ) (xs : List A) → length (drop n xs) ≤ length xs
  unfolding length drop
  length-drop zero xs = omega arith
  length-drop (suc n) [] = omega arith
  length-drop (suc n) (x ∷ xs) = let shorter = length-drop n xs in omega arith

  length-take : (n : ℕ) (xs : List A) → length (take n xs) ≤ n
  unfolding length take
  length-take zero xs = omega arith
  length-take (suc n) [] = omega arith
  length-take (suc n) (x ∷ xs) = let shorter = length-take n xs in omega arith

  -- A wave of the right size.
  abbrev pub IsWave : ℕ → List A → Type 0
  IsWave size wave = (1 ≤ length wave) × (length wave ≤ size)

  nonempty : (n : ℕ) (x : A) (xs : List A) → 1 ≤ length (take (suc n) (x ∷ xs))
  unfolding take length
  nonempty n x xs = omega arith

  slices-concat :
      (fuel size : ℕ) (xs : List A) → length xs ≤ fuel → concat (slices fuel (suc size) xs) ≡ xs
  unfolding concat slices length
  slices-concat fuel size [] h = refl
  slices-concat zero size (x ∷ xs) h = absurd (omega arith)
  slices-concat (suc fuel) size (x ∷ xs) h =
      let shorter = length-drop size xs in
      let rest = slices-concat fuel size (drop (suc size) (x ∷ xs)) (unfold drop in omega arith) in
      ap (λ ys. take (suc size) (x ∷ xs) ++ ys) rest ∙ take-drop (suc size) (x ∷ xs)

  slices-IsWave :
      (fuel size : ℕ) (xs : List A) → All (IsWave (suc size)) (slices fuel (suc size) xs)
  unfolding slices
  slices-IsWave fuel size [] = tt
  slices-IsWave zero size (x ∷ xs) = tt
  slices-IsWave (suc fuel) size (x ∷ xs) = (
    (nonempty size x xs, length-take (suc size) (x ∷ xs)),
    slices-IsWave fuel size (drop (suc size) (x ∷ xs)),
  )

wave_size-suc :
    (count : ℕ) (mode : String) (size : ℕ) → (n : ℕ) × (wave_size count mode size ≡ suc n)
unfolding wave_size
wave_size-suc count mode size =
    if-both (λ k. (n : ℕ) × (k ≡ suc n)) (mode == "percent") _ _ (λ _. positive _) (λ _. positive _)
  where
    positive : (k : ℕ) → (n : ℕ) × (at_least_one k ≡ suc n)
    positive zero = (0, refl)
    positive (suc k) = (k, refl)

-- The waves in their order make up the roster, nobody is left out or repeated, and no wave is empty
-- or larger than the size that the mode gives.
pub split_roster-partition :
    (roster : List String) (mode : String) (size : ℕ)
    → (concat (split_roster roster mode size) ≡ roster)
      × All (IsWave (wave_size (length roster) mode size)) (split_roster roster mode size)
unfolding split_roster
split_roster-partition roster mode size =
    let (n, e) = wave_size-suc (length roster) mode size in
    subst
      (λ k.
        (concat (slices (length roster) k roster) ≡ roster)
        × All (IsWave k) (slices (length roster) k roster))
      (sym e)
      (slices-concat (length roster) n roster (omega arith), slices-IsWave (length roster) n roster)
