-- ===== src/FileSync/Steps.antt =====
-- overstate_ui/file_sync_schedule.py: the values of `range(start, end + 1, step)`.
use native.Mathlib.Nat.{suc-mul}
use overstate.Prelude.{
  Bool-cases, any, suc, true, false, zero, ℕ, ◌*◌, ◌+◌, ◌-◌, ◌<◌, ◌≤◌, ◌≡◌, ◌↔◌, ◌=?◌, ltb, sym,
  subst, arith, inl, inr,
}
use overstate.FileSync.{Span, has_value, range, range_from}

-- A value that a range with a step reaches.
abbrev pub Selects : ℕ → ℕ → ℕ → ℕ → Type 0
Selects start end step v = (k : ℕ) × (v ≡ start + k * step) × (v ≤ end)

range_from_sound :
    (fuel start end step v : ℕ)
    → has_value (range_from fuel start end step) v ≡ true
    → Selects start end step v
unfolding range_from has_value any
range_from_sound zero start end step v h = absurd (cc)
range_from_sound (suc fuel) start end step v h = elim (Bool-cases (ltb end start)) [
  | inl past ↦ absurd (ground (arith, rw past at h))
  | inr here ↦ elim (Bool-cases (start =? v)) [
    | inl same ↦ (0, ground arith, ground arith)
    | inr other ↦
        let (k, reached, fits) =
          range_from_sound fuel (start + step) end step v (rw (here, other) at h) in
        let split_off = suc-mul k step in (suc k, omega arith, fits)
  ]
]

range_from_complete :
    (fuel start end step k : ℕ)
    → 1 ≤ step
    → start + k * step ≤ end
    → end < start + fuel
    → has_value (range_from fuel start end step) (start + k * step) ≡ true
unfolding range_from has_value any
range_from_complete zero start end step k pos fits fuel_enough = absurd (omega arith)
range_from_complete (suc fuel) start end step zero pos fits fuel_enough = ground arith
range_from_complete (suc fuel) start end step (suc k) pos fits fuel_enough =
    let rest = range_from_complete fuel (start + step) end step k pos (omega arith) (omega arith) in
    let split_off = suc-mul k step in
    let open_range : ltb end start ≡ false = ground arith in
    let same : start + suc k * step ≡ start + step + k * step = omega arith in
    subst (λ v. has_value (range_from (suc fuel) start end step) v ≡ true) (sym same)
      (rw open_range (ground (arith, rest)))

pub range-Selects :
    (s : Span) (step : ℕ)
    → 1 ≤ step
    → (v : ℕ) → (has_value (range s step) v ≡ true) ↔ Selects s.start s.end step v
unfolding range
range-Selects s step pos v = (
  range_from_sound (suc s.end - s.start) s.start s.end step v,
  λ (k, reached, fits).
      subst (λ x. has_value (range_from (suc s.end - s.start) s.start s.end step) x ≡ true)
        (sym reached)
        (range_from_complete (suc s.end - s.start) s.start s.end step k pos (omega arith)
          (omega arith)),
)
