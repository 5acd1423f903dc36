-- ===== src/FileSync/Values.antt =====
-- overstate_ui/file_sync_schedule.py: which values a field of a cron expression has.
pub mod Bounded
use native.Mathlib.Nat.{suc-mul}
use text.Mathlib.TextLemmas.{nil-append, cons-append}
use Prim.Native.Char.{Char, code}
use overstate.Prelude.{
  ◌<>◌, ◌∙◌, ap, eq_iff, if◌then◌else◌, Bool-cases, List, Option, String, [], any, any-append, none,
  not, some, suc, true, false, zero, ℕ, ◌*◌, ◌+◌, ◌-◌, ◌++◌, ◌<◌, ◌≤◌, ◌∷◌, ◌≡◌, ◌↔◌, ◌==◌, ◌=?◌,
  ◌||◌, ltb, sym, subst, arith, if-both, inl, inr, ◌⊎◌, Bool, keep, refl,
}
use overstate.Text.{partition, split}
use overstate.Text.Words.{is_digit, split_words}
use overstate.FileSync.{
  numbered, number_of, split_step, Bounds, Parsed, Span, collect, has_value, is_stepped,
  item_values, parsed, range, range_from, span_of, step_of, stepped_values, then_parse, value_error,
  within, Cron, checked, field_values, five_fields, parse_cron, week_days, minutes, sunday, hours,
  month_days, months,
}
use overstate.FileSync.Steps.{Selects, range-Selects}

-- A text before and after a separator.
abbrev pub Cut : ℕ → String → String → String → Type 0
Cut sep s a b = (c : Char) × (code c ≡ sep) × (s ≡ a <> String.◌∷◌ c b)

abbrev CutBy : ℕ → String → Option (String × String) → Type 0
CutBy sep s none = Unit {0}
CutBy sep s (some (a, b)) = Cut sep s a b

later-CutBy :
    (sep : ℕ) (c : Char) (s : String) (r : Option (String × String))
    → CutBy sep s r
    → CutBy sep (String.◌∷◌ c s) (elim r [ none ↦ none | some (a, b) ↦ some (String.◌∷◌ c a, b) ])
later-CutBy sep c s none cut = tt
later-CutBy sep c s (some (a, b)) (d, is_sep, whole) =
    (d, is_sep, ap (λ t. String.◌∷◌ c t) whole ∙ sym (cons-append c a (String.◌∷◌ d b)))

partition-CutBy : (sep : ℕ) (s : String) → CutBy sep s (partition sep s)
unfolding partition
partition-CutBy sep String.[] = tt
partition-CutBy sep (String.◌∷◌ c s) =
    let later = later-CutBy sep c s (partition sep s) (partition-CutBy sep s) in
    if-both (CutBy sep (String.◌∷◌ c s)) (code c =? sep) _ _
      (λ here. (c, ground arith, sym (nil-append (String.◌∷◌ c s)))) (λ _. later)

-- The step of an item: one, or the number after the slash.
abbrev pub Steps : String → String → ℕ → Bool → Type 0
Steps item base step stepped =
    ((item ≡ base) × (step ≡ 1) × (stepped ≡ false))
    ⊎ ((text : String) × Cut b'/' item base text
        × (is_digit text ≡ true)
        × (step ≡ number_of text)
        × (stepped ≡ true))

-- The span of an item's base: everything, a range, or a number, from which a step goes on to the maximum.
abbrev pub Spans : Bounds → String → Bool → Span → Type 0
Spans b base stepped s =
    ((base ≡ "*") × (s.start ≡ b.minimum) × (s.end ≡ b.maximum))
    ⊎ ((first : String) × (last : String) × Cut b'-' base first last
        × (is_digit first ≡ true)
        × (is_digit last ≡ true)
        × (s.start ≡ number_of first)
        × (s.end ≡ number_of last))
    ⊎ ((is_digit base ≡ true)
        × (s.start ≡ number_of base)
        × (s.end ≡ (if stepped then b.maximum else number_of base)))

-- The values of an item are the steps of the span that its text describes, within the bounds.
pub record IsSpanned (b : Bounds) (item : String) (vs : List ℕ) : Type 0 where
  pub base : String
  pub stepped : Bool
  pub span : Span
  pub step : ℕ
  pub steps : Steps item base step stepped
  pub spans : Spans b base stepped span
  pub positive : 1 ≤ step
  pub above : b.minimum ≤ span.start
  pub below : span.end ≤ b.maximum
  pub selects : (v : ℕ) → (has_value vs v ≡ true) ↔ Selects span.start span.end step v

-- What holds of a value that a parse gives.
abbrev pub Gives {ℓ κ} : {A : Type ℓ} → (A → Type κ) → Parsed A → Type κ
Gives P (parsed a) = P a
Gives P (value_error text) = Unit

pub Gives-then {ℓ κ μ ν} :
    {A : Type ℓ} {B : Type κ} (P : A → Type μ) (Q : B → Type ν) (r : Parsed A) (f : A → Parsed B)
    → Gives P r
    → ((a : A) → P a → Gives Q (f a))
    → Gives Q (then_parse r f)
Gives-then P Q (parsed a) f p next = next a p
Gives-then P Q (value_error text) f p next = tt

abbrev StepIs : Option String → ℕ → Type 0
StepIs none step = step ≡ 1
StepIs (some text) step = (is_digit text ≡ true) × (step ≡ number_of text) × (1 ≤ step)

step_of-StepIs : (label : String) (text : Option String) → Gives (StepIs text) (step_of label text)
unfolding step_of
step_of-StepIs label none = refl
step_of-StepIs label (some text) =
    if-both (Gives (StepIs (some text))) (not (is_digit text) || ltb (number_of text) 1) _ _
      (λ _. tt) (λ ok. (ground arith, refl, ground arith))

ranged-Spans :
    (b : Bounds) (base : String) (stepped : Bool) (r : Option (String × String))
    → CutBy b'-' base r
    → Gives (Spans b base stepped) (numbered b base stepped r)
ranged-Spans b base stepped none cut =
    if-both (Gives (Spans b base stepped)) (is_digit base) _ _
      (λ digits. inr (inr (digits, refl, refl))) (λ _. tt)
ranged-Spans b base stepped (some (first, last)) cut =
    if-both (Gives (Spans b base stepped)) (not (is_digit first) || not (is_digit last)) _ _
      (λ _. tt)
      (λ digits.
        if-both (Gives (Spans b base stepped)) (ltb (number_of last) (number_of first)) _ _
          (λ _. tt) (λ _. inr (inl (first, last, cut, ground arith, ground arith, refl, refl))))

span_of-Spans :
    (b : Bounds) (base : String) (stepped : Bool)
    → Gives (Spans b base stepped) (span_of b base stepped)
unfolding span_of
span_of-Spans b base stepped =
    if-both (Gives (Spans b base stepped)) (base == "*") _ _
      (λ star. inl ((eq_iff base "*").0 star, refl, refl))
      (λ _. ranged-Spans b base stepped (partition b'-' base) (partition-CutBy b'-' base))

abbrev Fits : Bounds → Span → Type 0
Fits b s = (b.minimum ≤ s.start) × (s.end ≤ b.maximum)

within-bounds :
    (b : Bounds) (P : Span → Type 0) (s : Span) → P s → Gives (λ s. P s × Fits b s) (within b s)
unfolding within
within-bounds b P s p =
    if-both (Gives (λ s. P s × Fits b s)) (ltb s.start b.minimum || ltb b.maximum s.end) _ _
      (λ _. tt) (λ ok. (p, (ground arith, ground arith)))

abbrev PartsOf : String → String → Option String → Type 0
PartsOf item base none = item ≡ base
PartsOf item base (some text) = Cut b'/' item base text

parts-Steps :
    (item base : String) (text : Option String) (step : ℕ)
    → PartsOf item base text
    → StepIs text step
    → Steps item base step (is_stepped text) × (1 ≤ step)
parts-Steps item base none step whole one = (inl (whole, one, refl), ground arith)
parts-Steps item base (some text) step cut (digits, number, positive) =
    (inr (text, cut, digits, number, refl), positive)

stepped-IsSpanned :
    (b : Bounds) (item base : String) (text : Option String)
    → PartsOf item base text
    → Gives (IsSpanned b item) (stepped_values b (base, text))
stepped-IsSpanned b item base text parts =
    let S = Spans b base (is_stepped text) in
    Gives-then (StepIs text) (IsSpanned b item) (step_of b.label text) _
      (step_of-StepIs b.label text)
      (λ step step_is.
        let made = parts-Steps item base text step parts step_is in
        Gives-then (λ s. S s × Fits b s) (IsSpanned b item) _ _
          (Gives-then S (λ s. S s × Fits b s) (span_of b base (is_stepped text)) (within b)
            (span_of-Spans b base (is_stepped text)) (within-bounds b S))
          (λ s (described, fits). record {
            base = base;
            stepped = is_stepped text;
            span = s;
            step = step;
            steps = made.0;
            spans = described;
            positive = made.1;
            above = fits.0;
            below = fits.1;
            selects = range-Selects s step made.1;
          }))

split-Gives :
    (b : Bounds) (item : String) (r : Option (String × String))
    → CutBy b'/' item r
    → Gives (IsSpanned b item) (stepped_values b (split_step item r))
split-Gives b item none cut = stepped-IsSpanned b item item none refl
split-Gives b item (some (base, text)) cut = stepped-IsSpanned b item base (some text) cut

pub item_values-Gives : (b : Bounds) (item : String) → Gives (IsSpanned b item) (item_values b item)
unfolding item_values
item_values-Gives b item =
    if-both (Gives (IsSpanned b item)) (item == "") _ _ (λ _. tt)
      (λ _. split-Gives b item (partition b'/' item) (partition-CutBy b'/' item))

-- The values of an item that is accepted are exactly those of the arithmetic sequence that its text
-- describes. The step is the number after a slash, or one, and at least one. The start and the end are
-- the bounds for `*`, the two numbers of `a-b`, or the number itself, where the end of a number with a
-- slash is the maximum. The start is not below the minimum and the end not above the maximum.
pub item_values-IsSpanned :
    (b : Bounds) (item : String) (vs : List ℕ)
    → item_values b item ≡ parsed vs
    → IsSpanned b item vs
item_values-IsSpanned b item vs accepted =
    subst (Gives (IsSpanned b item)) accepted (item_values-Gives b item)
