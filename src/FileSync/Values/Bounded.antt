-- ===== src/FileSync/Values/Bounded.antt =====
-- overstate_ui/file_sync_schedule.py: the bounds of the values that `parse_cron` gives.
use overstate.Prelude.{
  Bool-cases, List, String, [], any, any-append, not, true, false, ℕ, ◌++◌, ◌≤◌, ◌∷◌, ◌≡◌, ◌==◌,
  ◌=?◌, subst, arith, inl, inr, ◌⊎◌, Bool, keep, refl,
}
use overstate.Text.{split}
use overstate.Text.Words.{split_words}
use overstate.FileSync.{
  Bounds, collect, has_value, item_values, Cron, checked, field_values, five_fields, parse_cron,
  week_days, minutes, sunday, hours, month_days, months,
}
use overstate.FileSync.Values.{Gives, Gives-then, IsSpanned, item_values-Gives}

abbrev pub InBounds : Bounds → ℕ → Type 0
InBounds b v = (b.minimum ≤ v) × (v ≤ b.maximum)

spanned-InBounds :
    (b : Bounds) (item : String) (vs : List ℕ)
    → IsSpanned b item vs
    → (v : ℕ) → has_value vs v ≡ true
    → InBounds b v
spanned-InBounds b item vs spanned v h =
    let (k, reached, fits) = (spanned.selects v).0 h in
    let above = spanned.above in let below = spanned.below in (omega arith, omega arith)

has_value-append :
    (xs ys : List ℕ) (v : ℕ)
    → has_value (xs ++ ys) v ≡ true
    → (has_value xs v ≡ true) ⊎ (has_value ys v ≡ true)
unfolding has_value
has_value-append xs ys v h = ground (arith, any-append (λ x. x =? v) xs ys)

-- All values of a set are within the bounds.
abbrev pub AllWithin : Bounds → List ℕ → Type 0
AllWithin b vs = (v : ℕ) → has_value vs v ≡ true → InBounds b v

collect-AllWithin :
    (b : Bounds) (items : List String) (values : List ℕ)
    → AllWithin b values
    → Gives (AllWithin b) (collect b items values)
unfolding collect
collect-AllWithin b [] values ok = ok
collect-AllWithin b (item ∷ items) values ok =
    Gives-then (IsSpanned b item) (AllWithin b) (item_values b item) _ (item_values-Gives b item)
      (λ vs spanned. collect-AllWithin b items (values ++ vs) (λ v h.
        elim (has_value-append values vs v h) [
          | inl old ↦ ok v old
          | inr new ↦ spanned-InBounds b item vs spanned v new
        ]))

without_seven :
    (vs : List ℕ) (v : ℕ)
    → has_value (keep (λ x. not (x =? 7)) vs) v ≡ true
    → (has_value vs v ≡ true) × ((v =? 7) ≡ false)
unfolding has_value keep any
without_seven [] v h = absurd (cc)
without_seven (x ∷ vs) v h = elim (Bool-cases (x =? 7)) [
  | inl seven ↦ let rest = without_seven vs v (rw seven at h) in (ground (arith, rest), rest.1)
  | inr other ↦ elim (Bool-cases (x =? v)) [
    | inl same ↦ (ground arith, ground arith)
    | inr next ↦
        let rest = without_seven vs v (rw (other, next) at h) in (ground (arith, rest), rest.1)
  ]
]

none_yet : (b : Bounds) → AllWithin b []
unfolding has_value any
none_yet b v h = absurd (cc)

-- The values of a field; those of a day of the week end at 6, since 7 was made 0.
abbrev pub FieldWithin : Bounds → List ℕ × Bool → Type 0
FieldWithin b f = AllWithin b f.0

checked-FieldWithin :
    (b : Bounds) (wildcard : Bool) (vs : List ℕ)
    → (b.label == "day of week") ≡ false
    → AllWithin b vs
    → Gives (FieldWithin b) (checked b wildcard vs)
checked-FieldWithin b wildcard [] other ok = tt
checked-FieldWithin b wildcard (v ∷ vs) other ok = rw other ok

field-FieldWithin :
    (token : String) (b : Bounds)
    → (b.label == "day of week") ≡ false
    → Gives (FieldWithin b) (field_values token b)
unfolding field_values
field-FieldWithin token b other =
    Gives-then (AllWithin b) (FieldWithin b) (collect b (split b',' token) []) _
      (collect-AllWithin b (split b',' token) [] (none_yet b))
      (λ vs ok. checked-FieldWithin b _ vs other ok)

abbrev pub Weekdays : List ℕ × Bool → Type 0
Weekdays f = (v : ℕ) → has_value f.0 v ≡ true → v ≤ 6

sunday-Weekdays :
    (vs : List ℕ) (wildcard : Bool)
    → AllWithin week_days vs
    → Weekdays (sunday week_days vs, wildcard)
unfolding has_value any
sunday-Weekdays vs wildcard ok v h = elim (Bool-cases (has_value vs 7)) [
  | inl seven ↦ elim (Bool-cases (0 =? v)) [
    | inl zeroth ↦ ground arith
    | inr other ↦
        let rest = without_seven vs v (rw (seven, other) at h) in
        let near = (ok v rest.0).1 in ground (arith, rest.1)
  ]
  | inr none_seven ↦
      let held : has_value vs v ≡ true = rw none_seven at h in
      let near = (ok v held).1 in
      elim (Bool-cases (v =? 7)) [
        | inl is_seven ↦
            let same : v ≡ 7 = ground arith in
            absurd (ground (arith, subst (λ x. has_value vs x ≡ true) same held))
        | inr other ↦ ground arith
      ]
]

checked-Weekdays :
    (wildcard : Bool) (vs : List ℕ)
    → AllWithin week_days vs
    → Gives Weekdays (checked week_days wildcard vs)
checked-Weekdays wildcard [] ok = tt
checked-Weekdays wildcard (v ∷ vs) ok = sunday-Weekdays (v ∷ vs) wildcard ok

field-Weekdays : (token : String) → Gives Weekdays (field_values token week_days)
unfolding field_values
field-Weekdays token =
    Gives-then (AllWithin week_days) Weekdays (collect week_days (split b',' token) []) _
      (collect-AllWithin week_days (split b',' token) [] (none_yet week_days))
      (λ vs ok. checked-Weekdays _ vs ok)

-- The values of a parsed expression are minutes, hours, days, months and days of the week.
pub record IsBounded (c : Cron) : Type 0 where
  pub minute : FieldWithin minutes c.minute
  pub hour : FieldWithin hours c.hour
  pub day_of_month : FieldWithin month_days c.day_of_month
  pub month : FieldWithin months c.month
  pub day_of_week : Weekdays c.day_of_week

five-IsBounded :
    (m h dom mo dow : String) → Gives IsBounded (five_fields (m ∷ h ∷ dom ∷ mo ∷ dow ∷ []))
five-IsBounded m h dom mo dow =
    Gives-then (FieldWithin minutes) IsBounded _ _ (field-FieldWithin m minutes refl) (λ a in_a.
      Gives-then (FieldWithin hours) IsBounded _ _ (field-FieldWithin h hours refl) (λ b in_b.
        Gives-then (FieldWithin month_days) IsBounded _ _ (field-FieldWithin dom month_days refl)
          (λ c in_c.
            Gives-then (FieldWithin months) IsBounded _ _ (field-FieldWithin mo months refl)
              (λ d in_d. Gives-then Weekdays IsBounded _ _ (field-Weekdays dow) (λ e in_e. record {
                minute = in_a;
                hour = in_b;
                day_of_month = in_c;
                month = in_d;
                day_of_week = in_e;
              })))))

fields-IsBounded : (fields : List String) → Gives IsBounded (five_fields fields)
fields-IsBounded [] = tt
fields-IsBounded (a ∷ []) = tt
fields-IsBounded (a ∷ b ∷ []) = tt
fields-IsBounded (a ∷ b ∷ c ∷ []) = tt
fields-IsBounded (a ∷ b ∷ c ∷ d ∷ []) = tt
fields-IsBounded (a ∷ b ∷ c ∷ d ∷ e ∷ []) = five-IsBounded a b c d e
fields-IsBounded (a ∷ b ∷ c ∷ d ∷ e ∷ f ∷ fs) = tt

-- An expression that `parse_cron` accepts has only minutes from 0 to 59, hours from 0 to 23, days from 1
-- to 31, months from 1 to 12 and days of the week from 0 to 6, the 7 of Sunday having become 0.
pub parse_cron-IsBounded : (expression : String) → Gives IsBounded (parse_cron expression)
unfolding parse_cron
parse_cron-IsBounded expression = fields-IsBounded (split_words expression)
