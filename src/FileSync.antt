-- ===== src/FileSync.antt =====
-- overstate_ui/file_sync_schedule.py: the cron expression of the file sync. Instants are minutes since
-- the epoch, in UTC; the calendar of a minute is an argument. The digits of `isdigit` are the ASCII ones.
pub mod Steps
pub mod Values
pub mod Days
pub mod Runs
mod Examples
use overstate.Prelude.{
  Bool, List, Option, String, [], if◌then◌else◌, ltb, none, not, some, starts_with, suc, true,
  false, zero, ℕ, ◌&&◌, ◌+◌, ◌-◌, ◌<>◌, ◌==◌, ◌=?◌, ◌||◌, ◌∷◌, any, keep, ◌++◌,
}
use overstate.Text.{parse_id, partition, split, strip}
use overstate.Text.Words.{show_int, is_digit, lower_is, split_words}

-- A value, or a ValueError with its text.
pub data Parsed {ℓ} (A : Type ℓ) : Type ℓ where
  parsed : A → Parsed A
  value_error : String → Parsed A

abbrev pub then_parse {ℓ κ} : {A : Type ℓ} {B : Type κ} → Parsed A → (A → Parsed B) → Parsed B
then_parse (value_error text) f = value_error text
then_parse (parsed a) f = f a

pub record Span : Type 0 where
  pub start : ℕ
  pub end : ℕ

pub record Bounds : Type 0 where
  pub minimum : ℕ
  pub maximum : ℕ
  pub label : String

-- `int(text)` of digits
abbrev number_or_zero : Option ℕ → ℕ
number_or_zero none = 0
number_or_zero (some n) = n

unfoldable pub number_of : String → ℕ
unfolding parse_id
number_of text = number_or_zero (parse_id text)

-- The base and the step text of an item.
abbrev pub split_step : String → Option (String × String) → String × Option String
split_step item none = (item, none)
split_step item (some (base, step)) = (base, some step)

unfoldable pub step_of : String → Option String → Parsed ℕ
step_of label none = parsed 1
step_of label (some text) =
    if not (is_digit text) || ltb (number_of text) 1
    then value_error ("invalid step in " <> label)
    else parsed (number_of text)

abbrev pub ranged : String → String → String → Parsed Span
ranged label start end =
    if not (is_digit start) || not (is_digit end)
    then value_error ("invalid range in " <> label)
    else if ltb (number_of end) (number_of start)
    then value_error ("descending range in " <> label)
    else parsed (record { start = number_of start; end = number_of end })

abbrev pub numbered : Bounds → String → Bool → Option (String × String) → Parsed Span
numbered b base slash (some (start, end)) = ranged b.label start end
numbered b base slash none =
    if is_digit base
    then parsed
        (record { start = number_of base; end = if slash then b.maximum else number_of base })
    else value_error ("invalid value in " <> b.label)

unfoldable pub span_of : Bounds → String → Bool → Parsed Span
unfolding partition
span_of b base slash =
    if base == "*"
    then parsed (record { start = b.minimum; end = b.maximum })
    else numbered b base slash (partition b'-' base)

abbrev out_of_range : Bounds → String
out_of_range b =
    b.label <> (" must be between " <> (show_int b.minimum <> (" and " <> show_int b.maximum)))

unfoldable pub within : Bounds → Span → Parsed Span
within b s =
    if ltb s.start b.minimum || ltb b.maximum s.end then value_error (out_of_range b) else parsed s

-- `range(start, end + 1, step)`: at most `fuel` values
unfoldable pub range_from : ℕ → ℕ → ℕ → ℕ → List ℕ
range_from zero start end step = []
range_from (suc fuel) start end step =
    let rest = range_from fuel (start + step) end step in if ltb end start then [] else start ∷ rest

unfoldable pub range : Span → ℕ → List ℕ
range s step = range_from (suc s.end - s.start) s.start s.end step

abbrev pub is_stepped : Option String → Bool
is_stepped none = false
is_stepped (some text) = true

abbrev pub stepped_values : Bounds → String × Option String → Parsed (List ℕ)
stepped_values b (base, step_text) = then_parse (step_of b.label step_text) (λ step.
    then_parse (then_parse (span_of b base (is_stepped step_text)) (within b))
      (λ s. parsed (range s step)))

-- One round of the loop over the items of a field.
unfoldable pub item_values : Bounds → String → Parsed (List ℕ)
unfolding partition
item_values b item =
    if item == ""
    then value_error ("empty item in " <> b.label)
    else stepped_values b (split_step item (partition b'/' item))

unfoldable pub has_value : List ℕ → ℕ → Bool
has_value vs v = any (λ x. x =? v) vs

-- `values.update(...)` of every item
unfoldable pub collect : Bounds → List String → List ℕ → Parsed (List ℕ)
collect b [] values = parsed values
collect b (item ∷ items) values =
    then_parse (item_values b item) (λ vs. collect b items (values ++ vs))

-- 7 is an alias of 0 for Sunday.
abbrev pub sunday : Bounds → List ℕ → List ℕ
sunday b values =
    if b.label == "day of week" && has_value values 7
    then 0 ∷ keep (λ v. not (v =? 7)) values
    else values

abbrev pub checked : Bounds → Bool → List ℕ → Parsed (List ℕ × Bool)
checked b wildcard [] = value_error (b.label <> " has no values")
checked b wildcard (v ∷ vs) = parsed (sunday b (v ∷ vs), wildcard)

-- `_field_values`
unfoldable pub field_values : String → Bounds → Parsed (List ℕ × Bool)
unfolding split
field_values token b =
    then_parse (collect b (split b',' token) []) (checked b (starts_with token "*"))

abbrev pub minutes : Bounds
minutes = record { minimum = 0; maximum = 59; label = "minute" }

abbrev pub hours : Bounds
hours = record { minimum = 0; maximum = 23; label = "hour" }

abbrev pub month_days : Bounds
month_days = record { minimum = 1; maximum = 31; label = "day of month" }

abbrev pub months : Bounds
months = record { minimum = 1; maximum = 12; label = "month" }

abbrev pub week_days : Bounds
week_days = record { minimum = 0; maximum = 7; label = "day of week" }

pub record Cron : Type 0 where
  pub minute : List ℕ × Bool
  pub hour : List ℕ × Bool
  pub day_of_month : List ℕ × Bool
  pub month : List ℕ × Bool
  pub day_of_week : List ℕ × Bool

abbrev pub five_fields : List String → Parsed Cron
five_fields (minute ∷ hour ∷ dom ∷ month ∷ dow ∷ []) =
    then_parse (field_values minute minutes) (λ a. then_parse (field_values hour hours) (λ b.
      then_parse (field_values dom month_days) (λ c. then_parse (field_values month months) (λ d.
        then_parse (field_values dow week_days) (λ e.
          parsed
            (record { minute = a; hour = b; day_of_month = c; month = d; day_of_week = e }))))))
five_fields _ = value_error "use five cron fields: minute hour day month weekday"

unfoldable pub parse_cron : String → Parsed Cron
unfolding split_words
parse_cron expression = five_fields (split_words expression)

-- `datetime` of a minute; Monday is weekday 0.
pub record When : Type 0 where
  pub minute : ℕ
  pub hour : ℕ
  pub day : ℕ
  pub month : ℕ
  pub weekday : ℕ

-- `(weekday() + 1) % 7`
abbrev pub cron_weekday : ℕ → ℕ
cron_weekday weekday = if weekday =? 6 then 0 else weekday + 1

abbrev pub day_rule : List ℕ × Bool → List ℕ × Bool → When → Bool
day_rule dom dow t =
    let dom_matches = has_value dom.0 t.day in
    let dow_matches = has_value dow.0 (cron_weekday t.weekday) in
    if dom.1 && dow.1
    then true
    else if dom.1
    then dow_matches
    else if dow.1
    then dom_matches
    else dom_matches || dow_matches

unfoldable pub matches : Cron → When → Bool
matches c t =
    if not (has_value c.minute.0 t.minute)
      || not (has_value c.hour.0 t.hour)
      || not (has_value c.month.0 t.month)
    then false
    else day_rule c.day_of_month c.day_of_week t

unfoldable pub cron_matches : String → When → Parsed Bool
cron_matches expression t = then_parse (parse_cron expression) (λ c. parsed (matches c t))

abbrev pub is_off : String → Bool
is_off expression = lower_is (strip expression) "off"

-- `validate_file_sync_schedule`
unfoldable pub validate_file_sync_schedule : String → Parsed String
unfolding strip
validate_file_sync_schedule expression =
    if is_off expression
    then parsed "off"
    else then_parse (parse_cron (strip expression)) (λ c. parsed (strip expression))

-- `due_slot` of the minute of now
unfoldable pub due_slot : String → (ℕ → When) → ℕ → Parsed (Option ℕ)
unfolding strip lower_is
due_slot expression calendar now =
    if is_off expression
    then parsed none
    else then_parse (cron_matches expression (calendar now)) (λ at_now.
      if at_now
      then parsed (some now)
      else then_parse (cron_matches expression (calendar (now - 1)))
          (λ before. parsed (if before then some (now - 1) else none)))
