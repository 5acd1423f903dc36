-- ===== src/FileSync/Days.antt =====
-- overstate_ui/file_sync_schedule.py: when a cron expression matches, and which slot is due.
use overstate.Prelude.{
  starts_with, Bool, Bool-cases, Option, String, none, some, true, false, ℕ, ◌-◌, ◌≡◌, ◌⊎◌, ◌&&◌,
  ◌||◌, if◌then◌else◌, inl, inr, refl, arith, if-both, List, [], ◌∙◌, ◌∷◌, ap,
}
use overstate.Text.{split}
use overstate.Text.Words.{split_words}
use overstate.FileSync.Values.{Gives, Gives-then}
use overstate.FileSync.{
  Bounds, checked, collect, field_values, five_fields, hours, minutes, month_days, months,
  week_days, Cron, Parsed, When, cron_matches, cron_weekday, due_slot, has_value, is_off, matches,
  parsed, then_parse, value_error, parse_cron,
}

-- The day rule of Vixie cron: both day fields where one of them has a star, else one of them.
abbrev pub vixie_day : Cron → When → Bool
vixie_day c t =
    let dom = has_value c.day_of_month.0 t.day in
    let dow = has_value c.day_of_week.0 (cron_weekday t.weekday) in
    if c.day_of_month.1 || c.day_of_week.1 then dom && dow else dom || dow

abbrev pub vixie : Cron → When → Bool
vixie c t =
    has_value c.minute.0 t.minute
    && has_value c.hour.0 t.hour
    && has_value c.month.0 t.month
    && vixie_day c t

-- Where a field with a star has the value of the day, as the plain `*` has them all, the expression
-- matches as it does for Vixie cron: the minute, the hour and the month are in their sets, and the day
-- is in both day sets if one field has a star, else in one of them.
pub matches-vixie :
    (c : Cron) (t : When)
    → (c.day_of_month.1 ≡ true → has_value c.day_of_month.0 t.day ≡ true)
    → (c.day_of_week.1 ≡ true → has_value c.day_of_week.0 (cron_weekday t.weekday) ≡ true)
    → matches c t ≡ vixie c t
unfolding matches
matches-vixie c t dom dow = elim (Bool-cases c.day_of_month.1) [
  | inl a ↦ elim (Bool-cases c.day_of_week.1) [
    | inl b ↦ let x = dom a in let y = dow b in ground (arith, a, b, x, y)
    | inr b ↦ let x = dom a in ground (arith, a, b, x)
  ]
  | inr a ↦ elim (Bool-cases c.day_of_week.1) [
    | inl b ↦ let y = dow b in ground (arith, a, b, y)
    | inr b ↦ ground (arith, a, b)
  ]
]

stepped_stars_ignored :
    (c : Cron) (t : When)
    → c.day_of_month.1 ≡ true
    → c.day_of_week.1 ≡ true
    → matches c t
      ≡ (has_value c.minute.0 t.minute && has_value c.hour.0 t.hour && has_value c.month.0 t.month)
unfolding matches
stepped_stars_ignored c t dom dow = ground (arith, dom, dow)

-- The wildcard flag of a field says whether its text begins with a star.
abbrev Flagged : String → List ℕ × Bool → Type 0
Flagged token f = f.1 ≡ starts_with token "*"

field-Flagged : (token : String) (b : Bounds) → Gives (Flagged token) (field_values token b)
unfolding field_values
field-Flagged token b =
    elim (collect b (split b',' token) [])
      as (λ r. Gives (Flagged token) (then_parse r (checked b (starts_with token "*")))) [
        | value_error text ↦ tt
        | parsed [] ↦ tt
        | parsed (v ∷ vs) ↦ refl
      ]

abbrev Starred : String → String → Cron → Type 0
Starred dom dow c = Flagged dom c.day_of_month × Flagged dow c.day_of_week

five-Starred :
    (m h dom mo dow : String) → Gives (Starred dom dow) (five_fields (m ∷ h ∷ dom ∷ mo ∷ dow ∷ []))
five-Starred m h dom mo dow =
    let Q = Starred dom dow in
    Gives-then (Flagged m) Q _ _ (field-Flagged m minutes) (λ a _.
      Gives-then (Flagged h) Q _ _ (field-Flagged h hours) (λ b _.
        Gives-then (Flagged dom) Q _ _ (field-Flagged dom month_days) (λ c on_dom.
          Gives-then (Flagged mo) Q _ _ (field-Flagged mo months) (λ d _.
            Gives-then (Flagged dow) Q _ _ (field-Flagged dow week_days)
              (λ e on_dow. (on_dom, on_dow))))))

same_match :
    (r : Parsed Cron) (dom dow : String) (t u : When)
    → Gives (Starred dom dow) r
    → starts_with dom "*" ≡ true
    → starts_with dow "*" ≡ true
    → t.minute ≡ u.minute
    → t.hour ≡ u.hour
    → t.month ≡ u.month
    → then_parse r (λ c. parsed (matches c t)) ≡ then_parse r (λ c. parsed (matches c u))
same_match (value_error text) dom dow t u flags a b minute hour month = refl
same_match (parsed c) dom dow t u (on_dom, on_dow) a b minute hour month =
    let at_t = stepped_stars_ignored c t (on_dom ∙ a) (on_dow ∙ b) in
    let at_u = stepped_stars_ignored c u (on_dom ∙ a) (on_dow ∙ b) in
    rw (at_t, at_u, minute, hour, month) refl

-- A bug: where both day fields begin with a star, the expression matches two instants alike that have
-- one minute, hour and month, whatever their days. So `0 0 */2 * *` fires every day: the steps of a
-- field that begins with a star have no effect.
pub starred_days_ignored :
    (expression m h dom mo dow : String) (t u : When)
    → split_words expression ≡ m ∷ h ∷ dom ∷ mo ∷ dow ∷ []
    → starts_with dom "*" ≡ true
    → starts_with dow "*" ≡ true
    → t.minute ≡ u.minute
    → t.hour ≡ u.hour
    → t.month ≡ u.month
    → cron_matches expression t ≡ cron_matches expression u
unfolding cron_matches parse_cron
starred_days_ignored expression m h dom mo dow t u words a b minute hour month = rw words (
    same_match (five_fields (m ∷ h ∷ dom ∷ mo ∷ dow ∷ [])) dom dow t u (five-Starred m h dom mo dow)
      a b minute hour month)

parse_error :
    (r : Parsed Cron) (t : When) (text : String)
    → then_parse r (λ c. parsed (matches c t)) ≡ value_error text
    → r ≡ value_error text
parse_error (value_error other) t text e = let same : other ≡ text = cc in ap value_error same
parse_error (parsed c) t text e = absurd (cc)

cron_matches-error :
    (expression : String) (t : When) (text : String)
    → cron_matches expression t ≡ value_error text
    → parse_cron expression ≡ value_error text
unfolding cron_matches
cron_matches-error expression t text e = parse_error (parse_cron expression) t text e

no_match :
    (expression : String) (t : When) (text : String) (b : Bool)
    → parse_cron expression ≡ value_error text
    → cron_matches expression t ≡ parsed b
    → ⊥
unfolding cron_matches
no_match expression t text b fails e = cc (rw fails at e)

module _ (expression : String) (calendar : ℕ → When) (now : ℕ) where
  -- The slot of a parse: the latest of the last two minutes that matches.
  abbrev pub Due : Parsed (Option ℕ) → Type 0
  Due (value_error text) = (is_off expression ≡ false) × (parse_cron expression ≡ value_error text)
  Due (parsed (some slot)) =
      (is_off expression ≡ false)
      × (cron_matches expression (calendar slot) ≡ parsed true)
      × ((slot ≡ now)
          ⊎ ((slot ≡ now - 1) × (cron_matches expression (calendar now) ≡ parsed false)))
  Due (parsed none) =
      (is_off expression ≡ true)
      ⊎ ((cron_matches expression (calendar now) ≡ parsed false)
          × (cron_matches expression (calendar (now - 1)) ≡ parsed false))

  before-Due :
      (before : Parsed Bool)
      → is_off expression ≡ false
      → cron_matches expression (calendar now) ≡ parsed false
      → cron_matches expression (calendar (now - 1)) ≡ before
      → Due (then_parse before (λ b. parsed (if b then some (now - 1) else none)))
  before-Due (value_error text) on at e = absurd (
      no_match expression (calendar now) text false
        (cron_matches-error expression (calendar (now - 1)) text e) at)
  before-Due (parsed true) on at e = (on, e, inr (refl, at))
  before-Due (parsed false) on at e = inr (at, e)

  now-Due :
      (at_now : Parsed Bool)
      → is_off expression ≡ false
      → cron_matches expression (calendar now) ≡ at_now
      → Due (
          then_parse at_now (λ a.
            if a
            then parsed (some now)
            else then_parse
                (cron_matches expression (calendar (now - 1)))
                (λ b. parsed (if b then some (now - 1) else none))))
  now-Due (value_error text) on e = (on, cron_matches-error expression (calendar now) text e)
  now-Due (parsed true) on e = (on, e, inl refl)
  now-Due (parsed false) on e = before-Due (cron_matches expression (calendar (now - 1))) on e refl

  -- A due slot is this minute or the one before, it matches the expression, and the one before is taken
  -- only where this one does not match. Where nothing is due the schedule is off or neither minute
  -- matches. An error is that of `parse_cron`, for an expression other than `off`: every expression
  -- that parses gives an answer.
  pub due_slot-Due : Due (due_slot expression calendar now)
  unfolding due_slot
  due_slot-Due =
      if-both Due (is_off expression) _ _ (λ off. inl off)
        (λ on. now-Due (cron_matches expression (calendar now)) on refl)
