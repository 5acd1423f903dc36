-- ===== src/Text/Lists/RoundTrip.antt =====
-- The id lists of overstate_ui/authz.py: `",".join` beside `split(",")` and `strip`, on ids without commas and outer
-- blanks.
use text.Mathlib.TextLemmas.{nil-append, cons-append}
use Prim.Native.Char.{code, Char}
use overstate.Prelude.{
  All, Bool, List, String, [], ap, arith, false, map, not, refl, true, ◌&&◌, ◌<>◌, ◌=?◌, ◌∙◌, ◌∷◌,
  ◌≡◌, All-mono, keep, ◌==◌,
}
use overstate.Text.{join, split, strip, code}
use overstate.Text.Lists.{split_csv}

-- No comma occurs in the text.
unfoldable pub no_comma : String → Bool
no_comma String.[] = true
no_comma (String.◌∷◌ c s) = not (code c =? b',') && no_comma s

-- A text that `split(",")` and `strip` leave whole.
abbrev pub IsPlain : String → Type 0
IsPlain s = (no_comma s ≡ true) × (strip s ≡ s)

one_more : (c : Char) (s : String) → String.◌∷◌ c "" <> s ≡ String.◌∷◌ c s
one_more c s = cons-append c "" s ∙ ap (λ t. String.◌∷◌ c t) (nil-append s)

split-whole : (s : String) → no_comma s ≡ true → split b',' s ≡ s ∷ []
unfolding split no_comma
split-whole String.[] h = refl
split-whole (String.◌∷◌ c s) h =
    let rest = split-whole s (ground arith) in
    let other : (code c =? b',') ≡ false = ground arith in
    rw (other, rest) (ap (λ t. t ∷ []) (one_more c s))

split_comma : (t : String) → split b',' ("," <> t) ≡ "" ∷ split b',' t
unfolding split
split_comma t = ap (split b',') (one_more _ t)

split-first : (s t : String) → no_comma s ≡ true → split b',' (s <> ("," <> t)) ≡ s ∷ split b',' t
unfolding split no_comma
split-first String.[] t h = ap (split b',') (nil-append ("," <> t)) ∙ split_comma t
split-first (String.◌∷◌ c s) t h =
    let rest = split-first s t (ground arith) in
    let other : (code c =? b',') ≡ false = ground arith in
    ap (split b',') (cons-append c s ("," <> t))
    ∙ rw (other, rest) (ap (λ u. u ∷ split b',' t) (one_more c s))

split-join :
    (x : String) (xs : List String) → All IsPlain (x ∷ xs) → split b',' (join (x ∷ xs)) ≡ x ∷ xs
unfolding join
split-join x [] (p, ps) = split-whole x p.0
split-join x (y ∷ xs) (p, ps) =
    split-first x (join (y ∷ xs)) p.0 ∙ ap (λ ys. x ∷ ys) (split-join y xs ps)

map-strip : (xs : List String) → All IsPlain xs → map strip xs ≡ xs
map-strip [] a = refl
map-strip (x ∷ xs) (p, ps) = rw (p.1, map-strip xs ps) refl

-- No text of the list is blank.
abbrev pub IsId : String → Type 0
IsId s = IsPlain s × ((s == "") ≡ false)

keep-ids : (xs : List String) → All IsId xs → keep (λ p. not (p == "")) xs ≡ xs
unfolding keep
keep-ids [] a = refl
keep-ids (x ∷ xs) (p, ps) = rw (p.1, keep-ids xs ps) refl

-- A list of ids that is joined is read back.
pub split_csv-join :
    (x : String) (xs : List String) → All IsId (x ∷ xs) → split_csv (join (x ∷ xs)) ≡ x ∷ xs
unfolding split_csv
split_csv-join x xs a =
    let plain = All-mono IsId IsPlain (x ∷ xs) (λ s p. p.0) a in
    ap (λ ys. keep (λ p. not (p == "")) (map strip ys)) (split-join x xs plain)
    ∙ (ap (keep (λ p. not (p == ""))) (map-strip (x ∷ xs) plain) ∙ keep-ids (x ∷ xs) a)
