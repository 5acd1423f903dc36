-- ===== src/Glob/Matching.antt =====
-- `fnmatch.fnmatchcase` beside a relation of patterns and texts.
use text.Mathlib.TextEquality.{Char-path}
use overstate.Prelude.{
  ℕ, String, Bool, true, false, ◌||◌, List, [], ◌∷◌, ◌=?◌, any, ◌≡◌, refl, ap, ◌↔◌, ◌==◌, arith,
  inl, inr, Bool-cases, eq_iff,
}
use overstate.Glob.{
  codes, Item, Token, star, any_char, lit, set, in_set, parse, matches, fnmatchcase,
}

-- What a token sequence matches, with the text cut into the parts of the tokens.
pub data Matches : List Token → List ℕ → Type 0 where
  done : Matches [] []
  skip : {ts : List Token} {s : List ℕ} → Matches ts s → Matches (star ∷ ts) s
  eat : {ts : List Token} (c : ℕ) {s : List ℕ} → Matches (star ∷ ts) s → Matches (star ∷ ts) (c ∷ s)
  one_char : {ts : List Token} (c : ℕ) {s : List ℕ} → Matches ts s → Matches (any_char ∷ ts) (c ∷ s)
  same :
      {ts : List Token} (a c : ℕ) {s : List ℕ} → c ≡ a → Matches ts s → Matches (lit a ∷ ts) (c ∷ s)
  member :
      {ts : List Token} (c : ℕ) (neg : Bool) (its : List Item) {s : List ℕ}
      → in_set c neg its ≡ true
      → Matches ts s
      → Matches (set neg its ∷ ts) (c ∷ s)

pub matches_sound : (ts : List Token) (s : List ℕ) → matches ts s ≡ true → Matches ts s
unfolding matches
matches_sound [] [] h = done
matches_sound (star ∷ ts) [] h = skip (matches_sound ts [] h)
matches_sound (star ∷ ts) (c ∷ s) h = elim (Bool-cases (matches ts (c ∷ s))) [
  | inl now ↦ skip (matches_sound ts (c ∷ s) now)
  | inr later ↦ eat c (matches_sound (star ∷ ts) s (ground arith))
]
matches_sound (any_char ∷ ts) (c ∷ s) h = one_char c (matches_sound ts s h)
matches_sound (lit a ∷ ts) (c ∷ s) h = same a c (ground arith) (matches_sound ts s (ground arith))
matches_sound (set neg its ∷ ts) (c ∷ s) h =
    member c neg its (ground arith) (matches_sound ts s (ground arith))
matches_sound _ _ h = cc

skip_true : (ts : List Token) (s : List ℕ) → matches ts s ≡ true → matches (star ∷ ts) s ≡ true
unfolding matches
skip_true ts [] h = h
skip_true ts (c ∷ s) h = ground arith

pub matches_complete : {ts : List Token} {s : List ℕ} → Matches ts s → matches ts s ≡ true
unfolding matches
matches_complete done = refl
matches_complete (skip {ts = ts} {s = s} m) = skip_true ts s (matches_complete m)
matches_complete (eat c m) = ground (arith, matches_complete m)
matches_complete (one_char c m) = matches_complete m
matches_complete (same a c e m) = ground (arith, matches_complete m)
matches_complete (member c neg its e m) = ground (arith, matches_complete m)

-- The matcher decides the relation: a name fits a pattern exactly when the name can be cut into
-- one part for each token of the pattern, any part for `*`, one character for the other tokens.
pub fnmatchcase-Matches :
    (name pattern : String)
    → (fnmatchcase name pattern ≡ true) ↔ Matches (parse 0 (codes pattern)) (codes name)
unfolding fnmatchcase
fnmatchcase-Matches name pattern =
    (matches_sound (parse 0 (codes pattern)) (codes name), matches_complete)

star_all : (s : List ℕ) → matches (star ∷ []) s ≡ true
unfolding matches
star_all [] = refl
star_all (c ∷ s) = ground (arith, star_all s)

-- `*` fits every name.
pub fnmatchcase-star : (name : String) → fnmatchcase name "*" ≡ true
unfolding fnmatchcase
fnmatchcase-star name = star_all (codes name)

abbrev special : ℕ → Bool
special c = c =? b'*' || c =? b'?' || c =? b'['

-- `any(c in pattern for c in ("*", "?", "["))`
unfoldable pub has_glob : String → Bool
unfolding any
has_glob pattern = any special (codes pattern)

parse_plain : (p s : List ℕ) → any special p ≡ false → (matches (parse 0 p) s ≡ true) ↔ (p ≡ s)
unfolding parse matches any
parse_plain [] [] h = (λ _. refl, λ _. refl)
parse_plain [] (c ∷ s) h = (λ e. cc, λ e. cc)
parse_plain (a ∷ p) [] h = ground arith
parse_plain (a ∷ p) (c ∷ s) h = ground (arith, parse_plain p s)

codes_injective : (s t : String) → codes s ≡ codes t → s ≡ t
codes_injective String.[] String.[] e = refl
codes_injective String.[] (String.◌∷◌ d t) e = cc
codes_injective (String.◌∷◌ c s) String.[] e = cc
codes_injective (String.◌∷◌ c s) (String.◌∷◌ d t) e =
    cc (Char-path c d (cc), codes_injective s t (cc))

-- A pattern without `*`, `?` and `[` fits exactly the name that it spells.
pub fnmatchcase_plain :
    (name pattern : String)
    → has_glob pattern ≡ false
    → fnmatchcase name pattern ≡ (name == pattern)
unfolding fnmatchcase has_glob
fnmatchcase_plain name pattern h =
    let fits = parse_plain (codes pattern) (codes name) h in
    ground (arith, eq_iff name pattern, ap codes, fits, codes_injective pattern name)
