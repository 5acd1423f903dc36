-- ===== src/Text/Lists.antt =====
-- Comma-separated settings and targets: `{p.strip() for p in s.split(",") if p.strip()}`, in
-- overstate_ui/authz.py and overstate_ui/auth.py.
pub mod RoundTrip
use overstate.Prelude.{◌≡◌, refl, String, not, List, [], ◌∷◌, ◌==◌, map, keep}
use overstate.Text.{strip, split, join}
use overstate.Sets.{from_list}

-- `[p.strip() for p in s.split(",") if p.strip()]`
unfoldable pub split_csv : String → List String
unfolding strip split keep
split_csv s = keep (λ p. not (p == "")) (map strip (split b',' s))

-- The same as a set.
unfoldable pub csv_set : String → List String
unfolding split_csv from_list
csv_set s = from_list (split_csv s)

split_csv_test : split_csv " a, b ,,c" ≡ "a" ∷ "b" ∷ "c" ∷ []
unfolding split_csv
split_csv_test = refl

join_test : join ("a" ∷ "b" ∷ []) ≡ "a,b"
unfolding join
join_test = refl
