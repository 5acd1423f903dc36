-- ===== src/Authz/Targets/Stored.antt =====
-- overstate_ui/authz.py: a narrowed target, stored with its job, read back by `published_snapshot_ids`.
use overstate.Prelude.{All, List, String, [], ap, false, refl, some, ◌&&◌, ◌∙◌, ◌∷◌, ◌≡◌}
use overstate.Authz.Targets.{published_snapshot_ids}
use overstate.Sets.Sorting.{sorted, sorted-empty, contains-sorted}
use overstate.Text.Lists.{csv_set, split_csv}
use overstate.Sets.{is_empty, contains, contains-from_list, inter, contains-inter}
use overstate.Store.{World}
use overstate.Text.Lists.RoundTrip.{IsId, split_csv-join}
use overstate.Text.{join}
use overstate.Authz.Scopes.{snapshot_ids}

read_back :
    (w : World) (xs : List String) (mid : String)
    → All IsId xs
    → is_empty xs ≡ false
    → contains (csv_set (join xs)) mid ≡ contains xs mid
unfolding csv_set
read_back w [] mid a h = absurd (unfold is_empty in cc)
read_back w (x ∷ xs) mid a h =
    contains-from_list (split_csv (join (x ∷ xs))) mid
    ∙ ap (λ ys. contains ys mid) (split_csv-join x xs a)

-- A list of ids, sorted and comma-separated as narrowing publishes it, names the same snapshot minions
-- when it is read back for a kill, where there is at least one id and no id is empty or has a comma or
-- outer blanks.
pub published_snapshot_ids-join :
    (w : World) (hit : List String) (mid : String)
    → All IsId (sorted hit)
    → is_empty hit ≡ false
    → (ids : List String) × (published_snapshot_ids w (some (join (sorted hit))) (some "list")
        ≡ some ids)
      × (contains ids mid ≡ (contains hit mid && contains (snapshot_ids w) mid))
unfolding published_snapshot_ids
published_snapshot_ids-join w hit mid ids_plain some_hit =
    let named = read_back w (sorted hit) mid ids_plain (sorted-empty hit some_hit) in
    let same = contains-sorted hit mid in
    (
      inter (csv_set (join (sorted hit))) (snapshot_ids w),
      refl,
      contains-inter (csv_set (join (sorted hit))) (snapshot_ids w) mid
          ∙ ap (λ b. b && contains (snapshot_ids w) mid) (named ∙ same),
    )
