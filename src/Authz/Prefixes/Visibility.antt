-- ===== src/Authz/Prefixes/Visibility.antt =====
-- overstate_ui/authz.py: `visible_prefixes` beside the check of one path.
use overstate.Prelude.{
  Bool, List, String, [], any, arith, refl, ◌||◌, ◌∷◌, ◌≡◌, All, eq_iff, false, none, some, sym,
  true, ◌&&◌, ◌==◌, ◌∙◌, eq_refl, subst,
}
use overstate.Sets.{add, contains}
use overstate.Sets.Sorting.{sorted, insert_sorted}
use overstate.Store.{World, User}
use overstate.Authz.Catalog.{has_perm, perm_domain, is_perm}
use overstate.Authz.Catalog.Laws.{file_write-file_read}
use overstate.Authz.Entries.{Entry, effective_entries}
use overstate.Authz.Decide.{is_ignored, covers_prefix, entry_covers, decide, has_fleet}
use overstate.Authz.Decide.Agreement.{decide-any}
use overstate.Authz.Prefixes.{prefix_visible, grants_prefix, prefixes_from, visible_prefixes}
use overstate.Text.{under_prefix}

any-contains :
    (p : String → Bool) (s : List String) (x : String)
    → contains s x ≡ true
    → p x ≡ true
    → any p s ≡ true
unfolding any contains
any-contains p [] x h e = absurd (ground arith)
any-contains p (y ∷ s) x h e = ground (arith, any-contains p s x, eq_iff y x)

any-add : (p : String → Bool) (x : String) (s : List String) → any p (add x s) ≡ (p x || any p s)
unfolding any add
any-add p x s = ground (arith, any-contains p s x)

any-insert_sorted :
    (p : String → Bool) (x : String) (s : List String)
    → any p (insert_sorted x s) ≡ (p x || any p s)
unfolding any insert_sorted
any-insert_sorted p x [] = refl
any-insert_sorted p x (y ∷ s) = ground (arith, any-insert_sorted p x s)

any-sorted : (p : String → Bool) (s : List String) → any p (sorted s) ≡ any p s
unfolding any sorted
any-sorted p [] = refl
any-sorted p (x ∷ s) = ground (arith, any-sorted p s, any-insert_sorted p x (sorted s))

abbrev on_path : String → Entry → Bool
on_path rel e = grants_prefix e && under_prefix rel e.value

prefixes_from-any :
    (rel : String) (es : List Entry)
    → any (λ p. under_prefix rel p) (prefixes_from es) ≡ any (on_path rel) es
unfolding prefixes_from any
prefixes_from-any rel [] = refl
prefixes_from-any rel (e ∷ es) =
    ground (
      arith,
      prefixes_from-any rel es,
      any-add (λ p. under_prefix rel p) e.value (prefixes_from es),
    )

-- The listed prefixes show a path exactly if some entry grants a prefix above it.
pub prefix_visible-entries :
    (w : World) (user : User) (rel : String) (prefixes : List String)
    → visible_prefixes w user ≡ some prefixes
    → prefix_visible prefixes rel ≡ any (on_path rel) (effective_entries w user)
unfolding visible_prefixes prefix_visible
prefix_visible-entries w user rel prefixes h =
    let listed : sorted (prefixes_from (effective_entries w user)) ≡ prefixes = ground arith in
    rw (← listed) (
      any-sorted _ (prefixes_from (effective_entries w user))
      ∙ prefixes_from-any rel (effective_entries w user))

fleet_reader : Entry → Bool
fleet_reader e = has_perm e.role "file.read" && e.kind == "fleet"

covers_read :
    (w : World) (rel : String) (e : Entry)
    → is_ignored e ≡ false
    → fleet_reader e ≡ false
    → entry_covers w e "file.read" none (some rel) ≡ on_path rel e
unfolding entry_covers covers_prefix grants_prefix perm_domain contains fleet_reader
covers_read w rel e h k = ground (arith, file_write-file_read e.role)

covers_read-any :
    (w : World) (rel : String) (es : List Entry)
    → All (λ e. is_ignored e ≡ false) es
    → any fleet_reader es ≡ false
    → any (λ e. entry_covers w e "file.read" none (some rel)) es ≡ any (on_path rel) es
unfolding any
covers_read-any w rel [] h k = refl
covers_read-any w rel (e ∷ es) (h, hs) k =
    ground (arith, covers_read w rel e h, covers_read-any w rel es hs)

no_fleet_reader :
    (w : World) (user : User) (prefixes : List String)
    → visible_prefixes w user ≡ some prefixes
    → any fleet_reader (effective_entries w user) ≡ false
unfolding visible_prefixes has_fleet is_perm contains fleet_reader
no_fleet_reader w user prefixes h = ground arith

-- For a caller without a fleet file grant, and with no grant of a fleet-only role off the fleet,
-- the listing shows exactly the paths on which `file.read` is authorized.
pub prefix_visible-decide :
    (w : World) (user : User) (rel : String) (prefixes : List String)
    → visible_prefixes w user ≡ some prefixes
    → All (λ e. is_ignored e ≡ false) (effective_entries w user)
    → prefix_visible prefixes rel ≡ decide w user "file.read" none (some rel)
prefix_visible-decide w user rel prefixes h clean =
    prefix_visible-entries w user rel prefixes h
    ∙ (sym (
          covers_read-any w rel (effective_entries w user) clean
            (no_fleet_reader w user prefixes h))
        ∙ sym (decide-any w "file.read" none (some rel) user))

prefix-ne-fleet : (kind : String) → (kind == "prefix") ≡ true → (kind == "fleet") ≡ false
prefix-ne-fleet kind h = subst (λ k. (k == "fleet") ≡ false) (sym ((eq_iff kind "prefix").0 h)) refl

shown_without_fleet :
    (w : World) (user : User) (e : Entry)
    → effective_entries w user ≡ e ∷ []
    → grants_prefix e ≡ true
    → visible_prefixes w user ≡ some (sorted (prefixes_from (effective_entries w user)))
unfolding visible_prefixes has_fleet any grants_prefix
shown_without_fleet w user e one listed = rw one (ground (arith, prefix-ne-fleet e.kind))

-- Where a user's only effective entry is a prefix grant of a role that is for the fleet only, its
-- prefix is listed all the same, while the entries deny `file.read` on the very prefix: the listing
-- lacks the brake of `_entry_covers`.
pub unbraked_prefix_visible :
    (w : World) (user : User) (e : Entry)
    → effective_entries w user ≡ e ∷ []
    → is_ignored e ≡ true
    → grants_prefix e ≡ true
    → (prefixes : List String) × (visible_prefixes w user ≡ some prefixes)
      × (prefix_visible prefixes e.value ≡ true)
      × (decide w user "file.read" none (some e.value) ≡ false)
unbraked_prefix_visible w user e one ignored listed =
    let prefixes = sorted (prefixes_from (effective_entries w user)) in
    let shown = shown_without_fleet w user e one listed in
    (
      prefixes,
      shown,
      prefix_visible-entries w user e.value prefixes shown
          ∙ rw one (unfold any under_prefix in ground (arith, eq_refl e.value)),
      rw (decide-any, one) (unfold any entry_covers in ground arith),
    )
