-- ===== src/Users/Grants/Added.antt =====
-- overstate_ui/users.py: one more grant row.
use overstate.Prelude.{
  Bool, List, Option, String, [], any, any-append, any-map-keep, arith, map, none, refl, some, true,
  ℕ, ◌&&◌, ◌++◌, ◌∷◌, ◌≡◌, ◌⊎◌, inl, inr, ◌||◌, any_congr, ap, sym, ◌∙◌,
}
use overstate.Store.{World, Grant, User}
use overstate.Authz.Decide.{covers_minion, entry_covers, decide}
use overstate.Authz.Entries.{
  grant_entries, group_grants, user_grants, Entry, user_mappings, of_grant, of_mapping,
  with_fallback, effective_entries,
}
use overstate.Authz.Scopes.{
  resolve_scope, scope_group_members, glob_ids, grain_ids, snapshot_ids, snapshot_grains,
}
use overstate.Users.Grants.{add_grant}
use overstate.Authz.Flags.{fallback_on, rbac_flag}
use overstate.Authz.RoleCache.Ladder.{any-with_fallback}
use overstate.Authz.Decide.Agreement.{decide-any}

module _ {ℓ} {A : Type ℓ} where
  any_one_more :
      (c p : A → Bool) (xs : List A) (x : A)
      → any (λ y. c y && p y) (xs ++ x ∷ []) ≡ true
      → (any (λ y. c y && p y) xs ≡ true) ⊎ (p x ≡ true)
  unfolding any
  any_one_more c p xs x h = ground (arith, any-append (λ y. c y && p y) xs (x ∷ []))

module _ (w : World) (g : Grant) where
  covers_minion-add :
      (e : Entry) (asked : Option String)
      → covers_minion (add_grant g w) e asked ≡ covers_minion w e asked
  unfolding covers_minion resolve_scope scope_group_members glob_ids grain_ids snapshot_ids
      snapshot_grains
  covers_minion-add e none = refl
  covers_minion-add e (some mid) = refl

  entry_covers-add :
      (e : Entry) (perm : String) (asked path : Option String)
      → entry_covers (add_grant g w) e perm asked path ≡ entry_covers w e perm asked path
  unfolding entry_covers
  entry_covers-add e perm asked path = ground (arith, covers_minion-add e asked)

  user_grants-add :
      (q : Entry → Bool) (uid : ℕ)
      → any q (map of_grant (user_grants (add_grant g w) uid)) ≡ true
      → (any q (map of_grant (user_grants w uid)) ≡ true) ⊎ (q (of_grant g) ≡ true)
  unfolding user_grants
  user_grants-add q uid h =
      rw any-map-keep (any_one_more _ (λ x. q (of_grant x)) w.grants g (rw any-map-keep at h))

  group_grants-add :
      (q : Entry → Bool) (uid : ℕ)
      → any q (map of_grant (group_grants (add_grant g w) uid)) ≡ true
      → (any q (map of_grant (group_grants w uid)) ≡ true) ⊎ (q (of_grant g) ≡ true)
  unfolding group_grants
  group_grants-add q uid h =
      rw any-map-keep (any_one_more _ (λ x. q (of_grant x)) w.grants g (rw any-map-keep at h))

  abbrev parts : World → User → (Entry → Bool) → Bool
  parts x v q =
      any q (map of_grant (user_grants x v.id))
      || (any q (map of_grant (group_grants x v.id))
          || any q (map of_mapping (user_mappings w v.id)))

  entries-parts : (q : Entry → Bool) (v : User) → any q (grant_entries w v) ≡ parts w v q
  unfolding grant_entries
  entries-parts q v = rw (any-append, any-append) refl

  entries_add-parts :
      (q : Entry → Bool) (v : User)
      → any q (grant_entries (add_grant g w) v) ≡ parts (add_grant g w) v q
  unfolding grant_entries user_mappings
  entries_add-parts q v = rw (any-append, any-append) refl

  entries-add :
      (q : Entry → Bool) (v : User)
      → any q (grant_entries (add_grant g w) v) ≡ true
      → (any q (grant_entries w v) ≡ true) ⊎ (q (of_grant g) ≡ true)
  entries-add q v h = ground (
    arith,
    entries-parts q v,
    entries_add-parts q v,
    user_grants-add q v.id,
    group_grants-add q v.id,
  )

  fallback-add :
      (role : String) (es : List Entry)
      → with_fallback (add_grant g w) role es ≡ with_fallback w role es
  unfolding with_fallback fallback_on rbac_flag
  fallback-add role [] = refl
  fallback-add role (e ∷ es) = refl

  -- No entry is lost.
  user_grants-kept :
      (q : Entry → Bool) (uid : ℕ)
      → any q (map of_grant (user_grants w uid)) ≡ true
      → any q (map of_grant (user_grants (add_grant g w) uid)) ≡ true
  unfolding user_grants
  user_grants-kept q uid h = rw (any-map-keep, any-append) (ground (arith, rw any-map-keep at h))

  group_grants-kept :
      (q : Entry → Bool) (uid : ℕ)
      → any q (map of_grant (group_grants w uid)) ≡ true
      → any q (map of_grant (group_grants (add_grant g w) uid)) ≡ true
  unfolding group_grants
  group_grants-kept q uid h = rw (any-map-keep, any-append) (ground (arith, rw any-map-keep at h))

  entries-kept :
      (q : Entry → Bool) (v : User)
      → any q (grant_entries w v) ≡ true
      → any q (grant_entries (add_grant g w) v) ≡ true
  entries-kept q v h = ground (
    arith,
    entries-parts q v,
    entries_add-parts q v,
    user_grants-kept q v.id,
    group_grants-kept q v.id,
  )

  none_before :
      (es es' : List Entry)
      → (any (λ _. true) es ≡ true → any (λ _. true) es' ≡ true)
      → es' ≡ []
      → es ≡ []
  unfolding any
  none_before [] es' kept e = refl
  none_before (x ∷ es) es' kept e = absurd (cc (kept refl, ap (any (λ (_ : Entry). true)) e))

  fallback-more :
      (q : Entry → Bool) (role : String) (es es' : List Entry)
      → (any q es' ≡ true → (any q es ≡ true) ⊎ (q (of_grant g) ≡ true))
      → (any (λ _. true) es ≡ true → any (λ _. true) es' ≡ true)
      → any q (with_fallback w role es') ≡ true
      → (any q (with_fallback w role es) ≡ true) ⊎ (q (of_grant g) ≡ true)
  unfolding with_fallback
  fallback-more q role es [] more kept h = inl (rw (none_before es [] kept refl) h)
  fallback-more q role es (e ∷ es') more kept h = elim (more h) [
    | inl old ↦ inl (any-with_fallback w role q es old)
    | inr new ↦ inr new
  ]

  -- What a grant adds to the decisions is what its own entry covers.
  pub decide-add :
      (v : User) (perm : String) (asked path : Option String)
      → decide (add_grant g w) v perm asked path ≡ true
      → (decide w v perm asked path ≡ true) ⊎ (entry_covers w (of_grant g) perm asked path ≡ true)
  unfolding effective_entries
  decide-add v perm asked path h =
      let q : Entry → Bool = λ e. entry_covers w e perm asked path in
      let es = grant_entries w v in
      let es' = grant_entries (add_grant g w) v in
      let now : any q (with_fallback w v.role es') ≡ true =
        sym (any_congr _ q (with_fallback w v.role es') (λ e. entry_covers-add e perm asked path))
        ∙ (ap (λ xs. any (λ e. entry_covers (add_grant g w) e perm asked path) xs)
              (sym (fallback-add v.role es'))
            ∙ (sym (decide-any (add_grant g w) perm asked path v) ∙ h)) in
      elim (fallback-more q v.role es es' (entries-add q v) (entries-kept _ v) now) [
        | inl old ↦ inl (decide-any w perm asked path v ∙ old)
        | inr new ↦ inr new
      ]
