-- ===== src/Authz/Scopes/Laws.antt =====
-- overstate_ui/authz.py: what `_resolve_scope` resolves to, beside the snapshot.
use overstate.Prelude.{
  ◌≡◌, String, Bool, true, Option, none, some, List, [], ◌∷◌, map, keep, arith, inl, inr,
  Option-cases,
}
use overstate.Text.{parse_id}
use overstate.Json.{Json, arr}
use overstate.Sets.{contains, contains-from_list, contains-filter, contains-inter, contains-nil}
use overstate.Store.{World, Minion, MinionGroup, group_by_id, group_by_name}
use overstate.Authz.Grains.{match_grain}
use overstate.Authz.Scopes.{
  snapshot_ids, snapshot_grains, or_empty, grain_ids, glob_ids, known_members, scope_group_members,
  job_group_members, listed_ids, resolve_scope,
}

module _ (w : World) (mid : String) where
  known_members-snapshot :
      (g : Option MinionGroup)
      → contains (known_members w g) mid ≡ true
      → contains (snapshot_ids w) mid ≡ true
  known_members-snapshot none h = cc (contains-nil mid)
  known_members-snapshot (some g) h = let both = rw contains-inter at h in ground arith

  pub job_group-snapshot :
      (name : String)
      → contains (job_group_members w name) mid ≡ true
      → contains (snapshot_ids w) mid ≡ true
  unfolding job_group_members
  job_group-snapshot name h = known_members-snapshot (group_by_name w.minion_groups name) h

  scope_group-snapshot :
      (group_id : String)
      → contains (scope_group_members w group_id) mid ≡ true
      → contains (snapshot_ids w) mid ≡ true
  unfolding scope_group_members
  scope_group-snapshot group_id h = elim (Option-cases (parse_id group_id)) [
    | inl bad ↦ cc (rw (bad, scope_group_members) at h, contains-nil mid)
    | inr (gid, good) ↦
        known_members-snapshot (group_by_id w.minion_groups gid)
          (rw (good, scope_group_members) at h)
  ]

  listed-snapshot :
      (decoded : Option Json)
      → contains (listed_ids w decoded) mid ≡ true
      → contains (snapshot_ids w) mid ≡ true
  listed-snapshot (some (arr vs)) h = let both = rw contains-inter at h in ground arith
  listed-snapshot _ h = cc (contains-nil mid)

  pub glob-snapshot :
      (pattern : String)
      → contains (glob_ids w pattern) mid ≡ true
      → contains (snapshot_ids w) mid ≡ true
  unfolding glob_ids
  glob-snapshot pattern h = let both = rw contains-filter at h in ground arith

  kept_ids :
      (p : String × Json → Bool) (ms : List Minion)
      → contains (map (λ row. row.0) (keep p (map (λ m. (m.id, or_empty m.grains)) ms))) mid ≡ true
      → contains (map (λ m. m.id) ms) mid ≡ true
  unfolding keep contains
  kept_ids p [] h = h
  kept_ids p (m ∷ ms) h = ground (arith, kept_ids p ms)

  pub grain-snapshot :
      (expr : String)
      → contains (grain_ids w expr) mid ≡ true
      → contains (snapshot_ids w) mid ≡ true
  unfolding grain_ids snapshot_ids snapshot_grains
  grain-snapshot expr h =
      rw contains-from_list
        (kept_ids (λ row. match_grain row.1 expr) w.minions (rw contains-from_list at h))

  -- A scope resolves to minions of the snapshot, whatever its kind and value.
  pub resolve-snapshot :
      (scope_kind scope_value : String)
      → contains (resolve_scope w scope_kind scope_value) mid ≡ true
      → contains (snapshot_ids w) mid ≡ true
  unfolding resolve_scope
  resolve-snapshot kind value h = ground (
    arith,
    scope_group-snapshot value,
    listed-snapshot (w.json_loads value),
    glob-snapshot value,
    grain-snapshot value,
    contains-nil mid,
  )
