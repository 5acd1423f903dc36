-- ===== src/Users/Groups/Joining.antt =====
-- overstate_ui/users.py: new members of a local group that has grants.
use overstate.Prelude.{
  Bool, List, Option, String, any, any-append, any-map-keep, any_congr, any_mono, arith, keep, map,
  none, refl, some, subst, sym, true, ℕ, ◌&&◌, ◌==◌, ◌=?◌, ◌∙◌, ◌≡◌,
}
use overstate.Authz.Entries.{
  is_id, in_ids, Entry, of_grant, effective_entries, grant_entries, group_grants,
}
use overstate.Store.{World, LocalGroupMember, User, LocalGroup}
use overstate.Users.Groups.{
  edit_members_view, has_id, known_ids, posted_ids, members_of, replace_members, group_error,
  edited_members,
}
use overstate.Authz.Decide.{entry_covers, covers_minion, decide}
use overstate.Authz.Memo.{Memo}
use overstate.Users.Groups.Members.{
  in_group, in_group-replace_members, members_of-in_group, edited_page-access,
}
use overstate.Authz.Scopes.{
  resolve_scope, scope_group_members, glob_ids, grain_ids, snapshot_ids, snapshot_grains,
}
use overstate.Authz.Delegation.{delegate_group_error}
use overstate.Authz.Decide.Agreement.{decide-any}
use overstate.Authz.RoleCache.Ladder.{any-with_fallback}
use overstate.Users.Frame.{SameAccess-decide}

-- The entries of the group's grants that answer a question.
abbrev pub group_covers : World → ℕ → String → String → Option String → Bool
group_covers w gid perm mid path =
    any
      (λ g.
        (g.subject_kind == "local_group" && is_id g.subject_group_id gid)
        && entry_covers w (of_grant g) perm (some mid) path)
      w.grants

in_ids-hit :
    (o : Option ℕ) (gid : ℕ) (ids : List ℕ)
    → is_id o gid ≡ true
    → any (λ n. gid =? n) ids ≡ true
    → in_ids o ids ≡ true
in_ids-hit none gid ids h e = cc
in_ids-hit (some m) gid ids h e = any_mono (λ n. gid =? n) (λ n. m =? n) ids (λ n k. ground arith) e

module _ (w : World) (rows : List LocalGroupMember) where
  abbrev moved : World
  moved = record w { local_group_members = rows }

  covers_minion-moved :
      (e : Entry) (asked : Option String) → covers_minion moved e asked ≡ covers_minion w e asked
  unfolding covers_minion resolve_scope scope_group_members glob_ids grain_ids snapshot_ids
      snapshot_grains
  covers_minion-moved e none = refl
  covers_minion-moved e (some mid) = refl

  entry_covers-moved :
      (e : Entry) (perm : String) (asked path : Option String)
      → entry_covers moved e perm asked path ≡ entry_covers w e perm asked path
  unfolding entry_covers
  entry_covers-moved e perm asked path = ground (arith, covers_minion-moved e asked)

  module _ (gid : ℕ) (v : User) (member : in_group gid v.id rows ≡ true) where
    listed_group :
        any
          (λ n. gid =? n)
          (map (λ (r : LocalGroupMember). r.group_id) (keep (λ r. r.user_id =? v.id) rows))
        ≡ true
    unfolding in_group
    listed_group = rw any-map-keep (any_mono _ _ rows (λ r e. ground arith) member)

    group_grants-moved :
        (q : Entry → Bool)
        → any
            (λ g.
              (g.subject_kind == "local_group" && is_id g.subject_group_id gid) && q (of_grant g))
            w.grants
          ≡ true
        → any q (map of_grant (group_grants moved v.id)) ≡ true
    unfolding group_grants
    group_grants-moved q h =
        let ids = map (λ (r : LocalGroupMember). r.group_id) (keep (λ r. r.user_id =? v.id) rows) in
        rw any-map-keep (
          any_mono
            (λ g.
              (g.subject_kind == "local_group" && is_id g.subject_group_id gid) && q (of_grant g))
            (λ g.
              (g.subject_kind == "local_group" && in_ids g.subject_group_id ids) && q (of_grant g))
            w.grants
            (λ g e.
              ground (arith, in_ids-hit g.subject_group_id gid ids (ground arith) listed_group))
            h)

    entries-moved :
        (q : Entry → Bool)
        → any q (map of_grant (group_grants moved v.id)) ≡ true
        → any q (grant_entries moved v) ≡ true
    unfolding grant_entries
    entries-moved q h = rw (any-append, any-append) (ground arith)

    pub member-decide :
        (perm mid : String) (path : Option String)
        → group_covers w gid perm mid path ≡ true
        → decide moved v perm (some mid) path ≡ true
    unfolding effective_entries
    member-decide perm mid path h =
        let q : Entry → Bool = λ e. entry_covers w e perm (some mid) path in
        decide-any moved perm (some mid) path v
        ∙ (any_congr _ q (effective_entries moved v)
              (λ e. entry_covers-moved e perm (some mid) path)
            ∙ any-with_fallback moved v.role q (grant_entries moved v)
                (entries-moved q (group_grants-moved q h)))

-- A delegate may make anyone a member of a group that passes the group check, themselves included,
-- and the new member then holds what the group's grants authorize, whether the delegate held it or
-- not: the check of a group compares scopes and not permissions, and self-edits are not refused.
pub joined_member_holds :
    (w : World) (me v : User) (m : Memo) (gid : ℕ) (raws : List String) (group : LocalGroup)
    (perm mid : String) (path : Option String)
    → delegate_group_error w me gid ≡ none
    → has_id (known_ids w (posted_ids raws)) v.id ≡ true
    → group_covers w gid perm mid path ≡ true
    → decide (edit_members_view w me m gid raws (some group)).world v perm (some mid) path ≡ true
unfolding edit_members_view
joined_member_holds w me v m gid raws group perm mid path passed listed h =
    let wanted = known_ids w (posted_ids raws) in
    let current = members_of w gid in
    let rows = replace_members gid wanted current w.local_group_members in
    let let_in : group_error w me gid ≡ none = ground arith in
    let member =
      in_group-replace_members gid wanted current w.local_group_members v.id
        (members_of-in_group w gid v.id)
      ∙ listed in
    subst
      (λ (o : Option String).
        decide (edited_members w me m gid raws group o).world v perm (some mid) path ≡ true)
      (sym let_in)
      (SameAccess-decide _ _ (edited_page-access w me m gid group _ wanted) v perm (some mid) path
        ∙ member-decide w rows gid v member perm mid path h)
