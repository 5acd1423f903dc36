-- ===== src/Jobs/Verdicts/Status.antt =====
-- overstate_ui/states.py: the status that `apply_sync_verdicts` reads off a minion's return.
use overstate.Prelude.{
  List, All, Among, Bool, String, [], any, any-none, false, keep, true, ◌&&◌, ◌∷◌, ◌≡◌, any-Among,
  any-keep, any-kept, ap, arith, if-both, if◌then◌else◌, refl, subst, sym, ◌∙◌,
}
use overstate.Jobs.Verdicts.{
  whole_job, is_watched, narrow_to_watched, or_whole_job, state_drifts, state_maps, dict_or_empty,
  narrowed_status, returned_status,
}
use overstate.Jobs.{SaltReturn}
use overstate.Json.{Json, Fields, null, obj, bool, num, str, arr}
use overstate.Sets.{is_empty}

-- The states of a return; a payload that is no mapping has none.
abbrev pub states_of : Json → List Fields
states_of (obj fs) = state_maps fs
states_of _ = []

-- The status and the partial mark of a return. Without watched states, and in a payload that has
-- none of them, the success mark decides; else the watched states do.
pub data IsStatus (watched : List String) (r : SaltReturn) : String × Bool → Type 0 where
  whole : is_empty watched ≡ true → IsStatus watched r (whole_job r.success, false)
  not_watched :
      is_empty watched ≡ false
      → All (λ st. is_watched watched st ≡ false) (states_of r.payload)
      → IsStatus watched r (whole_job r.success, true)
  drifted :
      is_empty watched ≡ false
      → (st : Fields) → Among (states_of r.payload) st
      → is_watched watched st ≡ true
      → state_drifts st ≡ true
      → IsStatus watched r ("drifted", false)
  clean :
      is_empty watched ≡ false
      → (st : Fields) → Among (states_of r.payload) st
      → is_watched watched st ≡ true
      → All (λ s. (is_watched watched s && state_drifts s) ≡ false) (states_of r.payload)
      → IsStatus watched r ("ok", false)

kept_states :
    (watched : List String) (payload : Json)
    → narrow_to_watched (dict_or_empty payload) watched
      ≡ narrowed_status (keep (is_watched watched) (states_of payload))
unfolding narrow_to_watched state_maps keep
kept_states watched null = refl
kept_states watched (bool b) = refl
kept_states watched (num n) = refl
kept_states watched (str s) = refl
kept_states watched (arr xs) = refl
kept_states watched (obj fs) = refl

module _ (watched : List String) (r : SaltReturn) (wanted : is_empty watched ≡ false) where
  judged :
      (b : Bool)
      → any (λ st. is_watched watched st && state_drifts st) (states_of r.payload) ≡ b
      → any (is_watched watched) (states_of r.payload) ≡ true
      → IsStatus watched r (if b then "drifted" else "ok", false)
  judged true e seen =
      let (st, member, both) = any-Among _ (states_of r.payload) e in
      drifted wanted st member (ground arith) (ground arith)
  judged false e seen =
      let (st, member, watch) = any-Among _ (states_of r.payload) seen in
      clean wanted st member watch (any-none _ (states_of r.payload) e)

  selected :
      (kept : List Fields)
      → keep (is_watched watched) (states_of r.payload) ≡ kept
      → IsStatus watched r (or_whole_job r.success (narrowed_status kept))
  unfolding any
  selected [] e =
      let unseen = any-kept (is_watched watched) (states_of r.payload) in
      not_watched wanted (any-none (is_watched watched) _ (unseen ∙ ap (any (λ _. true)) e))
  selected (st ∷ sts) e =
      let seen = any-kept (is_watched watched) (states_of r.payload) ∙ ap (any (λ _. true)) e in
      let found = any-keep state_drifts (is_watched watched) (states_of r.payload) in
      judged (any state_drifts (st ∷ sts)) (sym found ∙ ap (any state_drifts) e) seen

  narrowed :
      IsStatus watched r
        (or_whole_job r.success (narrow_to_watched (dict_or_empty r.payload) watched))
  narrowed =
      subst (λ n. IsStatus watched r (or_whole_job r.success n))
        (sym (kept_states watched r.payload)) (selected _ refl)

pub returned_status-IsStatus :
    (watched : List String) (r : SaltReturn) → IsStatus watched r (returned_status watched r)
unfolding returned_status
returned_status-IsStatus watched r =
    if-both (IsStatus watched r) (is_empty watched) (whole_job r.success, false) _ whole
      (λ wanted. narrowed watched r wanted)
