-- ===== src/Login/Budget/Window.antt =====
-- overstate_ui/auth.py: runs of login attempts against the budget in memory.
use overstate.Prelude.{
  Bool, List, String, [], ap, arith, eq_iff, if◌then◌else◌, keep, ltb, map, refl, ℕ, ◌++◌, ◌+◌, ◌-◌,
  ◌==◌, ◌∷◌, ◌≡◌, ◌≤◌, Bool-cases, false, if-both, inl, inr, leb, subst, sym, true, ◌∙◌,
}
use overstate.Batch.Split.{length}
use overstate.Login.Budget.{hits_of, live, memory_limited, set_hits}
use overstate.Users.Writes.Anchor.{keep-keep}

-- The attempts that were let through, oldest first, and the table.
abbrev State : Type 0
State = List (String × ℕ) × List (String × List ℕ)

unfoldable pub attempt : ℕ → ℕ → String × ℕ → State → State
attempt limit window (key, now) (passed, rows) =
    let (limited, rows') = memory_limited rows key limit window now in
    if limited then (passed, rows') else (passed ++ (key, now) ∷ [], rows')

unfoldable pub attempts_from : ℕ → ℕ → List (String × ℕ) → State → State
attempts_from limit window [] s = s
attempts_from limit window (a ∷ rest) s = attempts_from limit window rest (attempt limit window a s)

-- The times of a key among attempts.
unfoldable pub times_of : String → List (String × ℕ) → List ℕ
times_of key passed = map (λ a. a.1) (keep (λ a. a.0 == key) passed)

-- The clock never runs back.
abbrev pub IsOrdered : ℕ → List (String × ℕ) → Type 0
IsOrdered now [] = Unit
IsOrdered now (a ∷ rest) = (now ≤ a.1) × IsOrdered a.1 rest

-- The last time of a run.
unfoldable pub last_time : ℕ → List (String × ℕ) → ℕ
last_time now [] = now
last_time now (a ∷ rest) = last_time a.1 rest

hits_of-set :
    (key k : String) (hits : List ℕ) (rows : List (String × List ℕ))
    → hits_of (set_hits key hits rows) k ≡ (if key == k then hits else hits_of rows k)
unfolding hits_of set_hits
hits_of-set key k hits [] = ground arith
hits_of-set key k hits ((j, old) ∷ rows) =
    ground (arith, hits_of-set key k hits rows, eq_iff j key, eq_iff j k, eq_iff key k)

length-keep : (p : ℕ → Bool) (xs : List ℕ) → length (keep p xs) ≤ length xs
unfolding keep length
length-keep p [] = omega arith
length-keep p (x ∷ xs) = let rest = length-keep p xs in ground arith

length-append : (xs ys : List ℕ) → length (xs ++ ys) ≡ length xs + length ys
unfolding length
length-append [] ys = omega arith
length-append (x ∷ xs) ys = let rest = length-append xs ys in omega arith

keep-append {ℓ} :
    {A : Type ℓ} (p : A → Bool) (xs ys : List A) → keep p (xs ++ ys) ≡ keep p xs ++ keep p ys
unfolding keep
keep-append p [] ys = refl
keep-append p (x ∷ xs) ys = ground (arith, keep-append p xs ys)

map-append {ℓ κ} :
    {A : Type ℓ} {B : Type κ} (f : A → B) (xs ys : List A) → map f (xs ++ ys) ≡ map f xs ++ map f ys
map-append f [] ys = refl
map-append f (x ∷ xs) ys = ap (λ zs. f x ∷ zs) (map-append f xs ys)

append_nil : (xs : List ℕ) → xs ++ [] ≡ xs
append_nil [] = refl
append_nil (x ∷ xs) = ap (λ ys. x ∷ ys) (append_nil xs)

times_of-append :
    (key k : String) (now : ℕ) (passed : List (String × ℕ))
    → times_of k (passed ++ (key, now) ∷ [])
      ≡ (if key == k then times_of k passed ++ now ∷ [] else times_of k passed)
unfolding times_of keep
times_of-append key k now passed =
    rw (keep-append, map-append)
      (elim (Bool-cases (key == k)) [
        | inl e ↦ rw e refl
        | inr e ↦ rw e (append_nil (map (λ a. a.1) (keep (λ a. a.0 == k) passed)))
      ])

module _ (limit window : ℕ) where
  live-later :
      (now later : ℕ) (hits : List ℕ)
      → now ≤ later
      → live window later (live window now hits) ≡ live window later hits
  unfolding live
  live-later now later hits h =
      keep-keep (λ t. ltb (later - t) window) (λ t. ltb (now - t) window) hits (λ t e. ground arith)

  -- The table tells the same live hits as the attempts let through, and they fit the budget.
  record IsKept (now : ℕ) (s : State) : Type 0 where
    tells : (key : String) → live window now (hits_of s.1 key) ≡ live window now (times_of key s.0)
    fits : (key : String) → length (live window now (times_of key s.0)) ≤ limit

  empty-IsKept : (now : ℕ) → IsKept now ([], [])
  unfolding live hits_of times_of keep length
  empty-IsKept now = record { tells = λ key. refl; fits = λ key. omega arith }

  module _ (key : String) (now later : ℕ) (passed : List (String × ℕ))
      (rows : List (String × List ℕ)) (kept : IsKept now (passed, rows)) (h : now ≤ later) where
    told : (k : String) → live window later (hits_of rows k) ≡ live window later (times_of k passed)
    told k =
        sym (live-later now later (hits_of rows k) h)
        ∙ (ap (live window later) (kept.tells k) ∙ live-later now later (times_of k passed) h)

    fewer : (k : String) → length (live window later (times_of k passed)) ≤ limit
    fewer k =
        let shorter : length (live window later (live window now (times_of k passed)))
            ≤ length (live window now (times_of k passed)) =
          unfold live in length-keep _ _ in
        let same = ap length (live-later now later (times_of k passed) h) in
        let before = kept.fits k in omega arith

    abbrev now_live : List ℕ
    now_live = live window later (hits_of rows key)

    limited-IsKept : IsKept later (passed, set_hits key now_live rows)
    limited-IsKept = record {
      tells = λ k. rw hits_of-set (
          if-both (λ x. live window later x ≡ live window later (times_of k passed)) (key == k) _ _
            (λ e.
              live-later later later (hits_of rows key) (omega arith)
              ∙ subst
                  (λ j. live window later (hits_of rows j) ≡ live window later (times_of k passed))
                  (sym ((eq_iff key k).0 e)) (told k))
            (λ _. told k));
      fits = fewer;
    }

    live-append :
        (xs ys : List ℕ)
        → live window later (xs ++ ys) ≡ live window later xs ++ live window later ys
    unfolding live
    live-append xs ys = keep-append _ xs ys

    added : (k : String) → length (live window later (later ∷ [])) ≤ 1
    unfolding live keep length
    added k = ground arith

    passed-IsKept :
        leb limit (length now_live) ≡ false
        → IsKept later (passed ++ (key, later) ∷ [], set_hits key (now_live ++ later ∷ []) rows)
    passed-IsKept free = record {
      tells = λ k.
          rw (hits_of-set, times_of-append)
            (elim (Bool-cases (key == k)) [
              | inl e ↦ rw e (
                  live-append now_live (later ∷ [])
                  ∙ (ap (λ x. x ++ live window later (later ∷ []))
                        (live-later later later (hits_of rows key) (omega arith)
                          ∙ subst
                              (λ j.
                                live window later (hits_of rows j)
                                ≡ live window later (times_of k passed))
                              (sym ((eq_iff key k).0 e)) (told k))
                      ∙ sym (live-append (times_of k passed) (later ∷ []))))
              | inr other ↦ rw other (told k)
            ]);
      fits = λ k. rw times_of-append (elim (Bool-cases (key == k)) [
        | inl e ↦
            rw (e, live-append, length-append)
              (let few = added k in
                let same = ap length (told k) in
                let there : length (live window later (hits_of rows k)) ≡ length now_live =
                  ap (λ j. length (live window later (hits_of rows j)))
                    (sym ((eq_iff key k).0 e)) in
                ground arith)
        | inr other ↦ rw other (fewer k)
      ]);
    }

  attempt-IsKept :
      (key : String) (now later : ℕ) (s : State)
      → IsKept now s
      → now ≤ later
      → IsKept later (attempt limit window (key, later) s)
  unfolding attempt memory_limited
  attempt-IsKept key now later (passed, rows) kept h =
      let hits = live window later (hits_of rows key) in
      if-both
        (λ (r : Bool × List (String × List ℕ)).
          IsKept later (if r.0 then (passed, r.1) else (passed ++ (key, later) ∷ [], r.1)))
        (leb limit (length hits)) (true, set_hits key hits rows)
        (false, set_hits key (hits ++ later ∷ []) rows)
        (λ _. limited-IsKept key now later passed rows kept h)
        (λ free. passed-IsKept key now later passed rows kept h free)

  attempts-IsKept :
      (tries : List (String × ℕ)) (now : ℕ) (s : State)
      → IsKept now s
      → IsOrdered now tries
      → IsKept (last_time now tries) (attempts_from limit window tries s)
  unfolding attempts_from last_time
  attempts-IsKept [] now s kept ordered = kept
  attempts-IsKept ((key, later) ∷ rest) now s kept (h, ordered) =
      attempts-IsKept rest later (attempt limit window (key, later) s)
        (attempt-IsKept key now later s kept h) ordered

-- In any run of attempts whose times do not run back, at most `limit` attempts of one key are let
-- through within the window that ends at the last of them.
pub attempts-bounded :
    (limit window start : ℕ) (tries : List (String × ℕ)) (key : String)
    → IsOrdered start tries
    → length (
        live window
          (last_time start tries)
          (times_of key (attempts_from limit window tries ([], [])).0))
      ≤ limit
attempts-bounded limit window start tries key ordered =
    (attempts-IsKept limit window tries start ([], []) (empty-IsKept limit window start)
        ordered).fits
      key
