-- ===== src/Batch/Waves/Gate.antt =====
-- overstate_ui/tasks_batch.py: the failure gate of `run_wave_batch`.
use overstate.Prelude.{
  List, String, [], false, if-both, inl, inr, leb, refl, suc, true, ℕ, ◌+◌, ◌∷◌, ◌≡◌, ◌⊎◌,
}
use overstate.Batch.Waves.{
  failed, sent, skipped, publish_to, unauthorized, Batch, Outside, Progress, Step, failed_wave,
  run_wave, sent_wave, counted, go_on, checked_wave, stop, Published, published_wave, WaveCheck,
  after, run_waves,
}
use overstate.Batch.Split.{length}

-- A batch whose failures are below the limit.
abbrev pub IsOpen : Batch → Progress → Type 0
IsOpen b p = leb b.stop_after p.failures ≡ false

-- What a step leaves: going on below the limit, or a stop.
data Gated (b : Batch) : Step → Type 0 where
  below : {p : Progress} → IsOpen b p → Gated b (go_on p)
  over : {p : Progress} → leb b.stop_after p.failures ≡ true → Gated b (stop "stopped" p)
  refused : {p : Progress} → IsOpen b p → Gated b (stop "stopped" p)
  cancelled : {p : Progress} → IsOpen b p → Gated b (stop "cancelled" p)

module _ (o : Outside) (b : Batch) where
  failed-Gated :
      (num : ℕ) (targets : List String) (p : Progress) → Gated b (failed_wave b num targets p)
  unfolding failed_wave
  failed-Gated num targets p =
      if-both (Gated b) (leb b.stop_after (p.failures + length targets)) _ _ (λ e. over e)
        (λ e. below e)

  sent-Gated :
      (num : ℕ) (targets missed : List String) (p : Progress)
      → Gated b (sent_wave o b num targets missed p)
  unfolding sent_wave
  sent-Gated num targets missed p =
      if-both (Gated b) (leb b.stop_after (counted o b num targets missed p).failures) _ _
        (λ e. over e) (λ e. below e)

  checked-Gated :
      (num : ℕ) (p : Progress) (c : WaveCheck) → IsOpen b p → Gated b (checked_wave o b num p c)
  checked-Gated num p skipped h = below h
  checked-Gated num p (unauthorized detail) h = refused h
  checked-Gated num p (publish_to targets) h = published num p targets (o.publish num targets)
    where
      published :
          (num : ℕ) (p : Progress) (targets : List String) (answer : Published)
          → Gated b (published_wave o b num targets p answer)
      published num p targets failed = failed-Gated num targets p
      published num p targets (sent missed) = sent-Gated num targets missed p

  wave-Gated :
      (num : ℕ) (wave : List String) (p : Progress) → IsOpen b p → Gated b (run_wave o b num wave p)
  unfolding run_wave
  wave-Gated num wave p h =
      if-both (Gated b) (o.cancelled num) _ _ (λ _. cancelled h) (λ _. checked-Gated num p _ h)

  -- The end of a batch.
  abbrev pub IsSettled : String × Progress → Type 0
  IsSettled (status, p) =
      ((status ≡ "complete") × IsOpen b p)
      ⊎ ((status ≡ "cancelled") × IsOpen b p)
      ⊎ (status ≡ "stopped")

  after-IsSettled :
      (rest : Progress → String × Progress) (s : Step)
      → Gated b s
      → ((p : Progress) → IsOpen b p → IsSettled (rest p))
      → IsSettled (after rest s)
  after-IsSettled rest (go_on p) (below h) later = later p h
  after-IsSettled rest (stop status p) (over h) later = inr (inr refl)
  after-IsSettled rest (stop status p) (refused h) later = inr (inr refl)
  after-IsSettled rest (stop status p) (cancelled h) later = inr (inl (refl, h))

  pub waves-IsSettled :
      (num : ℕ) (waves : List (List String)) (p : Progress)
      → IsOpen b p
      → IsSettled (run_waves o b num waves p)
  unfolding run_waves
  waves-IsSettled num [] p h = inl (refl, h)
  waves-IsSettled num (wave ∷ waves) p h =
      after-IsSettled _ (run_wave o b num wave p) (wave-Gated num wave p h)
        (λ p' h'. waves-IsSettled (suc num) waves p' h')
