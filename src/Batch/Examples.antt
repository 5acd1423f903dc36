-- ===== src/Batch/Examples.antt =====
-- Batches on the sample fleet, and the theorems at concrete data.
use overstate.Prelude.{All, List, String, [], arith, false, map, refl, ◌<◌, ◌∷◌, ◌≡◌, ◌≤◌, ◌⊎◌}
use overstate.Authz.Examples.{runs}
use overstate.Batch.Split.{take, drop, length, slices, wave_size, split_roster}
use overstate.Batch.Waves.{
  sent, Batch, BatchState, Outside, run_wave_batch, user_by_name, check_batch_grant, check_actor,
  check_wave, failed_wave, counted, sent_wave, run_wave, run_waves,
}
use overstate.Batch.Split.Partition.{concat, IsWave, split_roster-partition}
use overstate.Batch.Waves.Authorized.{IsNthWave, IsOfWave, run_wave_batch-allowed}
use overstate.Text.Words.{text_at, digits_text, digits_of, next_digits, show_int}
use overstate.Authz.Sample.{site}
use overstate.Batch.Waves.Counted.{total, run_wave_batch-gate}

batches : Unit {0}
unfolding runs text_at digits_text digits_of next_digits show_int take drop length slices wave_size
    split_roster user_by_name check_batch_grant check_actor check_wave failed_wave counted sent_wave
    run_wave run_waves run_wave_batch total concat
batches = tt

three_waves :
    split_roster ("a" ∷ "b" ∷ "c" ∷ "d" ∷ "e" ∷ []) "percent" 30
    ≡ ("a" ∷ "b" ∷ []) ∷ ("c" ∷ "d" ∷ []) ∷ ("e" ∷ []) ∷ []
unfolding batches
three_waves = refl

-- Every publish is answered, and one return of two fails.
abbrev outside : Outside
outside = record {
  cancelled = λ num. false;
  world = λ num. site;
  publish = λ num targets. sent [];
  returned = λ jid. 1;
  failed_returns = λ jid. 1;
}

abbrev by_boss : Batch
by_boss = record { group = "g"; fun = "state.apply"; stop_after = 1; user = "boss" }

abbrev by_guest : Batch
by_guest = record { group = "g"; fun = "state.apply"; stop_after = 1; user = "guest" }

abbrev waves : List (List String)
waves = ("web-1" ∷ []) ∷ ("web-2" ∷ []) ∷ []

abbrev queued : BatchState
queued = record { failures = 0; waves_done = 0; status = "queued"; missing = 0 }

stopped_after_one :
    map (λ j. j.targets) (run_wave_batch outside by_boss waves queued).1.jobs ≡ ("web-1" ∷ []) ∷ []
unfolding batches
stopped_after_one = refl

revoked : map (λ j. j.targets) (run_wave_batch outside by_guest waves queued).1.jobs ≡ []
unfolding batches
revoked = refl

abbrev trio : List String
trio = "a" ∷ "b" ∷ "c" ∷ []

split_roster-partition_example :
    (concat (split_roster trio "count" 2) ≡ trio)
    × All (IsWave (wave_size (length trio) "count" 2)) (split_roster trio "count" 2)
split_roster-partition_example = split_roster-partition trio "count" 2

positive_limit : 1 ≤ by_boss.stop_after
positive_limit = omega arith

run_wave_batch-gate_example :
    let (status, p) = run_wave_batch outside by_boss waves queued in
    (p.failures ≡ total outside p.jobs)
    × (p.state.failures ≡ p.failures)
    × (p.state.status ≡ status)
    × (((status ≡ "complete") × (p.failures < by_boss.stop_after))
        ⊎ ((status ≡ "cancelled") × (p.failures < by_boss.stop_after))
        ⊎ (status ≡ "stopped"))
run_wave_batch-gate_example = run_wave_batch-gate outside by_boss waves queued positive_limit

run_wave_batch-allowed_example :
    All
      (IsOfWave outside by_boss (IsNthWave 1 waves))
      (run_wave_batch outside by_boss waves queued).1.jobs
run_wave_batch-allowed_example = run_wave_batch-allowed outside by_boss waves queued
