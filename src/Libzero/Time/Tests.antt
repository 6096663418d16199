-- ===== src/Libzero/Time/Tests.antt =====
-- Runs of libzero/src/time.rs: a reader that begins under an odd counter, and the age of a snapshot.
use project_zero.Base.{ℕ, zero, suc, ◌-◌, ◌*◌, ◌^◌, ◌%◌, ◌≤◌, ◌<◌, ◌≡◌, ◌≢◌, refl, arith, ok, ◌↔◌}
use project_zero.Libzero.Time.{
  TimeObservationFrame, read_from, read_observation, publish, evaluate_freshness,
}
use project_zero.Libzero.Time.Writer.{
  Writes, nothing, and_then, payload, advance, Steps, publish-Steps,
}
use project_zero.Libzero.Time.Reading.{
  read_observation_lem, read_observation-publish, evaluate_freshness_lem, last_of,
}

abbrev at_sequence : ℕ → TimeObservationFrame
at_sequence n = record {
  sequence = n;
  boot_epoch = 1;
  monotonic_ticks = 900;
  frequency_hz = 1000000;
  capture_tsc = 5000;
  max_drift_ns = 2;
  qualification_flags = 7;
}

-- The writer ends its work after the first moment, publishes once more before the second one, and
-- then rests.
abbrev memory : ℕ → TimeObservationFrame
memory zero = at_sequence 1
memory (suc t) = at_sequence 4

memory-Writes : (t : ℕ) → Writes (memory t) (memory (suc t))
memory-Writes zero =
    and_then {g = at_sequence 3}
      (and_then {g = at_sequence 3}
        (and_then {g = at_sequence 2} (and_then {g = at_sequence 1} nothing (advance refl))
          (advance refl))
        (payload refl refl))
      (advance refl)
memory-Writes (suc t) = nothing

memory_read : read_observation memory ≡ ok (at_sequence 4)
unfolding read_observation read_from
memory_read = refl

read_observation_example : (s : ℕ) × (at_sequence 4 ≡ memory s) × ((at_sequence 4).sequence % 2 ≡ 0)
read_observation_example = read_observation_lem memory memory-Writes (at_sequence 4) memory_read

publish-Steps_example : Steps (at_sequence 2) (publish 1 950 1000000 6000 2 7 (at_sequence 2)).1
publish-Steps_example = publish-Steps 1 950 1000000 6000 2 7 (at_sequence 2) refl (ground arith)

read_observation-publish_example :
    ((publish 1 950 1000000 6000 2 7 (at_sequence 2)).0 ≡ ok tt)
    × (read_observation
          (λ t. last_of (at_sequence 2) (publish 1 950 1000000 6000 2 7 (at_sequence 2)).1)
        ≡ ok (record {
          sequence = 4;
          boot_epoch = 1;
          monotonic_ticks = 950;
          frequency_hz = 1000000;
          capture_tsc = 6000;
          max_drift_ns = 2;
          qualification_flags = 7;
        }))
read_observation-publish_example =
    read_observation-publish 1 950 1000000 6000 2 7 (at_sequence 2) refl (ground arith)

evaluate_freshness_example : (evaluate_freshness (at_sequence 2) 9000 ≡ ok tt) ↔ (
    (5000 ≤ 9000)
    × ((at_sequence 2).frequency_hz ≢ 0)
    × ((9000 - 5000) * 1000 < 2 ^ 64)
    × ((9000 - 5000) * 1000 < 51 * 1000000))
evaluate_freshness_example = evaluate_freshness_lem (at_sequence 2) 9000
