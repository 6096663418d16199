-- ===== src/Libzero/Time.antt =====
-- libzero/src/time.rs: the time observation that one writer publishes under a sequence counter. A
-- load reads the memory of its moment, so that a reader works on a function from moments to frames;
-- the loads and stores are taken in one order.
pub mod Writer
pub mod Reading
mod Tests
use project_zero.Base.{
  ℕ, zero, suc, ◌+◌, ◌-◌, ◌*◌, ◌/◌, ◌%◌, ◌^◌, Bool, List, [], ◌∷◌, Outcome, ok, err, ltb, leb, ◌==◌,
  if◌then◌else◌,
}
use project_zero.Base.Words.{u64_mod}
use project_zero.Libzero.Error.{
  ZeroError, time_authority_unavailable, time_observation_stale, hardware_regression_detected,
}

abbrev pub sequence_terminal_latch : ℕ
sequence_terminal_latch = 2 ^ 64 - 1

abbrev pub sequence_max_valid_even : ℕ
sequence_max_valid_even = 2 ^ 64 - 2

abbrev pub max_time_observation_age_ms : ℕ
max_time_observation_age_ms = 50

pub record TimeObservationFrame : Type 0 where
  pub sequence : ℕ  -- u64
  pub boot_epoch : ℕ  -- u64
  pub monotonic_ticks : ℕ  -- u64
  pub frequency_hz : ℕ  -- u64
  pub capture_tsc : ℕ  -- u64
  pub max_drift_ns : ℕ  -- u32
  pub qualification_flags : ℕ  -- u32

-- A snapshot has the same fields.
abbrev pub TimeObservation : Type 0
TimeObservation = TimeObservationFrame

-- The loop of `read_observation` from a moment on, with the rounds that are left. A round whose
-- counter is odd ends after its first load; the payload is loaded in the six moments that follow.
pub read_from : ℕ → ℕ → (ℕ → TimeObservationFrame) → Outcome ZeroError TimeObservation
read_from zero t memory = err time_authority_unavailable
read_from (suc left) t memory =
    let seq1 = (memory t).sequence in
    let again = read_from left (t + 1) memory in
    let retry = read_from left (t + 8) memory in
    if seq1 == sequence_terminal_latch
    then err time_authority_unavailable
    else if seq1 % 2 == 1
    then again
    else if seq1 == (memory (t + 7)).sequence
    then ok (record {
      sequence = seq1;
      boot_epoch = (memory (t + 1)).boot_epoch;
      monotonic_ticks = (memory (t + 2)).monotonic_ticks;
      frequency_hz = (memory (t + 3)).frequency_hz;
      capture_tsc = (memory (t + 4)).capture_tsc;
      max_drift_ns = (memory (t + 5)).max_drift_ns;
      qualification_flags = (memory (t + 6)).qualification_flags;
    })
    else retry

-- The retry that brings the count above 10000 gives up.
pub read_observation : (ℕ → TimeObservationFrame) → Outcome ZeroError TimeObservation
read_observation = read_from 10001 0

-- `publish`: its outcome, and the memory after each of its stores, the last one in front.
pub publish :
    ℕ
    → ℕ
    → ℕ
    → ℕ
    → ℕ
    → ℕ
    → TimeObservationFrame
    → Outcome ZeroError (Unit {0}) × List TimeObservationFrame
publish boot_epoch monotonic_ticks frequency_hz capture_tsc max_drift_ns qualification_flags f =
    if f.sequence == sequence_terminal_latch
    then (err time_authority_unavailable, [])
    else if leb sequence_max_valid_even (f.sequence + 1)
    then (err time_authority_unavailable, record f { sequence = sequence_terminal_latch } ∷ [])
    else let f1 = record f { sequence = f.sequence + 1 } in
      let f2 = record f1 { boot_epoch = boot_epoch } in
      let f3 = record f2 { monotonic_ticks = monotonic_ticks } in
      let f4 = record f3 { frequency_hz = frequency_hz } in
      let f5 = record f4 { capture_tsc = capture_tsc } in
      let f6 = record f5 { max_drift_ns = max_drift_ns } in
      let f7 = record f6 { qualification_flags = qualification_flags } in
      let f8 = record f7 { sequence = f.sequence + 2 } in
      (ok tt, f8 ∷ f7 ∷ f6 ∷ f5 ∷ f4 ∷ f3 ∷ f2 ∷ f1 ∷ [])

abbrev pub latch_terminal_regression : TimeObservationFrame → TimeObservationFrame
latch_terminal_regression f = record f { sequence = sequence_terminal_latch }

-- The age in milliseconds; a product that exceeds a u64 counts as the oldest age.
abbrev pub age_ms : TimeObservation → ℕ → ℕ
age_ms obs t_hardware_eval =
    let delta_tsc = t_hardware_eval - obs.capture_tsc in
    if ltb (delta_tsc * 1000) u64_mod then delta_tsc * 1000 / obs.frequency_hz else u64_mod - 1

pub evaluate_freshness : TimeObservation → ℕ → Outcome ZeroError (Unit {0})
evaluate_freshness obs t_hardware_eval =
    if ltb t_hardware_eval obs.capture_tsc
    then err hardware_regression_detected
    else if obs.frequency_hz == 0
    then err time_authority_unavailable
    else if ltb max_time_observation_age_ms (age_ms obs t_hardware_eval)
    then err time_observation_stale
    else ok tt
