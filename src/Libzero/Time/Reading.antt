-- ===== src/Libzero/Time/Reading.antt =====
-- What a reader of libzero/src/time.rs gets while the writer works, and how old it may be.
use native.Mathlib.Nat.{div-lt_iff_lt-mul}
use project_zero.Base.{
  eq_or_ne, List, [], ◌∷◌, ℕ, zero, suc, ◌+◌, ◌-◌, ◌*◌, ◌/◌, ◌%◌, ◌^◌, ◌≤◌, ◌<◌, ◌≡◌, ◌≢◌, subst,
  refl, sym, ap, ◌∙◌, arith, ◌==◌, leb, ok, false, Bool-cases, inl, inr, ◌↔◌,
}
use project_zero.Libzero.Time.{
  publish, TimeObservationFrame, TimeObservation, read_from, read_observation, evaluate_freshness,
  sequence_terminal_latch,
}
use project_zero.Libzero.Time.Writer.{Writes, sequence-Writes, Writes-even}

quotient_lt : (x f n : ℕ) → f ≢ 0 → (x / f < n) ↔ (x < n * f)
quotient_lt x f n h = div-lt_iff_lt-mul (omega arith)

add_zero : (t : ℕ) → t + 0 ≡ t
add_zero t = omega arith

add_suc : (t n : ℕ) → t + suc n ≡ suc (t + n)
add_suc t n = omega arith

add_assoc : (t n r : ℕ) → t + (n + r) ≡ t + n + r
add_assoc t n r = omega arith

module _ (memory : ℕ → TimeObservationFrame)
    (writes : (t : ℕ) → Writes (memory t) (memory (suc t))) where
  -- The counter does not fall over any number of moments.
  sequence-later : (t n : ℕ) → (memory t).sequence ≤ (memory (t + n)).sequence
  sequence-later t zero =
      subst (λ k. (memory t).sequence ≤ (memory k).sequence) (sym (add_zero t)) (omega arith)
  sequence-later t (suc n) =
      subst (λ k. (memory t).sequence ≤ (memory k).sequence) (sym (add_suc t n))
        (omega (arith, sequence-later t n, sequence-Writes (writes (t + n))))

  -- Where the counter is even and the same at two moments, so is the memory.
  quiet :
      (t n : ℕ)
      → (memory t).sequence % 2 ≡ 0
      → (memory (t + n)).sequence ≡ (memory t).sequence
      → memory (t + n) ≡ memory t
  quiet t zero even same = ap memory (add_zero t)
  quiet t (suc n) even same =
      let same' : (memory (suc (t + n))).sequence ≡ (memory t).sequence =
        subst (λ k. (memory k).sequence ≡ (memory t).sequence) (add_suc t n) same in
      let grown = sequence-Writes (writes (t + n)) in
      let before : (memory (t + n)).sequence ≡ (memory t).sequence =
        omega (arith, sequence-later t n, grown, same') in
      let stays = Writes-even (writes (t + n)) (omega (arith, before, even)) (same' ∙ sym before) in
      ap memory (add_suc t n) ∙ stays ∙ quiet t n even before

  -- And so it is at a moment between.
  quiet_between :
      (t n r : ℕ)
      → (memory t).sequence % 2 ≡ 0
      → (memory (t + (n + r))).sequence ≡ (memory t).sequence
      → memory (t + n) ≡ memory t
  quiet_between t n r even same =
      let late : (memory (t + n + r)).sequence ≡ (memory t).sequence =
        subst (λ k. (memory k).sequence ≡ (memory t).sequence) (add_assoc t n r) same in
      quiet t n even (omega (arith, sequence-later t n, sequence-later (t + n) r, late))

  -- Each of the eight loads of a round that succeeds reads the same memory.
  pub read_from_lem :
      (left t : ℕ) (obs : TimeObservation)
      → read_from left t memory ≡ ok obs
      → (s : ℕ) × (obs ≡ memory s) × (obs.sequence % 2 ≡ 0)
  unfolding read_from
  read_from_lem zero t obs h = absurd cc
  read_from_lem (suc left) t obs h =
      let f = memory t in
      elim (Bool-cases (f.sequence == sequence_terminal_latch)) [
        | inl a ↦ absurd (ground arith)
        | inr a ↦ elim (Bool-cases (f.sequence % 2 == 1)) [
          | inl o ↦ read_from_lem left (t + 1) obs (ground arith)
          | inr o ↦ elim (Bool-cases (f.sequence == (memory (t + 7)).sequence)) [
            | inr e ↦ read_from_lem left (t + 8) obs (ground arith)
            | inl e ↦
                let even : f.sequence % 2 ≡ 0 = ground arith in
                let same : (memory (t + 7)).sequence ≡ f.sequence = ground arith in
                let e1 = quiet_between t 1 6 even same in
                let e2 = quiet_between t 2 5 even same in
                let e3 = quiet_between t 3 4 even same in
                let e4 = quiet_between t 4 3 even same in
                let e5 = quiet_between t 5 2 even same in
                let e6 = quiet_between t 6 1 even same in
                let whole : read_from (suc left) t memory ≡ ok f =
                  rw (e1, e2, e3, e4, e5, e6) (ground arith) in
                (t, ground (arith, whole), ground (arith, whole))
          ]
        ]
      ]

  -- An observation that a reader gets while the writer works, with any number of steps between two
  -- loads, is the memory at one of the reader's moments, under an even counter: no field comes from
  -- another moment.
  pub read_observation_lem :
      (obs : TimeObservation)
      → read_observation memory ≡ ok obs
      → (s : ℕ) × (obs ≡ memory s) × (obs.sequence % 2 ≡ 0)
  unfolding read_observation
  read_observation_lem obs h = read_from_lem 10001 0 obs h

abbrev pub last_of : TimeObservationFrame → List TimeObservationFrame → TimeObservationFrame
last_of f [] = f
last_of f (g ∷ gs) = g

read_quiet_from :
    (left : ℕ) (g : TimeObservationFrame)
    → g.sequence ≢ sequence_terminal_latch
    → g.sequence % 2 ≡ 0
    → read_from (suc left) 0 (λ t. g) ≡ ok g
unfolding read_from
read_quiet_from left g n even = ground arith

-- A memory that does not change is read as it is.
read_quiet :
    (g : TimeObservationFrame)
    → g.sequence ≢ sequence_terminal_latch
    → g.sequence % 2 ≡ 0
    → read_observation (λ t. g) ≡ ok g
unfolding read_observation
read_quiet g n even = read_quiet_from 10000 g n even

publish_last :
    (a b c d x y : ℕ) (f : TimeObservationFrame)
    → f.sequence % 2 ≡ 0
    → f.sequence + 1 < 2 ^ 64 - 2
    → ((publish a b c d x y f).0 ≡ ok tt)
      × (last_of f (publish a b c d x y f).1 ≡ record {
        sequence = f.sequence + 2;
        boot_epoch = a;
        monotonic_ticks = b;
        frequency_hz = c;
        capture_tsc = d;
        max_drift_ns = x;
        qualification_flags = y;
      })
unfolding publish
publish_last a b c d x y f even l =
    let running : (f.sequence == 2 ^ 64 - 1) ≡ false = ground arith in
    let valid : leb (2 ^ 64 - 2) (f.sequence + 1) ≡ false = ground arith in
    rw (running, valid) (refl, refl)

-- From an even counter below the last, publishing succeeds, and a reader that no store disturbs gets
-- the published values under the next even counter.
pub read_observation-publish :
    (a b c d x y : ℕ) (f : TimeObservationFrame)
    → f.sequence % 2 ≡ 0
    → f.sequence + 1 < 2 ^ 64 - 2
    → ((publish a b c d x y f).0 ≡ ok tt)
      × (read_observation (λ t. last_of f (publish a b c d x y f).1)
          ≡ ok (record {
            sequence = f.sequence + 2;
            boot_epoch = a;
            monotonic_ticks = b;
            frequency_hz = c;
            capture_tsc = d;
            max_drift_ns = x;
            qualification_flags = y;
          }))
read_observation-publish a b c d x y f even l =
    let (done, last) = publish_last a b c d x y f even l in
    (
      done,
      ap (λ (g : TimeObservationFrame). read_observation (λ t. g)) last
          ∙ read_quiet _ (λ e. omega arith) (omega arith),
    )

-- An observation counts as fresh exactly where it is not from the future, has a frequency, its age in
-- ticks times 1000 is a u64, and it is less than 51 milliseconds old: the age is rounded down to whole
-- milliseconds before it is held against the 50 that are allowed, so that ages between 50 and 51
-- milliseconds count as fresh too.
pub evaluate_freshness_lem :
    (obs : TimeObservation) (t : ℕ)
    → (evaluate_freshness obs t ≡ ok tt) ↔ (
        (obs.capture_tsc ≤ t)
        × (obs.frequency_hz ≢ 0)
        × ((t - obs.capture_tsc) * 1000 < 2 ^ 64)
        × ((t - obs.capture_tsc) * 1000 < 51 * obs.frequency_hz))
unfolding evaluate_freshness
evaluate_freshness_lem obs t = elim (eq_or_ne obs.frequency_hz 0) [
  | inl z ↦ (λ h. absurd (ground arith), λ h. absurd (h.1 z))
  | inr f ↦
      let (down, up) = quotient_lt ((t - obs.capture_tsc) * 1000) obs.frequency_hz 51 f in
      (λ h. (ground arith, f, ground arith, down (ground arith)), λ h. ground (arith, up h.3))
]
