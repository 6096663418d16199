-- ===== src/Kernel/Pmm/Scan.antt =====
-- The scan of kernel/src/mm/pmm.rs over the words against a plain search of the frames one by one.
use project_zero.Base.{
  ℕ, zero, suc, ◌+◌, ◌*◌, ◌/◌, ◌%◌, ◌<◌, ◌≤◌, ◌≡◌, ◌≢◌, refl, sym, ap, ◌∙◌, arith, ◌==◌, leb, true,
  false, Option, none, some, Option-cases, Bool-cases, if◌then◌else◌, inl, inr, get_or,
}
use project_zero.Kernel.Pmm.{
  FrameState, free, allocated, reserved, unusable, is_free, from_bits, get_state,
  PhysicalMemoryManager, pair_at, active_mask, free_from, scan_words,
}
use project_zero.Kernel.Pmm.Pairs.{active_mask-full, full_mask, pair_at_lt}

-- The lowest free frame below a number.
unfoldable pub lowest_free : ℕ → PhysicalMemoryManager → Option ℕ
lowest_free zero m = none
lowest_free (suc n) m = elim (lowest_free n m) [
  | some i ↦ some i
  | none ↦ if is_free (get_state n m) then some n else none
]

pub is_free_sound : (s : FrameState) → is_free s ≡ true → s ≡ free
is_free_sound free h = refl
is_free_sound allocated h = absurd cc
is_free_sound reserved h = absurd cc
is_free_sound unusable h = absurd cc

is_free-false : (s : FrameState) → s ≢ free → is_free s ≡ false
is_free-false free h = absurd (h refl)
is_free-false allocated h = refl
is_free-false reserved h = refl
is_free-false unusable h = refl

from_bits_busy : (p : ℕ) → p < 4 → p ≢ 0 → from_bits p ≢ free
from_bits_busy zero l h = absurd (h refl)
from_bits_busy (suc zero) l h = λ e. cc
from_bits_busy (suc (suc zero)) l h = λ e. cc
from_bits_busy (suc (suc (suc zero))) l h = λ e. cc
from_bits_busy (suc (suc (suc (suc p)))) l h = absurd (omega arith)

-- It is free, and below the number.
pub lowest_free-some :
    (n : ℕ) (m : PhysicalMemoryManager) (i : ℕ)
    → lowest_free n m ≡ some i
    → (i < n) × (get_state i m ≡ free)
unfolding lowest_free
lowest_free-some zero m i h = absurd cc
lowest_free-some (suc n) m i h = elim (Option-cases (lowest_free n m)) [
  | inl e ↦ elim (Bool-cases (is_free (get_state n m))) [
    | inl f ↦ ground (arith, is_free_sound (get_state n m) f)
    | inr f ↦ ground arith
  ]
  | inr (k, e) ↦ ground (arith, lowest_free-some n m i)
]

add_zero : (a : ℕ) → a + 0 ≡ a
add_zero a = omega arith

suc_times : (n : ℕ) → suc n * 32 ≡ 32 + n * 32
suc_times n = omega arith

times_suc : (i : ℕ) → i * 32 + 32 ≡ (i + 1) * 32
times_suc i = omega arith

one_more : (n : ℕ) → n + 1 ≡ suc n
one_more n = omega arith

suc_add : (a b : ℕ) → suc a + b ≡ suc (a + b)
suc_add a b = omega arith

add_suc : (a b : ℕ) → (a + 1) + b ≡ a + suc b
add_suc a b = omega arith

module _ (m : PhysicalMemoryManager) where
  pub free_from-beyond : (n idx : ℕ) → m.tracked_frames ≤ idx → free_from n idx m ≡ none
  unfolding free_from
  free_from-beyond zero idx h = refl
  free_from-beyond (suc n) idx h = ground arith

  -- A search goes on behind another that finds nothing.
  pub free_from-add :
      (a b idx : ℕ)
      → free_from (a + b) idx m
        ≡ elim (free_from a idx m) [ none ↦ free_from b (idx + a) m | some i ↦ some i ]
  unfolding free_from
  free_from-add zero b idx = ground arith
  free_from-add (suc a) b idx = ground (
    arith,
    ap (λ k. free_from k idx m) (suc_add a b),
    free_from-add a b (idx + 1),
    free_from-beyond b (idx + suc a),
    ap (λ k. free_from b k m) (add_suc idx a),
  )

  free_from_one :
      (i : ℕ)
      → i < m.tracked_frames
      → free_from 1 i m ≡ (if is_free (get_state i m) then some i else none)
  unfolding free_from
  free_from_one i h = ground arith

  pub lowest_free-from : (n : ℕ) → n ≤ m.tracked_frames → lowest_free n m ≡ free_from n 0 m
  unfolding lowest_free
  lowest_free-from zero h = unfold free_from in refl
  lowest_free-from (suc n) h = ground (
    arith,
    lowest_free-from n (omega arith),
    free_from_one n,
    free_from-add n 1 0,
    ap (λ k. free_from k 0 m) (one_more n),
  )

  misses : (n idx : ℕ) → ((k : ℕ) → k < n → get_state (idx + k) m ≢ free) → free_from n idx m ≡ none
  unfolding free_from
  misses zero idx h = refl
  misses (suc n) idx h = ground (
    arith,
    is_free-false (get_state idx m)
        (λ e. h 0 (omega arith) (ap (λ j. get_state j m) (add_zero idx) ∙ e)),
    misses n (idx + 1)
        (λ k l e. h (suc k) (omega arith) (ap (λ j. get_state j m) (sym (add_suc idx k)) ∙ e)),
  )

  -- The state of a frame by its word.
  get_state_word :
      (i k : ℕ)
      → k < 32
      → get_state (i * 32 + k) m
        ≡ (if leb 65536 (i * 32 + k) then unusable else from_bits (pair_at (get_or m.words i 0) k))
  unfolding get_state
  get_state_word i k l =
      let word : (i * 32 + k) / 32 ≡ i = omega arith in
      let slot : (i * 32 + k) % 32 ≡ k = omega arith in rw (word, slot) refl

  -- A word that the mask rejects has no free frame.
  full_word :
      (i k : ℕ)
      → active_mask 32 (get_or m.words i 0) ≡ 0x5555555555555555
      → k < 32
      → get_state (i * 32 + k) m ≢ free
  full_word i k h l e =
      let w = get_or m.words i 0 in
      let mask : full_mask 32 ≡ 0x5555555555555555 = (unfold full_mask in refl) in
      from_bits_busy (pair_at w k) (pair_at_lt w k) (active_mask-full 32 w k (h ∙ sym mask) l)
        (ground (arith, get_state_word i k l))

  -- The scan of the words finds what the frames in them hold.
  pub scan_words_lem : (n i : ℕ) → scan_words n i m ≡ free_from (n * 32) (i * 32) m
  unfolding scan_words
  scan_words_lem zero i = unfold free_from in refl
  scan_words_lem (suc n) i =
      let split : free_from (suc n * 32) (i * 32) m ≡ free_from (32 + n * 32) (i * 32) m =
        ap (λ k. free_from k (i * 32) m) (suc_times n) in
      let next : free_from (n * 32) (i * 32 + 32) m ≡ free_from (n * 32) ((i + 1) * 32) m =
        ap (λ k. free_from (n * 32) k m) (times_suc i) in
      elim (Bool-cases (active_mask 32 (get_or m.words i 0) == 0x5555555555555555)) [
        | inl full ↦
            let empty : free_from 32 (i * 32) m ≡ none =
              misses 32 (i * 32) (λ k l. full_word i k (ground arith) l) in
            ground (arith, scan_words_lem n (i + 1), free_from-add 32 (n * 32) (i * 32))
        | inr part ↦ ground (arith, scan_words_lem n (i + 1), free_from-add 32 (n * 32) (i * 32))
      ]
