-- ===== src/Kernel/Pmm/Frames.antt =====
-- `alloc_frame`, `free_frame` and `verify_invariants` of kernel/src/mm/pmm.rs as operations on a table
-- of frame states.
use project_zero.Base.{
  ℕ, zero, suc, ◌+◌, ◌-◌, ◌*◌, ◌/◌, ◌<◌, ◌≤◌, ◌≡◌, refl, sym, ap, subst, ◌∙◌, arith, ◌==◌, leb,
  false, Bool, Option, none, some, Option-cases, Bool-cases, eq_or_ne, if◌then◌else◌, inl, inr, ◌↔◌,
  length, ok,
}
use project_zero.Kernel.Pmm.{
  FrameState, free, allocated, reserved, unusable, get_state, set_state, PhysicalMemoryManager,
  bitmap_words, page_size, pmm_max_tracked_frames, alloc_frame, Counts, bump, tally, free_from,
  scan_words, verify_invariants,
}
use project_zero.Kernel.Pmm.Bitmap.{get_state-set_state, length-set_state}
use project_zero.Kernel.Pmm.Tally.{tally-change, sum-tally}
use project_zero.Kernel.Pmm.Scan.{
  lowest_free, lowest_free-some, lowest_free-from, scan_words_lem, free_from-add, free_from-beyond,
}

-- The counters of the manager.
abbrev pub counters : PhysicalMemoryManager → Counts
counters m = record {
  count_free = m.free_frames;
  count_allocated = m.allocated_frames;
  count_reserved = m.reserved_frames;
  count_unusable = m.unusable_frames;
}

-- The counters are those of the tracked frames, which the bitmap covers.
pub record IsSound (m : PhysicalMemoryManager) : Type 0 where
  pub sized : length m.words ≡ bitmap_words
  pub tracked : m.tracked_frames ≤ pmm_max_tracked_frames
  pub counted : tally m.tracked_frames m ≡ counters m

-- The check of the invariants passes exactly where the counters are right.
pub verify_invariants_lem :
    (m : PhysicalMemoryManager)
    → (verify_invariants m ≡ ok tt) ↔ (tally m.tracked_frames m ≡ counters m)
unfolding verify_invariants
verify_invariants_lem m = (
  λ h. ground (arith, sum-tally m.tracked_frames m),
  λ h. ground (arith, sum-tally m.tracked_frames m),
)

-- The frame that a search has found.
abbrev pub is_at : Option ℕ → ℕ → Bool
is_at none j = false
is_at (some i) j = i == j

abbrev pub address_of : Option ℕ → Option ℕ
address_of none = none
address_of (some i) = some (i * page_size)

bump-free : (s : FrameState) (c : Counts) → c.count_free ≤ (bump s c).count_free
bump-free free c = omega arith
bump-free allocated c = omega arith
bump-free reserved c = omega arith
bump-free unusable c = omega arith

bump_injective : (s : FrameState) (c d : Counts) → bump s c ≡ bump s d → c ≡ d
bump_injective free c d h = ground arith
bump_injective allocated c d h = ground arith
bump_injective reserved c d h = ground arith
bump_injective unusable c d h = ground arith

tally-has_free :
    (n i : ℕ) (m : PhysicalMemoryManager)
    → i < n
    → get_state i m ≡ free
    → 1 ≤ (tally n m).count_free
unfolding tally
tally-has_free zero i m l h = absurd (omega arith)
tally-has_free (suc n) i m l h = elim (eq_or_ne i n) [
  | inl e ↦
      let here : get_state n m ≡ free = subst (λ k. get_state k m ≡ free) e h in
      rw here (omega arith)
  | inr e ↦
      ground (arith, tally-has_free n i m (omega arith) h, bump-free (get_state n m) (tally n m))
]

-- The whole scan of `alloc_frame` finds the lowest tracked frame that is free.
scan_lem :
    (m : PhysicalMemoryManager)
    → scan_words ((m.tracked_frames + 32 - 1) / 32) 0 m ≡ lowest_free m.tracked_frames m
scan_lem m =
    let words = (m.tracked_frames + 32 - 1) / 32 in
    let rest : words * 32 ≡ m.tracked_frames + (words * 32 - m.tracked_frames) = omega arith in
    ground (
      arith,
      scan_words_lem m words 0,
      ap (λ k. free_from k 0 m) rest,
      free_from-add m m.tracked_frames (words * 32 - m.tracked_frames) 0,
      free_from-beyond m (words * 32 - m.tracked_frames) (0 + m.tracked_frames) (omega arith),
      lowest_free-from m m.tracked_frames (omega arith),
    )

-- The manager with one frame in a new state, and new counters.
abbrev pub put : ℕ → FrameState → ℕ → ℕ → PhysicalMemoryManager → PhysicalMemoryManager
put i t f a m = record m { words = (set_state i t m).words; free_frames = f; allocated_frames = a }

pub set_state-put :
    (i : ℕ) (t : FrameState) (f a : ℕ) (m : PhysicalMemoryManager)
    → record (set_state i t m) { free_frames = f; allocated_frames = a } ≡ put i t f a m
unfolding set_state
set_state-put i t f a m = elim (Bool-cases (leb 65536 i)) [ inl h ↦ rw h refl | inr h ↦ rw h refl ]

module _ (m : PhysicalMemoryManager) (v : IsSound m) (i : ℕ) (t : FrameState) (f a : ℕ)
    (l : i < m.tracked_frames) where
  pub put-states : (j : ℕ) → get_state j (put i t f a m) ≡ (if i == j then t else get_state j m)
  unfolding get_state
  put-states j = ground (arith, (get_state-set_state m v.sized i j t))

  -- In a count, the old and the new state make up for each other.
  pub put-tally :
      bump (get_state i m) (tally m.tracked_frames (put i t f a m)) ≡ bump t (counters m)
  put-tally =
      let here : get_state i (put i t f a m) ≡ t = ground (arith, put-states i) in
      tally-change m (put i t f a m) i (λ j n. ground (arith, put-states j, n)) m.tracked_frames l
      ∙ rw (here, v.counted) refl

  pub put-IsSound :
      bump (get_state i m) (counters (put i t f a m)) ≡ bump t (counters m)
      → IsSound (put i t f a m)
  put-IsSound h = record {
    sized = length-set_state m v.sized i 0 t;
    tracked = v.tracked;
    counted = bump_injective (get_state i m) _ _ (put-tally ∙ sym h);
  }

module _ (m : PhysicalMemoryManager) (v : IsSound m) where
  -- The frame that an allocation finds: the lowest free one.
  abbrev pub found : Option ℕ
  found = if m.initialized then lowest_free m.tracked_frames m else none

  abbrev pub Allocates : Option ℕ × PhysicalMemoryManager → Type 0
  Allocates result =
      IsSound result.1
      × (result.0 ≡ address_of found)
      × ((j : ℕ) → get_state j result.1 ≡ (if is_at found j then allocated else get_state j m))

  pub alloc_frame-none : found ≡ none → alloc_frame m ≡ (none, m)
  unfolding alloc_frame
  alloc_frame-none h = ground (arith, scan_lem m)

  pub alloc_frame-some :
      (i : ℕ)
      → found ≡ some i
      → (i < m.tracked_frames)
        × (get_state i m ≡ free)
        × (1 ≤ m.free_frames)
        × (alloc_frame m ≡ (
          some (i * page_size),
          put i allocated (m.free_frames - 1) (m.allocated_frames + 1) m,
        ))
  unfolding alloc_frame
  alloc_frame-some i h =
      let lowest : lowest_free m.tracked_frames m ≡ some i = ground arith in
      let (l, s) = lowest_free-some m.tracked_frames m i lowest in
      let many = tally-has_free m.tracked_frames i m l s in
      let plenty : 1 ≤ m.free_frames = rw v.counted at many in
      (
        l,
        s,
        plenty,
        ground (
          arith,
          scan_lem m,
          set_state-put i allocated (m.free_frames - 1) (m.allocated_frames + 1) m,
        ),
      )

  -- An allocation of a sound manager that was initialised takes the lowest free frame, and fails
  -- exactly where no tracked frame is free; only the state of that frame changes, and the manager
  -- stays sound.
  pub alloc_frame_lem : Allocates (alloc_frame m)
  alloc_frame_lem = elim (Option-cases found) [
    | inl e ↦ rw (alloc_frame-none e, e) (v, refl, λ j. refl)
    | inr (i, e) ↦
        let (l, s, plenty, went) = alloc_frame-some i e in
        rw (went, e)
          (
            put-IsSound m v i allocated (m.free_frames - 1) (m.allocated_frames + 1) l
                (ground (arith, s)),
            refl,
            put-states m v i allocated (m.free_frames - 1) (m.allocated_frames + 1) l,
          )
  ]
