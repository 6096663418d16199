-- ===== src/Kernel/Pmm/Freeing.antt =====
-- `free_frame` of kernel/src/mm/pmm.rs, and what it does after `alloc_frame`.
use project_zero.Base.{
  ℕ, ◌+◌, ◌-◌, ◌*◌, ◌/◌, ◌%◌, ◌<◌, ◌≤◌, ◌≡◌, refl, sym, ◌∙◌, arith, ◌==◌, ltb, true, false, ◌&&◌,
  Bool, some, Option-cases, Bool-cases, if◌then◌else◌, inl, inr, Outcome, ok, err,
}
use project_zero.Kernel.Pmm.{
  FrameState, free, allocated, reserved, unusable, PmmError, double_free, get_state,
  PhysicalMemoryManager, page_size, alloc_frame, free_frame,
}
use project_zero.Kernel.Pmm.Frames.{
  IsSound, alloc_frame_lem, counters, put, put-IsSound, put-states, put-tally, set_state-put, found,
  alloc_frame-some, alloc_frame-none,
}

abbrev is_allocated : FrameState → Bool
is_allocated allocated = true
is_allocated _ = false

is_allocated_sound : (s : FrameState) → is_allocated s ≡ true → s ≡ allocated
is_allocated_sound allocated h = refl
is_allocated_sound free h = absurd cc
is_allocated_sound reserved h = absurd cc
is_allocated_sound unusable h = absurd cc

abbrev pub succeeds : Outcome PmmError (Unit {0}) → Bool
succeeds (ok _) = true
succeeds _ = false

-- An address of a tracked frame that is allocated.
abbrev pub is_owned : ℕ → PhysicalMemoryManager → Bool
is_owned frame m =
    frame % page_size == 0
    && ltb (frame / page_size) m.tracked_frames
    && is_allocated (get_state (frame / page_size) m)

module _ (frame : ℕ) (m : PhysicalMemoryManager) where
  free_frame-refused :
      is_owned frame m ≡ false
      → (succeeds (free_frame frame m).0 ≡ false) × ((free_frame frame m).1 ≡ m)
  unfolding free_frame
  free_frame-refused h = elim (Bool-cases (frame % 4096 == 0)) [
    | inr a ↦ ground arith
    | inl a ↦ elim (Bool-cases (ltb (frame / 4096) m.tracked_frames)) [
      | inr b ↦ ground arith
      | inl b ↦ ground arith
    ]
  ]

  free_frame-owned :
      is_owned frame m ≡ true
      → (frame / 4096 < m.tracked_frames)
        × (get_state (frame / 4096) m ≡ allocated)
        × (free_frame frame m
            ≡ (ok tt, put (frame / 4096) free (m.free_frames + 1) (m.allocated_frames - 1) m))
  unfolding free_frame
  free_frame-owned h = ground (
    arith,
    is_allocated_sound (get_state (frame / 4096) m),
    set_state-put (frame / 4096) free (m.free_frames + 1) (m.allocated_frames - 1) m,
  )

  -- Freeing keeps a sound manager sound. It succeeds exactly for the address of a tracked frame that
  -- is allocated, which becomes free; no other state changes.
  pub free_frame_lem :
      IsSound m
      → IsSound (free_frame frame m).1
        × (succeeds (free_frame frame m).0 ≡ is_owned frame m)
        × ((j : ℕ)
            → get_state j (free_frame frame m).1
              ≡ (if is_owned frame m && frame / 4096 == j then free else get_state j m))
  free_frame_lem v = elim (Bool-cases (is_owned frame m)) [
    | inr h ↦
        let (failed, same) = free_frame-refused h in rw same (v, failed ∙ sym h, λ j. rw h refl)
    | inl h ↦
        let (l, s, went) = free_frame-owned h in
        let i = frame / 4096 in
        let moved = put-tally m v i free 0 0 l in
        let many : 1 ≤ m.allocated_frames = ground (arith, s, moved) in
        rw (went, h)
          (
            put-IsSound m v (frame / 4096) free (m.free_frames + 1) (m.allocated_frames - 1) l
                (ground (arith, s, many)),
            refl,
            put-states m v (frame / 4096) free (m.free_frames + 1) (m.allocated_frames - 1) l,
          )
  ]

  -- A frame that was freed cannot be freed again.
  pub free_frame-twice :
      IsSound m
      → (free_frame frame m).0 ≡ ok tt
      → (free_frame frame (free_frame frame m).1).0 ≡ err double_free
  free_frame-twice v h =
      let owned : is_owned frame m ≡ true = ground (arith, free_frame_lem v) in
      let (l, s, went) = free_frame-owned owned in
      let now = put-states m v (frame / 4096) free (m.free_frames + 1) (m.allocated_frames - 1) l in
      rw went (unfold free_frame in ground (arith, owned, now (frame / 4096)))

module _ (m : PhysicalMemoryManager) (v : IsSound m) (frame : ℕ)
    (given : (alloc_frame m).0 ≡ some frame) where
  granted_frame : (i : ℕ) × (found m v ≡ some i) × (frame ≡ i * 4096)
  granted_frame = elim (Option-cases (found m v)) [
    | inl e ↦ absurd (ground (arith, alloc_frame-none m v e))
    | inr (i, e) ↦ (i, e, ground (arith, alloc_frame-some m v i e))
  ]

  -- A frame that was allocated can be freed, which brings back the state of every frame and both
  -- counters.
  pub free_frame-alloc_frame :
      ((free_frame frame (alloc_frame m).1).0 ≡ ok tt)
      × ((j : ℕ) → get_state j (free_frame frame (alloc_frame m).1).1 ≡ get_state j m)
      × (counters (free_frame frame (alloc_frame m).1).1 ≡ counters m)
  free_frame-alloc_frame =
      let (i, e, here) = granted_frame in
      let (l, s, plenty, went) = alloc_frame-some m v i e in
      let p = put i allocated (m.free_frames - 1) (m.allocated_frames + 1) m in
      let sound : IsSound p = rw went at (alloc_frame_lem m v).0 in
      let now = put-states m v i allocated (m.free_frames - 1) (m.allocated_frames + 1) l in
      let page : (i * 4096) / 4096 ≡ i = omega arith in
      let even : (i * 4096) % 4096 ≡ 0 = omega arith in
      let owned : is_owned (i * 4096) p ≡ true = ground (arith, page, even, now i) in
      let back : free_frame (i * 4096) p
          ≡ (ok tt, put i free (p.free_frames + 1) (p.allocated_frames - 1) p) =
        rw page at (free_frame-owned (i * 4096) p owned).2 in
      let again = put-states p sound i free (p.free_frames + 1) (p.allocated_frames - 1) l in
      rw (here, went, back) (refl, (λ j. ground (arith, again j, now j, s)), ground arith)
