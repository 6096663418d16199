-- ===== src/Kernel/Pmm/Init/Marks.antt =====
-- The marking loops of `init_from_inventory` in kernel/src/mm/pmm.rs, and the bitmap that they begin
-- with.
use project_zero.Base.{
  ℕ, zero, suc, ◌+◌, ◌-◌, ◌*◌, ◌/◌, ◌%◌, ◌<◌, ◌≤◌, ◌≡◌, refl, ap, subst, ◌∙◌, arith, Bool, true,
  false, ◌&&◌, ◌||◌, List, [], ◌∷◌, ok, ltb, leb, if◌then◌else◌, length, get_or, replicate,
  Bool-cases, eq_or_ne, inl, inr, All,
}
use project_zero.Base.Words.{u64_mod}
use project_zero.Kernel.Inventory.{PhysicalMemoryRegion, ReservationEntry}
use project_zero.Kernel.Pmm.{
  FrameState, free, reserved, unusable, PhysicalMemoryManager, page_size, bitmap_words, get_state,
  set_state, pair_at,
}
use project_zero.Kernel.Pmm.Bitmap.{get_state-set_state, length-set_state}
use project_zero.Kernel.Pmm.Init.{fill, mark, mark_range, reserve_all, promote_all}

-- A word of `n` pairs of ones.
ones : ℕ → ℕ
ones zero = 0
ones (suc n) = 3 + 4 * ones n

pair_at-ones : (n k : ℕ) → k < n → pair_at (ones n) k ≡ 3
unfolding pair_at ones
pair_at-ones zero k h = absurd (omega arith)
pair_at-ones (suc n) zero h = omega arith
pair_at-ones (suc n) (suc k) h =
    let digits : (3 + 4 * ones n) / 4 ≡ ones n = omega arith in
    ap (λ w. pair_at w k) digits ∙ pair_at-ones n k (omega arith)

get_or-replicate : (n i : ℕ) (x d : ℕ) → i < n → get_or (replicate n x) i d ≡ x
get_or-replicate zero i x d h = absurd (omega arith)
get_or-replicate (suc n) zero x d h = refl
get_or-replicate (suc n) (suc i) x d h = get_or-replicate n i x d (omega arith)

mod_lt : (j : ℕ) → j % 32 < 32
mod_lt j = omega arith

-- At first every frame is unusable.
pub get_state-fill : (m : PhysicalMemoryManager) (j : ℕ) → get_state j (fill m) ≡ unusable
unfolding get_state
get_state-fill m j = elim (Bool-cases (leb 65536 j)) [
  | inl h ↦ ground arith
  | inr h ↦
      let full : 0xFFFFFFFFFFFFFFFF ≡ ones 32 = (unfold ones in refl) in
      let word : get_or (replicate 2048 0xFFFFFFFFFFFFFFFF) (j / 32) 0 ≡ 0xFFFFFFFFFFFFFFFF =
        get_or-replicate 2048 (j / 32) 0xFFFFFFFFFFFFFFFF 0 (ground arith) in
      let pair : pair_at 0xFFFFFFFFFFFFFFFF (j % 32) ≡ 3 =
        ap (λ w. pair_at w (j % 32)) full ∙ pair_at-ones 32 (j % 32) (mod_lt j) in
      rw (h, word, pair) refl
]

-- A manager whose bitmap has its size, with a number of tracked frames that it covers.
pub record IsSized (m : PhysicalMemoryManager) (tracked : ℕ) : Type 0 where
  pub sized : length m.words ≡ bitmap_words
  pub tracks : m.tracked_frames ≡ tracked

set_state-IsSized :
    (m : PhysicalMemoryManager) (t i : ℕ) (s : FrameState)
    → IsSized m t
    → IsSized (set_state i s m) t
unfolding set_state
set_state-IsSized m t i s v = record {
  sized = length-set_state m v.sized i 0 s;
  tracks = ground (arith, v.tracks);
}

-- Marking gives each frame of the range its state and leaves the others.
pub mark_lem :
    (n i t : ℕ) (f : ℕ → FrameState) (m : PhysicalMemoryManager)
    → IsSized m t
    → n ≤ 65536 - i
    → IsSized (mark n i f m) t
      × ((j : ℕ)
          → get_state j (mark n i f m) ≡ (if leb i j && ltb j (i + n) then f j else get_state j m))
unfolding mark
mark_lem zero i t f m v h = (v, λ j. ground arith)
mark_lem (suc n) i t f m v h =
    let (kept, states) =
      mark_lem n (i + 1) t f (set_state i (f i) m) (set_state-IsSized m t i (f i) v)
        (omega arith) in
    (
      kept,
      λ j. elim (eq_or_ne i j) [
        | inl e ↦
            subst
              (λ k.
                get_state k (mark n (i + 1) f (set_state i (f i) m))
                ≡ (if leb i k && ltb k (i + suc n) then f k else get_state k m))
              e (ground (arith, states i, get_state-set_state m v.sized i i (f i)))
        | inr e ↦ ground (arith, states j, get_state-set_state m v.sized i j (f i))
      ],
    )

-- A range of frames, by its first page and the page behind it, up to the tracked frames.
abbrev pub in_range : ℕ → ℕ → ℕ → ℕ → Bool
in_range t start_f end_f j = leb start_f j && ltb j end_f && ltb j t

module _ (t : ℕ) (b : t ≤ 65536) where
  mark_range_lem :
      (start_f end_f : ℕ) (s : FrameState) (m : PhysicalMemoryManager)
      → IsSized m t
      → IsSized (mark_range start_f end_f s m) t
        × ((j : ℕ)
            → get_state j (mark_range start_f end_f s m)
              ≡ (if in_range t start_f end_f j then s else get_state j m))
  mark_range_lem start_f end_f s m v =
      let stop = if ltb m.tracked_frames end_f then m.tracked_frames else end_f in
      let below : stop - start_f ≤ 65536 - start_f = ground (arith, v.tracks) in
      let (kept, states) = mark_lem (stop - start_f) start_f t (λ idx. s) m v below in
      (kept, λ j. ground (arith, states j, v.tracks))

  -- The frames of the reservations and of the candidates.
  abbrev pub reserved_by : List ReservationEntry → ℕ → Bool
  reserved_by [] j = false
  reserved_by (res ∷ more) j =
      in_range t (res.start / page_size) ((res.stop + page_size - 1) / page_size) j
      || reserved_by more j

  abbrev pub candidate_at : List PhysicalMemoryRegion → ℕ → Bool
  candidate_at [] j = false
  candidate_at (cand ∷ more) j =
      in_range t (cand.start / page_size) (cand.stop / page_size) j || candidate_at more j

  -- No end of a reservation overflows when it is rounded up.
  abbrev pub Roundable : List ReservationEntry → Type 0
  Roundable = All (λ res. ltb (res.stop + page_size) u64_mod ≡ true)

  pub reserve_all_lem :
      (res : List ReservationEntry) (m : PhysicalMemoryManager)
      → IsSized m t
      → Roundable res
      → ((reserve_all res m).0 ≡ ok tt)
        × IsSized (reserve_all res m).1 t
        × ((j : ℕ)
            → get_state j (reserve_all res m).1
              ≡ (if reserved_by res j then reserved else get_state j m))
  unfolding reserve_all
  reserve_all_lem [] m v r = (refl, v, λ j. refl)
  reserve_all_lem (res ∷ more) m v r =
      let (kept, states) =
        mark_range_lem (res.start / page_size) ((res.stop + page_size - 1) / page_size) reserved m
          v in
      let (done, kept', states') = reserve_all_lem more _ kept r.1 in
      let first =
        mark_range (res.start / page_size) ((res.stop + page_size - 1) / page_size) reserved m in
      let step : reserve_all (res ∷ more) m ≡ reserve_all more first = ground (arith, r.0) in
      rw step (done, kept', λ j. ground (arith, states j, states' j))

  pub promote_all_lem :
      (cands : List PhysicalMemoryRegion) (m : PhysicalMemoryManager)
      → IsSized m t
      → IsSized (promote_all cands m) t
        × ((j : ℕ)
            → get_state j (promote_all cands m)
              ≡ (if candidate_at cands j then free else get_state j m))
  unfolding promote_all
  promote_all_lem [] m v = (v, λ j. refl)
  promote_all_lem (cand ∷ more) m v =
      let (kept, states) =
        mark_range_lem (cand.start / page_size) (cand.stop / page_size) free m v in
      let (kept', states') = promote_all_lem more _ kept in
      (kept', λ j. ground (arith, states j, states' j))
