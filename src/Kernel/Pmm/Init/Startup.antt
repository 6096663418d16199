-- ===== src/Kernel/Pmm/Init/Startup.antt =====
-- What `init_from_inventory` of kernel/src/mm/pmm.rs leaves.
use project_zero.Base.{
  ℕ, zero, suc, ◌≤◌, ◌≡◌, ◌≢◌, refl, ap, ◌∙◌, arith, true, false, List, ok, ltb, leb, ◌==◌,
  if◌then◌else◌, length-replicate,
}
use project_zero.Kernel.Inventory.{PhysicalMemoryRegion, ReservationEntry, PhysicalMemoryInventory}
use project_zero.Kernel.Pmm.{
  FrameState, free, reserved, unusable, PhysicalMemoryManager, get_state, tally, bump,
  verify_invariants,
}
use project_zero.Kernel.Pmm.Frames.{IsSound, verify_invariants_lem}
use project_zero.Kernel.Pmm.Init.{
  entries, fill, mark, max_ram_addr, max_candidate_addr, pages_up, default_state, reserve_all,
  promote_all, recount_frames, init_from_inventory,
}
use project_zero.Kernel.Pmm.Init.Marks.{
  IsSized, get_state-fill, mark_lem, reserve_all_lem, promote_all_lem, Roundable, reserved_by,
  candidate_at,
}

-- The counts do not depend on the counters.
tally-recount :
    (n : ℕ) (m : PhysicalMemoryManager)
    → (tally n (record (recount_frames m) { initialized = true }) ≡ tally n m)
unfolding tally get_state recount_frames
tally-recount zero m = refl
tally-recount (suc n) m = ap (bump (get_state n m)) (tally-recount n m)

module _ (raw cands : List PhysicalMemoryRegion) (res : List ReservationEntry) (required : ℕ)
    (b : required ≤ 65536) where
  -- The state of a frame: free in a candidate, else reserved in a reservation or in available memory,
  -- else unusable.
  abbrev pub initial_state : ℕ → FrameState
  initial_state j =
      if candidate_at required b cands j
      then free
      else if reserved_by required b res j
      then reserved
      else if ltb j required
      then default_state raw j
      else unusable

module _ (inv : PhysicalMemoryInventory) (m : PhysicalMemoryManager)
    (raw cands : List PhysicalMemoryRegion) (res : List ReservationEntry) (required : ℕ)
    (some_candidate : inv.frame_candidate_count ≢ 0)
    (raw_read : entries inv.raw_count inv.raw_regions ≡ ok raw)
    (cands_read : entries inv.frame_candidate_count inv.frame_candidates ≡ ok cands)
    (res_read : entries inv.reservation_count inv.reservations ≡ ok res)
    (rounded : pages_up (max_candidate_addr (max_ram_addr 0 raw) cands) ≡ ok required)
    (b : required ≤ 65536) (r : Roundable required b res) where
  defaults : PhysicalMemoryManager
  defaults = mark required 0 (default_state raw) (record (fill m) { tracked_frames = required })

  marked : PhysicalMemoryManager
  unfolding defaults
  marked = promote_all cands (reserve_all res defaults).1

  marked_lem :
      ((reserve_all res defaults).0 ≡ ok tt)
      × IsSized marked required
      × ((j : ℕ) → get_state j marked ≡ initial_state raw cands res required b j)
  unfolding marked defaults
  marked_lem =
      let filled : PhysicalMemoryManager = record (fill m) { tracked_frames = required } in
      let first : IsSized filled required = record {
        sized = length-replicate {A = ℕ} 2048 0xFFFFFFFFFFFFFFFF;
        tracks = refl;
      } in
      let (kept, states) =
        mark_lem required 0 required (default_state raw) filled first (omega arith) in
      let (done, kept', states') = reserve_all_lem required b res defaults kept r in
      let (kept'', states'') =
        promote_all_lem required b cands (reserve_all res defaults).1 kept' in
      (
        done,
        kept'',
        λ j. ground (
          arith,
          states'' j,
          states' j,
          states j,
          get_state-fill (record m { tracked_frames = required }) j,
        ),
      )

  ready : PhysicalMemoryManager
  ready = record (recount_frames marked) { initialized = true }

  ready-verified : verify_invariants ready ≡ ok tt
  unfolding ready recount_frames
  ready-verified = (verify_invariants_lem ready).1 (tally-recount marked.tracked_frames marked)

  init_run : init_from_inventory inv m ≡ (ok tt, ready)
  unfolding init_from_inventory ready marked defaults
  init_run =
      let some : (inv.frame_candidate_count == 0) ≡ false = ground (arith, some_candidate) in
      let fits : leb required 65536 ≡ true = ground arith in
      rw (some, raw_read, cands_read, rounded, fits, res_read, marked_lem.0, ready-verified) refl

  ready_states : (j : ℕ) → get_state j ready ≡ get_state j marked
  unfolding ready recount_frames get_state
  ready_states j = refl

  ready-IsSound : IsSound ready × (ready.tracked_frames ≡ required) × (ready.initialized ≡ true)
  unfolding ready recount_frames
  ready-IsSound = (
    record {
      sized = marked_lem.1.sized;
      tracked = omega (arith, marked_lem.1.tracks);
      counted = tally-recount marked.tracked_frames marked;
    },
    marked_lem.1.tracks,
    refl,
  )

  -- With a candidate, tables that hold their counts, ends that do not overflow when rounded up, and
  -- memory that fits the bitmap, the start succeeds: the manager is sound and initialised, and every
  -- frame has the state that the inventory gives it.
  pub init_from_inventory_lem :
      ((init_from_inventory inv m).0 ≡ ok tt)
      × IsSound (init_from_inventory inv m).1
      × ((init_from_inventory inv m).1.tracked_frames ≡ required)
      × ((init_from_inventory inv m).1.initialized ≡ true)
      × ((j : ℕ)
          → get_state j (init_from_inventory inv m).1 ≡ initial_state raw cands res required b j)
  init_from_inventory_lem =
      let (sound, tracks, started) = ready-IsSound in
      rw init_run (refl, sound, tracks, started, λ j. ready_states j ∙ marked_lem.2 j)
