-- ===== src/Kernel/Pmm/Init.antt =====
-- `init_from_inventory` of kernel/src/mm/pmm.rs. A sum that exceeds a u64 and an index out of a table
-- panic (`overflow-checks` is on).
pub mod Marks
pub mod Startup
mod Runs
use project_zero.Base.{
  ℕ, zero, suc, ◌+◌, ◌-◌, ◌*◌, ◌/◌, Bool, true, false, ◌&&◌, ◌||◌, List, [], ◌∷◌, Outcome, ok, err,
  panic, ltb, leb, ◌==◌, if◌then◌else◌, replicate,
}
use project_zero.Base.Results
use project_zero.Base.Method.{Method, ◌>>=◌, ◌>>◌, lift, get, modify, fail}
use project_zero.Base.Words.{u64_mod}
use project_zero.Kernel.Inventory.{
  PhysicalMemoryRegion, ReservationEntry, PhysicalMemoryInventory, is_available,
}
use project_zero.Kernel.Pmm.{
  FrameState, free, reserved, unusable, PhysicalMemoryManager, page_size, pmm_max_tracked_frames,
  bitmap_words, set_state, Counts, tally, Violation, verify_invariants,
}

pub data PmmInitError : Type 0 where
  capacity_exceeded : ℕ → ℕ → PmmInitError
  zero_candidates : PmmInitError

-- `for i in 0..count { .. &table[i] .. }`: the entries that the loop reads.
pub entries : {A : Type 0} → ℕ → List A → Outcome PmmInitError (List A)
entries zero table = ok []
entries (suc n) [] = panic
entries (suc n) (x ∷ table) = Results.◌>>=◌ (entries n table) λ rest. ok (x ∷ rest)

abbrev pub fill : PhysicalMemoryManager → PhysicalMemoryManager
fill m = record m { words = replicate bitmap_words 0xFFFFFFFFFFFFFFFF }

-- The two loops for `max_ram_addr`.
abbrev pub max_ram_addr : ℕ → List PhysicalMemoryRegion → ℕ
max_ram_addr acc [] = acc
max_ram_addr acc (reg ∷ regs) =
    max_ram_addr (if is_available reg.region_type && ltb acc reg.stop then reg.stop else acc) regs

abbrev pub max_candidate_addr : ℕ → List PhysicalMemoryRegion → ℕ
max_candidate_addr acc [] = acc
max_candidate_addr acc (cand ∷ cands) =
    max_candidate_addr (if ltb acc cand.stop then cand.stop else acc) cands

-- `(addr + PAGE_SIZE - 1) / PAGE_SIZE`.
abbrev pub pages_up : ℕ → Outcome PmmInitError ℕ
pages_up addr =
    if ltb (addr + page_size) u64_mod then ok ((addr + page_size - 1) / page_size) else panic

-- Step 2: whether a frame begins in available memory.
abbrev pub is_type1 : ℕ → List PhysicalMemoryRegion → Bool
is_type1 idx [] = false
is_type1 idx (reg ∷ regs) =
    is_available reg.region_type
      && leb reg.start (idx * page_size)
      && ltb (idx * page_size) reg.stop
    || is_type1 idx regs

abbrev pub default_state : List PhysicalMemoryRegion → ℕ → FrameState
default_state regs idx = if is_type1 idx regs then reserved else unusable

-- The loops that set the state of each frame of a range.
pub mark : ℕ → ℕ → (ℕ → FrameState) → PhysicalMemoryManager → PhysicalMemoryManager
mark zero idx state m = m
mark (suc n) idx state m = mark n (idx + 1) state (set_state idx (state idx) m)

abbrev pub mark_range : ℕ → ℕ → FrameState → PhysicalMemoryManager → PhysicalMemoryManager
mark_range start_f end_f state m =
    let bounded_end = if ltb m.tracked_frames end_f then m.tracked_frames else end_f in
    mark (bounded_end - start_f) start_f (λ idx. state) m

-- Step 3.
pub reserve_all : List ReservationEntry → Method PhysicalMemoryManager PmmInitError (Unit {0})
reserve_all [] m = (ok tt, m)
reserve_all (res ∷ more) m = elim (pages_up res.stop) [
  | ok end_f ↦ reserve_all more (mark_range (res.start / page_size) end_f reserved m)
  | err e ↦ (err e, m)
  | panic ↦ (panic, m)
]

-- Step 4.
pub promote_all : List PhysicalMemoryRegion → PhysicalMemoryManager → PhysicalMemoryManager
promote_all [] m = m
promote_all (cand ∷ more) m =
    promote_all more (mark_range (cand.start / page_size) (cand.stop / page_size) free m)

-- Step 5.
pub recount_frames : PhysicalMemoryManager → PhysicalMemoryManager
recount_frames m = record m {
  free_frames = c.count_free;
  allocated_frames = c.count_allocated;
  reserved_frames = c.count_reserved;
  unusable_frames = c.count_unusable;
}
  where
    c : Counts
    c = tally m.tracked_frames m

abbrev pub verified : Outcome Violation (Unit {0}) → Outcome PmmInitError (Unit {0})
verified (ok _) = ok tt
verified (err _) = err zero_candidates
verified panic = panic

pub init_from_inventory :
    PhysicalMemoryInventory → Method PhysicalMemoryManager PmmInitError (Unit {0})
init_from_inventory inv m =
    if inv.frame_candidate_count == 0
    then (err zero_candidates, m)
    else (do
      modify fill
      raw ← lift (entries inv.raw_count inv.raw_regions)
      cands ← lift (entries inv.frame_candidate_count inv.frame_candidates)
      required ← lift (pages_up (max_candidate_addr (max_ram_addr 0 raw) cands))
      lift (
          Results.guard (leb required pmm_max_tracked_frames)
            (capacity_exceeded required pmm_max_tracked_frames))
      modify (λ s. record s { tracked_frames = required })
      modify (mark required 0 (default_state raw))
      res ← lift (entries inv.reservation_count inv.reservations)
      reserve_all res
      modify (promote_all cands)
      modify recount_frames
      modify (λ s. record s { initialized = true })
      s ← get
      lift (verified (verify_invariants s)))
        m
