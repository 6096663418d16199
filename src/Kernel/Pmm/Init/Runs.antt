-- ===== src/Kernel/Pmm/Init/Runs.antt =====
-- A start of kernel/src/mm/pmm.rs on four frames of memory: one reserved, two candidates.
use project_zero.Base.{ℕ, ◌≤◌, ◌≡◌, refl, arith, true, false, [], ◌∷◌, replicate, ok}
use project_zero.Kernel.Inventory.{
  PhysicalMemoryRegion, ReservationEntry, PhysicalMemoryInventory, available_ram,
}
use project_zero.Kernel.Pmm.{PhysicalMemoryManager, get_state}
use project_zero.Kernel.Pmm.Frames.{IsSound}
use project_zero.Kernel.Pmm.Init.{entries, init_from_inventory}
use project_zero.Kernel.Pmm.Init.Startup.{init_from_inventory_lem, initial_state}

abbrev memory : PhysicalMemoryRegion
memory = record { start = 0; stop = 16384; region_type = available_ram; is_usable = true }

abbrev candidate : PhysicalMemoryRegion
candidate = record { start = 8192; stop = 16384; region_type = available_ram; is_usable = true }

abbrev image : ReservationEntry
image = record { start = 0; stop = 5000 }

abbrev four : PhysicalMemoryInventory
four = record {
  raw_regions = memory ∷ [];
  raw_count = 1;
  reservations = image ∷ [];
  reservation_count = 1;
  frame_candidates = candidate ∷ [];
  frame_candidate_count = 1;
}

abbrev blank : PhysicalMemoryManager
blank = record {
  words = replicate 2048 0;
  tracked_frames = 0;
  free_frames = 0;
  allocated_frames = 0;
  reserved_frames = 0;
  unusable_frames = 0;
  initialized = false;
}

four_fits : 4 ≤ 65536
four_fits = ground arith

-- The tables are read within their bounds.
read_memory : entries 1 (memory ∷ []) ≡ ok (memory ∷ [])
unfolding entries
read_memory = refl

read_candidate : entries 1 (candidate ∷ []) ≡ ok (candidate ∷ [])
unfolding entries
read_candidate = refl

read_image : entries 1 (image ∷ []) ≡ ok (image ∷ [])
unfolding entries
read_image = refl

init_from_inventory_example :
    ((init_from_inventory four blank).0 ≡ ok tt)
    × IsSound (init_from_inventory four blank).1
    × ((init_from_inventory four blank).1.tracked_frames ≡ 4)
    × ((init_from_inventory four blank).1.initialized ≡ true)
    × ((j : ℕ)
        → get_state j (init_from_inventory four blank).1
          ≡ initial_state (memory ∷ []) (candidate ∷ []) (image ∷ []) 4 four_fits j)
init_from_inventory_example =
    init_from_inventory_lem four blank (memory ∷ []) (candidate ∷ []) (image ∷ []) 4
      (λ e. ground arith) read_memory read_candidate read_image refl four_fits (refl, tt)
