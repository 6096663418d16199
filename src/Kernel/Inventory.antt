-- ===== src/Kernel/Inventory.antt =====
-- kernel/src/mm/inventory.rs: the tables of the memory inventory that the frame manager reads. The
-- names of reservations and the byte statistics are left out.
use project_zero.Base.{ℕ, Bool, true, false, List}

pub data MemoryRegionType : Type 0 where
  available_ram reserved_region acpi_reclaimable acpi_nvs bad_ram : MemoryRegionType
  unknown : ℕ → MemoryRegionType

abbrev pub is_available : MemoryRegionType → Bool
is_available available_ram = true
is_available _ = false

pub record PhysicalMemoryRegion : Type 0 where
  pub start : ℕ  -- u64
  pub stop : ℕ  -- u64, `end`
  pub region_type : MemoryRegionType
  pub is_usable : Bool

pub record ReservationEntry : Type 0 where
  pub start : ℕ  -- u64
  pub stop : ℕ  -- u64, `end`

pub record PhysicalMemoryInventory : Type 0 where
  pub raw_regions : List PhysicalMemoryRegion  -- [PhysicalMemoryRegion; 32]
  pub raw_count : ℕ
  pub reservations : List ReservationEntry  -- [ReservationEntry; 32]
  pub reservation_count : ℕ
  pub frame_candidates : List PhysicalMemoryRegion  -- [PhysicalMemoryRegion; 32]
  pub frame_candidate_count : ℕ
