-- ===== src/Kernel/Pmm.antt =====
-- kernel/src/mm/pmm.rs: the manager of physical frames. Each frame has two bits of state, 32 frames
-- a word. The static array of words is part of the manager's state.
pub mod Pairs
pub mod Bitmap
pub mod Tally
pub mod Scan
pub mod Frames
pub mod Freeing
pub mod Init
mod Tests
use project_zero.Base.{
  ℕ, zero, suc, ◌+◌, ◌-◌, ◌*◌, ◌/◌, ◌%◌, Bool, true, false, not, ◌||◌, List, Option, none, some,
  Outcome, ok, err, ltb, leb, ◌==◌, if◌then◌else◌, get_or, set,
}
use project_zero.Base.Results.{◌>>◌, guard}
use project_zero.Base.Words.{u64_mod}

abbrev pub page_size : ℕ
page_size = 4096

abbrev pub pmm_max_tracked_frames : ℕ
pmm_max_tracked_frames = 65536

abbrev pub frames_per_u64 : ℕ
frames_per_u64 = 32

abbrev pub bitmap_words : ℕ
bitmap_words = 2048

pub data FrameState : Type 0 where
  free allocated reserved unusable : FrameState

-- By the lower two bits.
abbrev pub from_bits : ℕ → FrameState
from_bits bits = state_of (bits % 4)
  where
    state_of : ℕ → FrameState
    state_of zero = free
    state_of (suc zero) = allocated
    state_of (suc (suc zero)) = reserved
    state_of (suc (suc (suc n))) = unusable

abbrev pub to_bits : FrameState → ℕ
to_bits free = 0
to_bits allocated = 1
to_bits reserved = 2
to_bits unusable = 3

abbrev pub is_free : FrameState → Bool
is_free free = true
is_free _ = false

pub data PmmError : Type 0 where
  double_free frame_reserved frame_unusable frame_out_of_range : PmmError
  frame_misaligned address_overflow : PmmError

-- A frame number and the address of a frame are both u64.
abbrev pub number_from_address : ℕ → Outcome PmmError ℕ
number_from_address addr =
    if addr % page_size == 0 then ok (addr / page_size) else err frame_misaligned

abbrev pub to_address : ℕ → Outcome PmmError ℕ
to_address num =
    if ltb (num * page_size) u64_mod then ok (num * page_size) else err address_overflow

abbrev pub from_address : ℕ → Outcome PmmError ℕ
from_address addr = if addr % page_size == 0 then ok addr else err frame_misaligned

abbrev pub frame_index : ℕ → ℕ
frame_index frame = frame / page_size

pub record PhysicalMemoryManager : Type 0 where
  pub words : List ℕ  -- [u64; 2048], `PMM_METADATA`
  pub tracked_frames : ℕ
  pub free_frames : ℕ
  pub allocated_frames : ℕ
  pub reserved_frames : ℕ
  pub unusable_frames : ℕ
  pub initialized : Bool

-- `(word >> 2 * slot) & 0b11`, by a shift of two bits for each slot.
pub pair_at : ℕ → ℕ → ℕ
pair_at word zero = word % 4
pair_at word (suc slot) = pair_at (word / 4) slot

-- `(word & !(0b11 << 2 * slot)) | (bits << 2 * slot)`: the lower pairs stay where they are.
pub put_pair : ℕ → ℕ → ℕ → ℕ
put_pair word zero bits = word / 4 * 4 + bits
put_pair word (suc slot) bits = put_pair (word / 4) slot bits * 4 + word % 4

pub get_state : ℕ → PhysicalMemoryManager → FrameState
get_state idx m =
    if leb pmm_max_tracked_frames idx
    then unusable
    else from_bits (pair_at (get_or m.words (idx / frames_per_u64) 0) (idx % frames_per_u64))

pub set_state : ℕ → FrameState → PhysicalMemoryManager → PhysicalMemoryManager
set_state idx state m = if leb pmm_max_tracked_frames idx then m else record m {
  words =
      set m.words (idx / frames_per_u64)
        (put_pair (get_or m.words (idx / frames_per_u64) 0) (idx % frames_per_u64) (to_bits state));
}

-- `((word & 0xAA..) >> 1) | (word & 0x55..)`, pair by pair: the upper bit or the lower bit.
pub active_mask : ℕ → ℕ → ℕ
active_mask zero word = 0
active_mask (suc n) word = (if word % 4 == 0 then 0 else 1) + 4 * active_mask n (word / 4)

-- The inner loop of `alloc_frame`: the first free frame of `n` from `idx` on.
pub free_from : ℕ → ℕ → PhysicalMemoryManager → Option ℕ
free_from zero idx m = none
free_from (suc n) idx m =
    let rest = free_from n (idx + 1) m in
    if leb m.tracked_frames idx then none else if is_free (get_state idx m) then some idx else rest

-- The loop over the words, which skips a word without a free frame. A word behind the bitmap, which
-- the source would panic on, reads as 0; up to 65536 tracked frames the loop reads none.
pub scan_words : ℕ → ℕ → PhysicalMemoryManager → Option ℕ
scan_words zero word_idx m = none
scan_words (suc n) word_idx m =
    let rest = scan_words n (word_idx + 1) m in
    if active_mask frames_per_u64 (get_or m.words word_idx 0) == 0x5555555555555555
    then rest
    else elim (free_from frames_per_u64 (word_idx * frames_per_u64) m) [
      | none ↦ rest
      | some idx ↦ some idx
    ]

pub alloc_frame : PhysicalMemoryManager → Option ℕ × PhysicalMemoryManager
alloc_frame m =
    if not m.initialized || m.free_frames == 0
    then (none, m)
    else elim (scan_words ((m.tracked_frames + frames_per_u64 - 1) / frames_per_u64) 0 m) [
      | none ↦ (none, m)
      | some idx ↦ (
        some (idx * page_size),
        record (set_state idx allocated m) {
          free_frames = m.free_frames - 1;
          allocated_frames = m.allocated_frames + 1;
        },
      )
    ]

pub free_frame : ℕ → PhysicalMemoryManager → Outcome PmmError (Unit {0}) × PhysicalMemoryManager
free_frame frame m =
    if not (frame % page_size == 0)
    then (err frame_misaligned, m)
    else if leb m.tracked_frames (frame_index frame)
    then (err frame_out_of_range, m)
    else elim (get_state (frame_index frame) m) [
      | allocated ↦ (
        ok tt,
        record (set_state (frame_index frame) free m) {
          allocated_frames = m.allocated_frames - 1;
          free_frames = m.free_frames + 1;
        },
      )
      | free ↦ (err double_free, m)
      | reserved ↦ (err frame_reserved, m)
      | unusable ↦ (err frame_unusable, m)
    ]

-- The frames in each state.
pub record Counts : Type 0 where
  pub count_free : ℕ
  pub count_allocated : ℕ
  pub count_reserved : ℕ
  pub count_unusable : ℕ

abbrev pub bump : FrameState → Counts → Counts
bump free c = record c { count_free = c.count_free + 1 }
bump allocated c = record c { count_allocated = c.count_allocated + 1 }
bump reserved c = record c { count_reserved = c.count_reserved + 1 }
bump unusable c = record c { count_unusable = c.count_unusable + 1 }

-- The counting loop of `verify_invariants`, over the frames below a number.
pub tally : ℕ → PhysicalMemoryManager → Counts
tally zero m = record {
  count_free = 0;
  count_allocated = 0;
  count_reserved = 0;
  count_unusable = 0;
}
tally (suc n) m = bump (get_state n m) (tally n m)

-- The counter that a check names.
pub data Violation : Type 0 where
  free_mismatch allocated_mismatch reserved_mismatch unusable_mismatch sum_mismatch : Violation

pub verify_invariants : PhysicalMemoryManager → Outcome Violation (Unit {0})
verify_invariants m =
    guard (c.count_free == m.free_frames) free_mismatch
    >> (guard (c.count_allocated == m.allocated_frames) allocated_mismatch
        >> (guard (c.count_reserved == m.reserved_frames) reserved_mismatch
            >> (guard (c.count_unusable == m.unusable_frames) unusable_mismatch
                >> guard
                    (c.count_free + c.count_allocated + c.count_reserved + c.count_unusable
                      == m.tracked_frames)
                    sum_mismatch)))
  where
    c : Counts
    c = tally m.tracked_frames m
