-- ===== src/Kernel/Pmm/Tests.antt =====
-- Runs of kernel/src/mm/pmm.rs on a manager of three frames: reserved, allocated and free.
use project_zero.Base.{
  ℕ, ◌/◌, ◌≡◌, refl, ap, suc, arith, true, ◌&&◌, ◌==◌, some, if◌then◌else◌, ◌∷◌, replicate,
  length-replicate, ok, err, ◌↔◌,
}
use project_zero.Kernel.Pmm.{
  free, double_free, get_state, PhysicalMemoryManager, alloc_frame, free_frame, verify_invariants,
  tally, pair_at,
}
use project_zero.Kernel.Pmm.Scan.{lowest_free}
use project_zero.Kernel.Pmm.Frames.{
  IsSound, counters, verify_invariants_lem, alloc_frame_lem, Allocates,
}
use project_zero.Kernel.Pmm.Freeing.{
  free_frame_lem, free_frame-twice, free_frame-alloc_frame, succeeds, is_owned,
}

abbrev three : PhysicalMemoryManager
three = record {
  words = 6 ∷ replicate 2047 0xFFFFFFFFFFFFFFFF;
  tracked_frames = 3;
  free_frames = 1;
  allocated_frames = 1;
  reserved_frames = 1;
  unusable_frames = 0;
  initialized = true;
}

three-IsSound : IsSound three
unfolding tally get_state pair_at
three-IsSound = record {
  sized = ap suc (length-replicate {A = ℕ} 2047 0xFFFFFFFFFFFFFFFF);
  tracked = ground arith;
  counted = refl;
}

verify_invariants_example :
    (verify_invariants three ≡ ok tt) ↔ (tally three.tracked_frames three ≡ counters three)
verify_invariants_example = verify_invariants_lem three

alloc_frame_example : Allocates three three-IsSound (alloc_frame three)
alloc_frame_example = alloc_frame_lem three three-IsSound

-- The free frame is the one at 8192.
alloc_frame_run : (alloc_frame three).0 ≡ some 8192
unfolding lowest_free get_state pair_at
alloc_frame_run = (alloc_frame_lem three three-IsSound).1

free_frame_example :
    IsSound (free_frame 4096 three).1
    × (succeeds (free_frame 4096 three).0 ≡ is_owned 4096 three)
    × ((j : ℕ)
        → get_state j (free_frame 4096 three).1
          ≡ (if is_owned 4096 three && 4096 / 4096 == j then free else get_state j three))
free_frame_example = free_frame_lem 4096 three three-IsSound

free_frame-twice_example : (free_frame 4096 (free_frame 4096 three).1).0 ≡ err double_free
unfolding free_frame get_state pair_at
free_frame-twice_example = free_frame-twice 4096 three three-IsSound refl

free_frame-alloc_frame_example :
    ((free_frame 8192 (alloc_frame three).1).0 ≡ ok tt)
    × ((j : ℕ) → get_state j (free_frame 8192 (alloc_frame three).1).1 ≡ get_state j three)
    × (counters (free_frame 8192 (alloc_frame three).1).1 ≡ counters three)
free_frame-alloc_frame_example = free_frame-alloc_frame three three-IsSound 8192 alloc_frame_run
