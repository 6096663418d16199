-- ===== src/Kernel/Ipc/Tests.antt =====
-- Runs of kernel/src/ipc: a table with one object, and messages.
use project_zero.Base.{
  ℕ, ◌-◌, ◌^◌, ◌≤◌, ◌<◌, ◌≡◌, ◌≢◌, ◌⊎◌, refl, true, ◌==◌, List, [], ◌∷◌, length, ok, err, arith,
}
use project_zero.Kernel.Ipc.{
  IpcMessage, bad_message_size, KernelObjectType, empty_header, object_id_exhausted,
  object_table_full,
}
use project_zero.Kernel.Ipc.Messages.{with_handles, Carries, with_handles_lem}
use project_zero.Kernel.Ipc.Objects.{
  ObjectTable, allocate_object_slot_locked, free_object_slot_locked,
}
use project_zero.Kernel.Ipc.Reuse.{
  Placed, allocate_object_slot_locked_lem, allocate_object_slot_locked-stale, following,
}

-- One object, in the first slot.
abbrev first_taken : ObjectTable
first_taken = record {
  objects = λ i. record {
    occupied = i == 0;
    obj_type = KernelObjectType.event;
    generation = 65535;
    pool_index = 0;
    header = empty_header;
  };
  next_object_id = 2;
}

abbrev made_one : ObjectTable
made_one = (allocate_object_slot_locked KernelObjectType.event 0 9 first_taken).1

allocate_object_slot_locked_example :
    (((allocate_object_slot_locked KernelObjectType.event 0 9 first_taken).0
        ≡ err object_id_exhausted)
      × (2 ≡ 2 ^ 64 - 1)
      × (made_one ≡ first_taken))
    ⊎ (((allocate_object_slot_locked KernelObjectType.event 0 9 first_taken).0
          ≡ err object_table_full)
        × ((k : ℕ) → k < 256 → (first_taken.objects k).occupied ≡ true)
        × (made_one.objects ≡ first_taken.objects))
    ⊎ ((i : ℕ) × Placed KernelObjectType.event 0 9 first_taken i
          (allocate_object_slot_locked KernelObjectType.event 0 9 first_taken))
allocate_object_slot_locked_example =
    allocate_object_slot_locked_lem KernelObjectType.event 0 9 first_taken

-- The generation of the slot wraps around.
free_accepted : (free_object_slot_locked 0 first_taken).0 ≡ ok tt
unfolding free_object_slot_locked
free_accepted = refl

abbrev reused : ObjectTable
reused =
    (allocate_object_slot_locked KernelObjectType.event 0 9
      (free_object_slot_locked 0 first_taken).1).1

allocate_object_slot_locked-stale_example :
    (((free_object_slot_locked 0 first_taken).1.objects 0).generation ≡ 1)
    × ((reused.objects 0).generation ≡ 1)
    × (following 65535 ≢ 65535)
allocate_object_slot_locked-stale_example =
    allocate_object_slot_locked-stale 0 first_taken KernelObjectType.event 0 9 (omega arith)
      free_accepted

abbrev two_bytes : List ℕ
two_bytes = 1 ∷ 2 ∷ []

abbrev one_handle : List ℕ
one_handle = 5 ∷ []

with_handles_example :
    ((length two_bytes ≤ 48)
      × (length one_handle ≤ 4)
      × ((msg : IpcMessage) × (with_handles 7 two_bytes one_handle ≡ ok msg)
          × Carries 7 two_bytes one_handle msg))
    ⊎ ((with_handles 7 two_bytes one_handle ≡ err bad_message_size)
        × ((48 < length two_bytes) ⊎ (4 < length one_handle)))
with_handles_example = with_handles_lem 7 two_bytes one_handle
