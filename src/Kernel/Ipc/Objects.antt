-- ===== src/Kernel/Ipc/Objects.antt =====
-- kernel/src/ipc/object.rs: the allocation of identifiers and slots for kernel objects.
use project_zero.Base.{
  ℕ, zero, suc, ◌+◌, ◌-◌, ◌^◌, ◌==◌, ◌&&◌, true, false, ok, err, panic, if◌then◌else◌, Option, none,
  some, ltb,
}
use project_zero.Base.Method.{Method, ◌>>=◌}
use project_zero.Kernel.Ipc.{
  IpcError, object_id_exhausted, object_table_full, KernelObjectType, ObjectLifecycleState,
  KernelObjectSlot, empty_header, next_generation, write, max_kernel_objects,
}

-- `KERNEL_OBJECT_TABLE` and `NEXT_OBJECT_ID`.
pub record ObjectTable : Type 0 where
  pub objects : ℕ → KernelObjectSlot
  pub next_object_id : ℕ  -- u64

-- The atomic exchange of the loop succeeds under the lock in its first round.
unfoldable pub allocate_object_id : Method ObjectTable IpcError ℕ
allocate_object_id t =
    if t.next_object_id == 2 ^ 64 - 1
    then (err object_id_exhausted, t)
    else (ok t.next_object_id, record t { next_object_id = t.next_object_id + 1 })

-- The lowest slot of `n` from `i` on that is not in use.
unfoldable pub free_object_from : ℕ → ℕ → (ℕ → KernelObjectSlot) → Option ℕ
free_object_from zero i objects = none
free_object_from (suc n) i objects =
    let rest = free_object_from n (i + 1) objects in if (objects i).occupied then rest else some i

-- The slot of a new object; its generation stays.
abbrev pub place_object : KernelObjectType → ℕ → ℕ → ℕ → ℕ → ObjectTable → ObjectTable
place_object obj_type pool_index creator_pid object_id i t = record t {
  objects =
      write i
        (record (t.objects i) {
          occupied = true;
          obj_type = obj_type;
          pool_index = pool_index;
          header = record empty_header {
            object_id = object_id;
            creator_pid = creator_pid;
            state = ObjectLifecycleState.active;
          };
        })
        t.objects;
}

unfoldable pub allocate_object_slot_locked :
    KernelObjectType → ℕ → ℕ → Method ObjectTable IpcError ℕ
allocate_object_slot_locked obj_type pool_index creator_pid = allocate_object_id >>= λ object_id t.
    elim (free_object_from max_kernel_objects 0 t.objects) [
      | none ↦ (err object_table_full, t)
      | some i ↦ (ok i, place_object obj_type pool_index creator_pid object_id i t)
    ]

unfoldable pub free_object_slot_locked : ℕ → Method ObjectTable IpcError (Unit {0})
free_object_slot_locked object_index t =
    if ltb object_index max_kernel_objects && (t.objects object_index).occupied
    then (
      ok tt,
      record t {
        objects =
            write object_index
              (record (t.objects object_index) {
                occupied = false;
                obj_type = KernelObjectType.free;
                generation = next_generation (t.objects object_index).generation;
                header = empty_header;
              })
              t.objects;
      },
    )
    else (panic, t)
