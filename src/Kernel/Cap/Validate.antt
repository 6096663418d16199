-- ===== src/Kernel/Cap/Validate.antt =====
-- The two checks of a presented handle: `validate_handle_locked` of kernel/src/ipc/handle.rs and
-- `validate_capability_locked` of kernel/src/cap/ops.rs.
use project_zero.Base.{
  ℕ, not, ◌&&◌, ◌||◌, Outcome, ok, err, panic, ltb, ◌==◌, if◌then◌else◌, [], ◌∷◌,
}
use project_zero.Base.Results.{◌>>◌}
use project_zero.Kernel.Ipc.{
  IpcError, invalid_handle, bad_handle_generation, capability_revoked, permission_denied, Handle,
  slot_index, generation_of, grants, max_processes, max_handles_per_process, max_kernel_objects,
}
use project_zero.Kernel.Cap.{Tables, TablesMethod}
use project_zero.Kernel.Cap.Ops.{checks, link_at}
use project_zero.Kernel.Cap.Leave.{capability_close_locked}

unfoldable pub validate_handle_locked : ℕ → Handle → ℕ → Tables → Outcome IpcError (ℕ × ℕ × ℕ)
validate_handle_locked process_slot handle required_rights t =
    let l = link_at process_slot (slot_index handle) in
    let entry = t.entries l in
    let slot = t.object_table.objects entry.object_index in
    if ltb process_slot max_processes
    then checks (
        (ltb l.hslot max_handles_per_process, invalid_handle)
        ∷ (entry.handle_generation == generation_of handle, bad_handle_generation)
        ∷ (entry.occupied, invalid_handle)
        ∷ (not (t.nodes l).is_revoked, capability_revoked)
        ∷ (ltb entry.object_index max_kernel_objects, invalid_handle)
        ∷ (slot.occupied && slot.generation == entry.object_generation, bad_handle_generation)
        ∷ (grants required_rights entry.rights, permission_denied)
        ∷ [])
      >> ok (entry.object_index, entry.endpoint, entry.rights)
    else panic

unfoldable pub validate_capability_locked : ℕ → Handle → ℕ → Tables → Outcome IpcError (ℕ × ℕ × ℕ)
validate_capability_locked process_slot handle required_rights t =
    let l = link_at process_slot (slot_index handle) in
    let entry = t.entries l in
    let slot = t.object_table.objects entry.object_index in
    if ltb process_slot max_processes
    then checks (
        (ltb l.hslot max_handles_per_process, invalid_handle)
        ∷ (entry.handle_generation == generation_of handle, bad_handle_generation)
        ∷ (entry.occupied, invalid_handle)
        ∷ (not (t.nodes l).is_revoked, capability_revoked)
        ∷ (ltb entry.object_index max_kernel_objects, invalid_handle)
        ∷ (slot.occupied && slot.generation == entry.object_generation, bad_handle_generation)
        ∷ (required_rights == 0 || grants required_rights entry.rights, permission_denied)
        ∷ [])
      >> ok (entry.object_index, entry.endpoint, entry.rights)
    else panic

unfoldable pub close_handle_locked : ℕ → Handle → TablesMethod (ℕ × ℕ)
close_handle_locked process_slot handle t =
    let l = link_at process_slot (slot_index handle) in
    let entry = t.entries l in
    let closed = capability_close_locked l t in
    if not (ltb process_slot max_processes)
    then (panic, t)
    else if not (ltb l.hslot max_handles_per_process)
    then (err invalid_handle, t)
    else if not (entry.handle_generation == generation_of handle)
    then (err bad_handle_generation, t)
    else if not entry.occupied
    then (err invalid_handle, t)
    else closed
