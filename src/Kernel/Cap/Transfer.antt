-- ===== src/Kernel/Cap/Transfer.antt =====
-- kernel/src/cap/transfer.rs: how a capability moves to another process, or is shared with it.
use Prim.Native.Nat.{bit_or}
use project_zero.Base.{ℕ, not, ◌&&◌, Outcome, panic, ltb, if◌then◌else◌, [], ◌∷◌}
use project_zero.Base.Method.{◌>>=◌, ◌>>◌, lift}
use project_zero.Kernel.Ipc.{
  IpcError, invalid_handle, capability_revoked, capability_not_duplicable,
  capability_not_transferable, rights_amplification_rejected, max_derivation_depth_exceeded, Handle,
  Link, lacks, is_rights_subset, max_processes,
}
use project_zero.Kernel.Cap.{
  Tables, TablesMethod, in_table, allocate_capability_id, max_derivation_depth, cap_duplicate,
  duplicate, cap_transfer, transfer,
}
use project_zero.Kernel.Cap.Ops.{
  checks, link_at, allocate_handle_slot_locked, install_derived_capability_locked,
}
use project_zero.Kernel.Cap.Leave.{install_moved_capability_locked}

-- The guards in front of a move.
unfoldable pub check_move : Link → ℕ → Tables → Outcome IpcError (Unit {0})
check_move src dst_pslot t =
    if in_table src && ltb dst_pslot max_processes
    then checks (
        ((t.entries src).occupied, invalid_handle)
        ∷ (not (t.nodes src).is_revoked, capability_revoked)
        ∷ (
          not (lacks (bit_or cap_transfer transfer) (t.entries src).rights),
          capability_not_transferable,
        )
        ∷ [])
    else panic

unfoldable pub transfer_move_locked : Link → ℕ → TablesMethod Handle
transfer_move_locked src dst_pslot t =
    (lift (check_move src dst_pslot t)
        >> (lift (allocate_handle_slot_locked dst_pslot t) >>= λ dst_hslot.
            allocate_capability_id >>= λ reserved_id.
            install_moved_capability_locked (link_at dst_pslot dst_hslot) src reserved_id))
      t

-- The guards in front of a delegation.
unfoldable pub check_delegation : Link → ℕ → ℕ → Tables → Outcome IpcError (Unit {0})
check_delegation src dst_pslot requested_rights t =
    let entry = t.entries src in
    if in_table src && ltb dst_pslot max_processes
    then checks (
        (entry.occupied, invalid_handle)
        ∷ (not (t.nodes src).is_revoked, capability_revoked)
        ∷ (not (lacks (bit_or cap_transfer transfer) entry.rights), capability_not_transferable)
        ∷ (not (lacks (bit_or cap_duplicate duplicate) entry.rights), capability_not_duplicable)
        ∷ (is_rights_subset requested_rights entry.rights, rights_amplification_rejected)
        ∷ (ltb (t.nodes src).derivation_depth max_derivation_depth, max_derivation_depth_exceeded)
        ∷ [])
    else panic

unfoldable pub transfer_delegate_locked : Link → ℕ → ℕ → TablesMethod Handle
transfer_delegate_locked src dst_pslot requested_rights t =
    (lift (check_delegation src dst_pslot requested_rights t)
        >> (lift (allocate_handle_slot_locked dst_pslot t) >>= λ dst_hslot.
            install_derived_capability_locked (link_at dst_pslot dst_hslot) src requested_rights))
      t
