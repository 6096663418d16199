-- ===== src/Kernel/Cap/Ops.antt =====
-- kernel/src/cap/ops.rs: what installs, derives, moves and closes capabilities.
use Prim.Native.Nat.{bit_or}
use project_zero.Base.{
  ℕ, zero, suc, ◌+◌, Bool, true, false, not, ◌&&◌, ◌||◌, Outcome, ok, err, panic, ltb, leb, ◌==◌,
  if◌then◌else◌, Option, none, some, List, [], ◌∷◌,
}
use project_zero.Base.Results
use project_zero.Base.Words.{u16_mod}
use project_zero.Base.Method.{◌>>=◌, ◌>>◌, lift}
use project_zero.Kernel.Ipc.{
  IpcError, handle_table_full, invalid_handle, invalid_process, capability_revoked,
  capability_not_duplicable, rights_amplification_rejected, max_derivation_depth_exceeded,
  bad_handle_generation, Handle, new_handle, slot_index, generation_of, Link, write, write_at,
  lacks, is_rights_subset, max_processes, max_handles_per_process, max_kernel_objects,
}
use project_zero.Kernel.Cap.{
  empty_node, Tables, TablesMethod, in_table, allocate_capability_id, add_child_locked,
  max_derivation_depth, cap_duplicate, duplicate,
}

abbrev pub link_at : ℕ → ℕ → Link
link_at p h = record { pslot = p; hslot = h }

-- `assert!`.
abbrev pub asserted : Bool → Outcome IpcError (Unit {0})
asserted true = ok tt
asserted false = panic

-- The lowest of `n` slots from `h` on that holds no capability.
unfoldable pub free_slot_from : ℕ → ℕ → ℕ → Tables → Option ℕ
free_slot_from zero p h t = none
free_slot_from (suc n) p h t =
    let rest = free_slot_from n p (h + 1) t in
    if (t.entries (link_at p h)).occupied then rest else some h

unfoldable pub allocate_handle_slot_locked : ℕ → Tables → Outcome IpcError ℕ
allocate_handle_slot_locked process_slot t =
    if ltb process_slot max_processes
    then elim (free_slot_from max_handles_per_process process_slot 0 t) [
      | some h ↦ ok h
      | none ↦ err handle_table_full
    ]
    else panic

abbrev pub set_handle_refs : ℕ → ℕ → Tables → Tables
set_handle_refs i refs t =
    let slot = t.object_table.objects i in
    record t {
      object_table = record t.object_table {
        objects =
            write i (record slot { header = record slot.header { handle_refs = refs } })
              t.object_table.objects;
      };
    }

-- The end of an installation: the process counts its handle, the object its reference.
unfoldable pub count_handle : Link → ℕ → ℕ → TablesMethod Handle
count_handle l object_index generation t =
    let count = t.counts l.pslot in
    let t1 = record t { counts = write l.pslot (count + 1) t.counts } in
    let refs = (t.object_table.objects object_index).header.handle_refs in
    if ltb (count + 1) u16_mod
    then if ltb (refs + 1) u16_mod
      then (ok (new_handle l.hslot generation), set_handle_refs object_index (refs + 1) t1)
      else (err handle_table_full, t1)
    else (panic, t)

-- What is written for a capability with its identifier, before it is counted.
unfoldable pub place_root : Link → ℕ → ℕ → ℕ → ℕ → Tables → Tables
place_root l object_index rights endpoint cap_id t = record t {
  entries =
      write_at l
        (record (t.entries l) {
          occupied = true;
          object_index = object_index;
          object_generation = (t.object_table.objects object_index).generation;
          rights = rights;
          endpoint = endpoint;
        })
        t.entries;
  nodes = write_at l (record empty_node { capability_id = cap_id }) t.nodes;
}

unfoldable pub install_root_capability_locked : ℕ → ℕ → ℕ → ℕ → ℕ → TablesMethod Handle
install_root_capability_locked process_slot handle_slot object_index rights endpoint t =
    let l = link_at process_slot handle_slot in
    (lift (
          asserted (
            in_table l
            && ltb object_index max_kernel_objects
            && (t.object_table.objects object_index).occupied))
        >> (allocate_capability_id >>= λ cap_id.
            lift (asserted (not (t.entries l).occupied)) >> λ s.
            count_handle l object_index (t.entries l).handle_generation
              (place_root l object_index rights endpoint cap_id s)))
      t

-- `allocate_handle_entry_locked` of kernel/src/ipc/handle.rs.
unfoldable pub allocate_handle_entry_locked : ℕ → ℕ → ℕ → ℕ → TablesMethod Handle
allocate_handle_entry_locked process_slot object_index rights endpoint t =
    (lift (allocate_handle_slot_locked process_slot t) >>= λ h.
    install_root_capability_locked process_slot h object_index rights endpoint)
      t

-- The early returns of a function, in their order.
abbrev pub checks : List (Bool × IpcError) → Outcome IpcError (Unit {0})
checks [] = ok tt
checks ((test, e) ∷ rest) = if test then checks rest else err e

-- The guards of a derivation from a parent.
unfoldable pub check_derivation : Link → Link → ℕ → Tables → Outcome IpcError (Unit {0})
check_derivation dst parent requested_rights t =
    let entry = t.entries parent in
    let slot = t.object_table.objects entry.object_index in
    let depth = (t.nodes parent).derivation_depth in
    if in_table dst && in_table parent
    then checks (
        (entry.occupied, invalid_handle)
        ∷ (not (t.nodes parent).is_revoked, capability_revoked)
        ∷ (not (lacks (bit_or cap_duplicate duplicate) entry.rights), capability_not_duplicable)
        ∷ (is_rights_subset requested_rights entry.rights, rights_amplification_rejected)
        ∷ (ltb depth max_derivation_depth, max_derivation_depth_exceeded)
        ∷ (ltb entry.object_index max_kernel_objects, invalid_handle)
        ∷ (slot.occupied && slot.generation == entry.object_generation, bad_handle_generation)
        ∷ [])
    else panic

-- What is written for a derived capability, before it is counted.
unfoldable pub place_derived : Link → Link → ℕ → ℕ → Tables → Outcome IpcError Tables
place_derived dst parent requested_rights cap_id t =
    let entry = t.entries parent in
    let node = record empty_node {
      capability_id = cap_id;
      parent = parent;
      parent_gen = entry.handle_generation;
      derivation_depth = (t.nodes parent).derivation_depth + 1;
    } in
    Results.◌>>=◌ (add_child_locked parent dst (write_at dst node t.nodes)) λ nodes. ok (record t {
      entries =
          write_at dst
            (record (t.entries dst) {
              occupied = true;
              object_index = entry.object_index;
              object_generation = entry.object_generation;
              rights = requested_rights;
              endpoint = entry.endpoint;
            })
            t.entries;
      nodes = nodes;
    })

-- Goes on with the state that a call gives back.
abbrev pub continue_with : {A : Type 0} → Outcome IpcError Tables → TablesMethod A → TablesMethod A
continue_with (ok s) next t = next s
continue_with (err e) next t = (err e, t)
continue_with panic next t = (panic, t)

unfoldable pub install_derived_capability_locked : Link → Link → ℕ → TablesMethod Handle
install_derived_capability_locked dst parent requested_rights t =
    (lift (check_derivation dst parent requested_rights t)
        >> (allocate_capability_id >>= λ cap_id.
            lift (asserted (not (t.entries dst).occupied)) >> λ s.
            continue_with (place_derived dst parent requested_rights cap_id s)
              (count_handle dst (t.entries parent).object_index (t.entries dst).handle_generation)
              s))
      t

-- The slot of the process whose identifier it is, among the identifiers of the occupied ones.
unfoldable pub process_from : ℕ → ℕ → ℕ → (ℕ → Option ℕ) → Option ℕ
process_from zero i current_pid processes = none
process_from (suc n) i current_pid processes =
    let rest = process_from n (i + 1) current_pid processes in
    elim (processes i) [ none ↦ rest | some pid ↦ if pid == current_pid then some i else rest ]

unfoldable pub resolve_current_process_slot : ℕ → (ℕ → Option ℕ) → Outcome IpcError ℕ
resolve_current_process_slot current_pid processes =
    elim (process_from max_processes 0 current_pid processes) [
      | some i ↦ ok i
      | none ↦ err invalid_process
    ]

-- `capability_derive` and `capability_duplicate` in the slot of the process that calls.
unfoldable pub capability_derive : ℕ → Handle → ℕ → TablesMethod Handle
capability_derive proc_slot src_handle requested_rights t =
    let src = link_at proc_slot (slot_index src_handle) in
    if leb max_handles_per_process src.hslot
    then (err invalid_handle, t)
    else (lift (allocate_handle_slot_locked proc_slot t) >>= λ h.
          install_derived_capability_locked (link_at proc_slot h) src requested_rights)
        t

unfoldable pub capability_duplicate : ℕ → Handle → TablesMethod Handle
capability_duplicate proc_slot src_handle t =
    let src = link_at proc_slot (slot_index src_handle) in
    let entry = t.entries src in
    if leb max_handles_per_process src.hslot
    then (err invalid_handle, t)
    else if not entry.occupied || not (entry.handle_generation == generation_of src_handle)
    then (err invalid_handle, t)
    else (lift (allocate_handle_slot_locked proc_slot t) >>= λ h.
          install_derived_capability_locked (link_at proc_slot h) src entry.rights)
        t
