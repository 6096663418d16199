-- ===== src/Kernel/Cap/Leave.antt =====
-- kernel/src/cap/ops.rs: how a capability leaves its slot, by a move to another slot or by a close.
use project_zero.Base.{
  ℕ, ◌+◌, ◌-◌, false, not, ◌&&◌, Outcome, ok, err, panic, ltb, ◌==◌, if◌then◌else◌,
}
use project_zero.Base.Results
use project_zero.Base.Words.{u16_mod}
use project_zero.Base.Method.{◌>>◌, lift}
use project_zero.Kernel.Ipc.{
  IpcError, invalid_handle, Handle, new_handle, Link, no_link, next_generation, write, write_at,
  max_kernel_objects,
}
use project_zero.Kernel.Cap.{
  empty_node, Nodes, Tables, TablesMethod, in_table, is_link, remove_child_locked,
  replace_child_locked, each_sibling, chain_fuel, set_first_child, set_next_sibling,
}
use project_zero.Kernel.Cap.Ops.{asserted, continue_with, set_handle_refs}

-- The slot's capability is gone, and its handles are stale.
unfoldable pub vacate : Link → Tables → Tables
vacate l t = record t {
  entries =
      write_at l
        (record (t.entries l) {
          occupied = false;
          handle_generation = next_generation (t.entries l).handle_generation;
        })
        t.entries;
  counts = write l.pslot (t.counts l.pslot - 1) t.counts;
}

-- The nodes after a move: the new node takes the place of the old one below its parent and above its
-- children.
unfoldable pub move_nodes : Link → Link → ℕ → ℕ → Nodes → Outcome IpcError Nodes
move_nodes dst src cap_id dst_gen nodes =
    let node = nodes src in
    let placed =
      write_at dst
        (record node { capability_id = cap_id; is_revoked = false; next_sibling = no_link })
        nodes in
    let spliced =
      if is_link node.parent then replace_child_locked node.parent src dst placed else ok placed in
    Results.◌>>=◌ spliced λ linked.
      Results.◌>>=◌
        (each_sibling chain_fuel (λ child. record child { parent = dst; parent_gen = dst_gen })
          node.first_child no_link linked)
        λ (adopted, last). ok (write_at src empty_node adopted)

unfoldable pub place_moved : Link → Link → ℕ → Tables → Outcome IpcError Tables
place_moved dst src cap_id t =
    let entry = t.entries src in
    let dst_gen = (t.entries dst).handle_generation in
    let placed = record t {
      entries = write_at dst (record entry { handle_generation = dst_gen }) t.entries;
    } in
    Results.◌>>=◌ (move_nodes dst src cap_id dst_gen t.nodes) λ nodes.
      let s = record (vacate src placed) { nodes = nodes } in
      if ltb (s.counts dst.pslot + 1) u16_mod
      then ok (record s { counts = write dst.pslot (s.counts dst.pslot + 1) s.counts })
      else panic

unfoldable pub install_moved_capability_locked : Link → Link → ℕ → TablesMethod Handle
install_moved_capability_locked dst src reserved_capability_id t =
    (lift (
          asserted (
            in_table dst
            && in_table src
            && (t.entries src).occupied
            && not (t.nodes src).is_revoked
            && not (t.entries dst).occupied))
        >> λ s.
            continue_with (place_moved dst src reserved_capability_id s)
              (λ done. (ok (new_handle dst.hslot (t.entries dst).handle_generation), done)) s)
      t

-- The children of a closed capability move up to its parent, in front of the parent's own.
unfoldable pub splice_children : Link → Link → Link → Nodes → Nodes
splice_children parent first last nodes =
    if is_link last
    then set_first_child parent first (set_next_sibling last (nodes parent).first_child nodes)
    else nodes

-- The nodes when a child of a parent is closed, and when a root is.
unfoldable pub close_child : Link → Nodes → Outcome IpcError Nodes
close_child l nodes =
    let node = nodes l in
    Results.◌>>=◌ (remove_child_locked node.parent l nodes) λ unlinked.
      let depth = (unlinked node.parent).derivation_depth in
      Results.◌>>=◌
        (each_sibling chain_fuel
          (λ child. record child {
            parent = node.parent;
            parent_gen = node.parent_gen;
            derivation_depth = if depth == 255 then 255 else depth + 1;
          })
          node.first_child no_link unlinked)
        λ (adopted, last). ok (splice_children node.parent node.first_child last adopted)

unfoldable pub close_root : Link → Nodes → Outcome IpcError Nodes
close_root l nodes =
    Results.◌>>=◌
      (each_sibling chain_fuel
        (λ child. record child { parent = no_link; parent_gen = 0; derivation_depth = 0 })
        (nodes l).first_child no_link nodes)
      λ (adopted, last). ok adopted

unfoldable pub close_nodes : Link → Nodes → Outcome IpcError Nodes
close_nodes l nodes =
    Results.◌>>=◌ (if is_link (nodes l).parent then close_child l nodes else close_root l nodes)
      λ done. ok (write_at l empty_node done)

-- The reference goes back to the object.
unfoldable pub drop_reference : ℕ → Tables → Tables
drop_reference object_index t =
    let slot = t.object_table.objects object_index in
    if ltb object_index max_kernel_objects && slot.occupied
    then set_handle_refs object_index (slot.header.handle_refs - 1) t
    else t

unfoldable pub capability_close_locked : Link → TablesMethod (ℕ × ℕ)
capability_close_locked l t =
    let entry = t.entries l in
    if in_table l
    then if entry.occupied
      then continue_with
          (Results.◌>>=◌ (close_nodes l t.nodes)
            λ nodes. ok (record (vacate l t) { nodes = nodes }))
          (λ s. (ok (entry.object_index, entry.endpoint), drop_reference entry.object_index s)) t
      else (err invalid_handle, t)
    else (panic, t)
