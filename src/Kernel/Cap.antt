-- ===== src/Kernel/Cap.antt =====
-- kernel/src/cap/types.rs and kernel/src/cap/node.rs: the tree in which capabilities are derived from
-- each other. The handle tables, the nodes and the objects are one state. A loop along the siblings
-- has fuel for every slot; without fuel it counts as a panic.
pub mod Ops
pub mod Leave
pub mod Transfer
pub mod Validate
pub mod Derivation
pub mod Endings
pub mod Confinement
pub mod Calls
pub mod Census
pub mod Counting
pub mod Leaving
pub mod Accounts
pub mod Slots
pub mod Stale
pub mod Identity
pub mod Unique
pub mod Lookup
pub mod Chains
pub mod Pigeonhole
pub mod Siblings
pub mod Removal
pub mod Adoption
pub mod Reparent
pub mod Closing
mod Tests
mod Trees
pub mod Fresh
use project_zero.Base.{
  ℕ, zero, suc, ◌+◌, ◌-◌, ◌^◌, Bool, true, false, not, ◌&&◌, Outcome, ok, err, panic, ltb, ◌==◌,
  if◌then◌else◌, Option, none, some,
}
use project_zero.Base.Results.{◌>>=◌}
use project_zero.Base.Method.{Method}
use project_zero.Kernel.Ipc.{
  IpcError, capability_id_exhausted, invalid_capability, HandleEntry, Link, no_link, link_eq,
  write_at, max_processes, max_handles_per_process,
}
use project_zero.Kernel.Ipc.Objects.{ObjectTable}

abbrev pub max_derivation_depth : ℕ
max_derivation_depth = 8

-- `cap_rights::DUPLICATE` and `cap_rights::TRANSFER`.
abbrev pub cap_duplicate : ℕ
cap_duplicate = 0x0100

abbrev pub cap_transfer : ℕ
cap_transfer = 0x0200

-- `rights::DUPLICATE` and `rights::TRANSFER`.
abbrev pub duplicate : ℕ
duplicate = 0x0020

abbrev pub transfer : ℕ
transfer = 0x0010

pub record CapabilityNode : Type 0 where
  pub capability_id : ℕ  -- u64
  pub parent : Link
  pub parent_gen : ℕ  -- u16
  pub derivation_depth : ℕ  -- u8
  pub is_revoked : Bool
  pub flags : ℕ  -- u16
  pub first_child : Link
  pub next_sibling : Link

abbrev pub empty_node : CapabilityNode
empty_node = record {
  capability_id = 0;
  parent = no_link;
  parent_gen = 0;
  derivation_depth = 0;
  is_revoked = false;
  flags = 0;
  first_child = no_link;
  next_sibling = no_link;
}

abbrev pub Nodes : Type 0
Nodes = Link → CapabilityNode

-- `PROCESS_HANDLE_TABLES` (entries and counts), `CAPABILITY_NODE_TABLE`, `NEXT_CAPABILITY_ID` and the
-- objects.
pub record Tables : Type 0 where
  pub entries : Link → HandleEntry
  pub counts : ℕ → ℕ  -- u16
  pub nodes : Nodes
  pub next_capability_id : ℕ  -- u64
  pub object_table : ObjectTable

abbrev pub TablesMethod : Type 0 → Type 0
TablesMethod A = Method Tables IpcError A

abbrev pub in_table : Link → Bool
in_table l = ltb l.pslot max_processes && ltb l.hslot max_handles_per_process

-- `pslot != 0xFF && hslot != 0xFF`.
abbrev pub is_link : Link → Bool
is_link l = not (l.pslot == 255) && not (l.hslot == 255)

-- The atomic exchange of the loop succeeds under the lock in its first round.
unfoldable pub allocate_capability_id : TablesMethod ℕ
allocate_capability_id t =
    if t.next_capability_id == 2 ^ 64 - 1
    then (err capability_id_exhausted, t)
    else (ok t.next_capability_id, record t { next_capability_id = t.next_capability_id + 1 })

abbrev pub answers_to : ℕ → Tables → Link → Bool
answers_to target_id t l =
    (t.entries l).occupied && not (t.nodes l).is_revoked && (t.nodes l).capability_id == target_id

-- The inner loop, over `n` slots of a process from `h` on.
unfoldable pub lookup_in_process : ℕ → ℕ → ℕ → ℕ → Tables → Option Link
lookup_in_process zero p h target_id t = none
lookup_in_process (suc n) p h target_id t =
    let rest = lookup_in_process n p (h + 1) target_id t in
    let l : Link = record { pslot = p; hslot = h } in
    if answers_to target_id t l then some l else rest

unfoldable pub lookup_from : ℕ → ℕ → ℕ → Tables → Option Link
lookup_from zero p target_id t = none
lookup_from (suc n) p target_id t =
    let rest = lookup_from n (p + 1) target_id t in
    elim (lookup_in_process max_handles_per_process p 0 target_id t) [
      | some l ↦ some l
      | none ↦ rest
    ]

unfoldable pub lookup_capability_by_id_locked : ℕ → Tables → Outcome IpcError Link
lookup_capability_by_id_locked target_id t =
    if target_id == 0
    then err invalid_capability
    else elim (lookup_from max_processes 0 target_id t) [
      | some l ↦ ok l
      | none ↦ err invalid_capability
    ]

-- One round more than there are slots, for the test that ends the loop.
abbrev pub chain_fuel : ℕ
chain_fuel = 513

abbrev pub set_first_child : Link → Link → Nodes → Nodes
set_first_child l first nodes = write_at l (record (nodes l) { first_child = first }) nodes

abbrev pub set_next_sibling : Link → Link → Nodes → Nodes
set_next_sibling l next nodes = write_at l (record (nodes l) { next_sibling = next }) nodes

unfoldable pub add_child_locked : Link → Link → Nodes → Outcome IpcError Nodes
add_child_locked parent child nodes =
    if in_table parent && in_table child
    then ok (set_first_child parent child (set_next_sibling child (nodes parent).first_child nodes))
    else panic

-- The loop for the sibling before the child.
unfoldable pub remove_from : ℕ → Link → Link → Nodes → Outcome IpcError Nodes
remove_from zero curr child nodes = panic
remove_from (suc fuel) curr child nodes =
    let next = (nodes curr).next_sibling in
    let rest = remove_from fuel next child nodes in
    if in_table curr
    then if link_eq next child
      then ok (set_next_sibling curr (nodes child).next_sibling nodes)
      else rest
    else ok nodes

unfoldable pub remove_child_locked : Link → Link → Nodes → Outcome IpcError Nodes
remove_child_locked parent child nodes =
    if in_table parent && in_table child
    then ((if link_eq (nodes parent).first_child child
          then ok (set_first_child parent (nodes child).next_sibling nodes)
          else remove_from chain_fuel (nodes parent).first_child child nodes)
        >>= λ unlinked. ok (set_next_sibling child no_link unlinked))
    else panic

unfoldable pub replace_from : ℕ → Link → Link → Link → Nodes → Outcome IpcError Nodes
replace_from zero curr old new nodes = panic
replace_from (suc fuel) curr old new nodes =
    let next = (nodes curr).next_sibling in
    let rest = replace_from fuel next old new nodes in
    if in_table curr
    then if link_eq next old
      then ok (set_next_sibling curr new (set_next_sibling new (nodes old).next_sibling nodes))
      else rest
    else ok nodes

unfoldable pub replace_child_locked : Link → Link → Link → Nodes → Outcome IpcError Nodes
replace_child_locked parent old new nodes =
    if in_table parent && in_table old && in_table new
    then if link_eq (nodes parent).first_child old
      then ok (set_first_child parent new (set_next_sibling new (nodes old).next_sibling nodes))
      else replace_from chain_fuel (nodes parent).first_child old new nodes
    else panic

-- A loop that updates each node along the siblings, and remembers the last one.
unfoldable pub each_sibling :
    ℕ → (CapabilityNode → CapabilityNode) → Link → Link → Nodes → Outcome IpcError (Nodes × Link)
each_sibling zero update curr last nodes = panic
each_sibling (suc fuel) update curr last nodes =
    let updated = write_at curr (update (nodes curr)) nodes in
    let rest = each_sibling fuel update (updated curr).next_sibling curr updated in
    if in_table curr then rest else ok (nodes, last)
