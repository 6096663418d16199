-- ===== src/Kernel/Cap/Trees.antt =====
-- Runs of kernel/src/cap on a small tree: a root with two children, one of which has a child of its
-- own in process 1.
use project_zero.Base.{
  ℕ, ◌≤◌, ◌<◌, ◌≡◌, ◌↔◌, refl, sym, subst, true, false, List, [], ◌∷◌, All, ok, arith,
  if◌then◌else◌, ◌==◌,
}
use project_zero.Kernel.Ipc.{
  HandleEntry, new_handle, Link, no_link, link_eq, link_eq_sound, write, write_at, KernelObjectType,
  empty_header,
}
use project_zero.Kernel.Cap.{
  CapabilityNode, empty_node, Nodes, Tables, answers_to, lookup_capability_by_id_locked,
  allocate_capability_id, remove_child_locked, remove_from, each_sibling, replace_child_locked,
  replace_from,
}
use project_zero.Kernel.Cap.Ops.{link_at, allocate_handle_slot_locked, free_slot_from}
use project_zero.Kernel.Cap.Leave.{
  capability_close_locked, close_nodes, close_child, splice_children, vacate, drop_reference,
  install_moved_capability_locked, place_moved, move_nodes,
}
use project_zero.Kernel.Cap.Transfer.{transfer_move_locked, check_move}
use project_zero.Kernel.Cap.Validate.{
  validate_handle_locked, validate_capability_locked, close_handle_locked,
}
use project_zero.Kernel.Cap.Chains.{IsChain, IsDistinct, HasChildren}
use project_zero.Kernel.Cap.Reparent.{StandsIn}
use project_zero.Kernel.Cap.Closing.{capability_close_locked_lem}
use project_zero.Kernel.Cap.Stale.{
  IsStale, close_handle_locked-IsStale, transfer_move_locked-IsStale,
  validate_capability_locked_lem,
}
use project_zero.Kernel.Cap.Unique.{IsIdentified, holds, id_at}
use project_zero.Kernel.Cap.Confinement.{IsNarrow}
use project_zero.Kernel.Cap.Calls.{CapCall, delegate, close, run_all}
use project_zero.Kernel.Cap.Fresh.{run_all-IsIdentified}
use project_zero.Kernel.Cap.Lookup.{lookup_capability_by_id_locked_lem}

abbrev root : Link
root = link_at 0 0

abbrev middle : Link
middle = link_at 0 1

abbrev brother : Link
brother = link_at 0 2

abbrev leaf : Link
leaf = link_at 1 0

-- By process and handle slot; a slot that is not named is empty.
abbrev node_at : ℕ → ℕ → Link → Link → Link → CapabilityNode
node_at id depth parent first_child next_sibling = record empty_node {
  capability_id = id;
  parent = parent;
  parent_gen = 1;
  derivation_depth = depth;
  first_child = first_child;
  next_sibling = next_sibling;
}

abbrev nodes : Nodes
nodes = write_at root (node_at 1 0 no_link middle no_link) (
    write_at middle (node_at 2 1 root leaf brother) (
      write_at brother (node_at 3 1 root no_link no_link)
        (write_at leaf (node_at 4 2 middle no_link no_link) (λ l. empty_node))))

abbrev used : HandleEntry
used = record {
  object_index = 3;
  handle_generation = 1;
  object_generation = 1;
  rights = 0x0330;
  endpoint = 0;
  occupied = true;
}

abbrev unused : HandleEntry
unused = record used { occupied = false }

abbrev entries : Link → HandleEntry
entries =
    write_at root used
      (write_at middle used (write_at brother used (write_at leaf used (λ l. unused))))

abbrev family : Tables
family = record {
  entries = entries;
  counts = λ p. if p == 0 then 3 else if p == 1 then 1 else 0;
  nodes = nodes;
  next_capability_id = 5;
  object_table = record {
    objects = λ i. record {
      occupied = true;
      obj_type = KernelObjectType.channel;
      generation = 1;
      pool_index = 0;
      header = record empty_header { handle_refs = 4 };
    };
    next_object_id = 2;
  };
}

middle-StandsIn : StandsIn nodes middle [] (brother ∷ []) (leaf ∷ [])
unfolding IsChain IsDistinct write_at
middle-StandsIn = record {
  there = refl;
  parent_there = refl;
  parent_other = refl;
  siblings = record { chain = (refl, refl, (refl, refl, refl)); distinct = ((refl, tt), (tt, tt)) };
  children = (refl, refl, refl);
  not_own = (refl, tt);
  apart = ((refl, tt), (tt, tt));
}

capability_close_locked_example :
    ((capability_close_locked middle family).0 ≡ ok (3, 0))
    × HasChildren (capability_close_locked middle family).1.nodes root (leaf ∷ brother ∷ [])
    × All (λ k. ((capability_close_locked middle family).1.nodes k).parent ≡ root) (leaf ∷ [])
unfolding write_at
capability_close_locked_example =
    capability_close_locked_lem family middle [] (brother ∷ []) (leaf ∷ []) middle-StandsIn refl

-- Process 0 closes its second handle.
close_accepted : (close_handle_locked 0 (new_handle 1 1) family).0 ≡ ok (3, 0)
unfolding close_handle_locked capability_close_locked close_nodes close_child splice_children vacate
    drop_reference remove_child_locked remove_from each_sibling write_at
close_accepted = refl

close_handle_locked_example :
    IsStale 0 (new_handle 1 1) (close_handle_locked 0 (new_handle 1 1) family).1
close_handle_locked_example =
    close_handle_locked-IsStale 0 (new_handle 1 1) family (3, 0) close_accepted

-- It moves its second capability to process 1.
move_accepted : (transfer_move_locked middle 1 family).0 ≡ ok (new_handle 1 1)
unfolding transfer_move_locked check_move allocate_handle_slot_locked free_slot_from
    allocate_capability_id install_moved_capability_locked place_moved move_nodes
    replace_child_locked replace_from each_sibling vacate write write_at
move_accepted = refl

transfer_move_locked_example : IsStale 0 (new_handle 1 1) (transfer_move_locked middle 1 family).1
unfolding write_at
transfer_move_locked_example =
    transfer_move_locked-IsStale 0 (new_handle 1 1) 1 family (new_handle 1 1) refl move_accepted

validate_capability_locked_example :
    validate_capability_locked 1 (new_handle 0 1) 0 family
    ≡ validate_handle_locked 1 (new_handle 0 1) 0 family
validate_capability_locked_example = validate_capability_locked_lem 1 (new_handle 0 1) 0 family

family_given : (l : Link) → holds family l ≡ true → (1 ≤ id_at family l) × (id_at family l < 5)
unfolding write_at
family_given l h = ground arith

-- The slot of an identifier.
abbrev slot_of : ℕ → Link
slot_of id = if id == 1 then root else if id == 2 then middle else if id == 3 then brother else leaf

family_slot : (l : Link) → holds family l ≡ true → link_eq (slot_of (id_at family l)) l ≡ true
unfolding write_at
family_slot l h = ground arith

family_unique :
    (j k : Link)
    → holds family j ≡ true
    → holds family k ≡ true
    → id_at family j ≡ id_at family k
    → link_eq j k ≡ true
family_unique j k h i e =
    let same : link_eq (slot_of (id_at family j)) k ≡ true =
      subst (λ n. link_eq (slot_of n) k ≡ true) (sym e) (family_slot k i) in
    let first : slot_of (id_at family j) ≡ j =
      link_eq_sound (slot_of (id_at family j)) j (family_slot j h) in
    subst (λ l. link_eq l k ≡ true) first same

family-IsIdentified : IsIdentified family
unfolding write_at
family-IsIdentified = record {
  first = omega arith;
  given = λ l h. family_given l h;
  unique = λ j k h i e. family_unique j k h i e;
}

lookup_capability_by_id_locked_example :
    (lookup_capability_by_id_locked 4 family ≡ ok leaf) ↔ (answers_to 4 family leaf ≡ true)
lookup_capability_by_id_locked_example =
    lookup_capability_by_id_locked_lem 4 family family-IsIdentified leaf refl

family-IsNarrow : IsNarrow family
unfolding write_at
family-IsNarrow l = ground arith

-- Process 0 delegates its second capability to process 1, which closes it again.
abbrev calls : List CapCall
calls = delegate middle 1 0x0030 (omega arith) ∷ close 1 (new_handle 1 1) ∷ []

run_all-IsIdentified_example : IsIdentified (run_all calls family)
run_all-IsIdentified_example = run_all-IsIdentified calls family family-IsNarrow family-IsIdentified
