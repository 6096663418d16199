-- ===== src/Kernel/Cap/Tests.antt =====
-- Runs of kernel/src/cap on tables with one channel: its creator, process 0, has the first capability.
use project_zero.Base.{
  ℕ, ◌≤◌, ◌<◌, ◌≡◌, ◌↔◌, refl, sym, subst, inl, inr, true, false, List, [], ◌∷◌, err, arith,
  Bool-cases,
}
use project_zero.Kernel.Ipc.{
  HandleEntry, new_handle, Link, link_eq, write_at, KernelObjectType, empty_header,
  handle_table_full,
}
use project_zero.Kernel.Cap.{empty_node, Tables, allocate_capability_id}
use project_zero.Kernel.Cap.Ops.{
  link_at, allocate_handle_entry_locked, allocate_handle_slot_locked, free_slot_from,
  install_root_capability_locked, place_root, count_handle,
}
use project_zero.Kernel.Cap.Census.{row_zero, total_zero, held, refers_to}
use project_zero.Kernel.Cap.Confinement.{IsNarrow, IsBacked}
use project_zero.Kernel.Cap.Counting.{IsCounted}
use project_zero.Kernel.Cap.Calls.{CapCall, delegate, close, run_all, run_all-IsBacked}
use project_zero.Kernel.Cap.Slots.{taken}
use project_zero.Kernel.Cap.Accounts.{run_all-IsCounted, allocate_handle_entry_locked_lem}

abbrev empty_entry : HandleEntry
empty_entry = record {
  object_index = 0;
  handle_generation = 1;
  object_generation = 0;
  rights = 0;
  endpoint = 0;
  occupied = false;
}

abbrev start : Tables
start = record {
  entries = λ l. empty_entry;
  counts = λ p. 0;
  nodes = λ l. empty_node;
  next_capability_id = 1;
  object_table = record {
    objects = λ i. record {
      occupied = true;
      obj_type = KernelObjectType.channel;
      generation = 1;
      pool_index = 0;
      header = empty_header;
    };
    next_object_id = 2;
  };
}

start-IsCounted : IsCounted start
start-IsCounted = record {
  handles = λ p b. sym (row_zero held (λ l. empty_entry) p (λ k. refl));
  references = λ i o. sym (total_zero (refers_to i) (λ l. empty_entry) (λ k. refl));
  alive = λ l i o. absurd cc;
}

allocate_handle_entry_locked_example :
    IsCounted (allocate_handle_entry_locked 0 3 0x0330 0 start).1
    × (((allocate_handle_entry_locked 0 3 0x0330 0 start).0 ≡ err handle_table_full)
        ↔ ((0 < 16) × ((h : ℕ) → h < 32 → taken 0 start h ≡ true)))
allocate_handle_entry_locked_example =
    allocate_handle_entry_locked_lem start 0 3 0x0330 0 start-IsCounted

-- The tables after this.
abbrev boot : Tables
boot = (allocate_handle_entry_locked 0 3 0x0330 0 start).1

boot-IsCounted : IsCounted boot
boot-IsCounted = (allocate_handle_entry_locked_lem start 0 3 0x0330 0 start-IsCounted).0

abbrev first_entry : HandleEntry
first_entry = record empty_entry {
  object_index = 3;
  object_generation = 1;
  rights = 0x0330;
  occupied = true;
}

boot-entries : boot.entries ≡ write_at (link_at 0 0) first_entry (λ l. empty_entry)
unfolding allocate_handle_entry_locked allocate_handle_slot_locked free_slot_from
    install_root_capability_locked allocate_capability_id place_root count_handle
boot-entries = refl

boot-nodes :
    (boot.nodes
      ≡ write_at (link_at 0 0) (record empty_node { capability_id = 1 }) (λ l. empty_node))
    × (boot.next_capability_id ≡ 2)
unfolding allocate_handle_entry_locked allocate_handle_slot_locked free_slot_from
    install_root_capability_locked allocate_capability_id place_root count_handle
boot-nodes = (refl, refl)

boot-IsNarrow : IsNarrow boot
unfolding write_at
boot-IsNarrow l = elim (Bool-cases (link_eq (link_at 0 0) l)) [
  | inl q ↦
      subst (λ (f : Link → HandleEntry). (f l).rights ≤ 65535) (sym boot-entries)
        (rw q (omega arith))
  | inr q ↦
      subst (λ (f : Link → HandleEntry). (f l).rights ≤ 65535) (sym boot-entries)
        (rw q (omega arith))
]

-- The creator delegates to process 1 and closes its own handle.
abbrev calls : List CapCall
calls = delegate (link_at 0 0) 1 0x0030 (omega arith) ∷ close 0 (new_handle 0 1) ∷ []

run_all-IsBacked_example : IsBacked boot (run_all calls boot)
run_all-IsBacked_example = run_all-IsBacked calls boot boot-IsNarrow

run_all-IsCounted_example : IsCounted (run_all calls boot)
run_all-IsCounted_example = run_all-IsCounted calls boot boot-IsNarrow boot-IsCounted
