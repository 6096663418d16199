-- ===== src/Kernel/Cap/Derivation.antt =====
-- The ways in which `install_derived_capability_locked` of kernel/src/cap/ops.rs ends.
use Prim.Native.Nat.{bit_or}
use project_zero.Base.{
  ℕ, ◌≤◌, ◌+◌, ◌-◌, ◌≡◌, ◌≢◌, refl, inl, inr, true, false, ok, ltb, ◌==◌, arith, Bool-cases, ◌^◌,
}
use project_zero.Base.Results.{Outcome-cases}
use project_zero.Kernel.Ipc.{
  HandleEntry, Handle, Link, write_at, lacks, is_rights_subset, max_kernel_objects,
}
use project_zero.Kernel.Cap.{
  CapabilityNode, empty_node, Nodes, Tables, in_table, set_first_child, set_next_sibling,
  add_child_locked, allocate_capability_id, max_derivation_depth, cap_duplicate, duplicate,
}
use project_zero.Kernel.Cap.Ops.{
  check_derivation, place_derived, count_handle, install_derived_capability_locked,
}

-- Nothing but the counter of identifiers differs.
pub record Unchanged (t s : Tables) : Type 0 where
  pub entries : s.entries ≡ t.entries
  pub counts : s.counts ≡ t.counts
  pub nodes : s.nodes ≡ t.nodes
  pub object_table : s.object_table ≡ t.object_table
  pub grows : t.next_capability_id ≤ s.next_capability_id

pub Unchanged-refl : (t : Tables) → Unchanged t t
Unchanged-refl t = record {
  entries = refl;
  counts = refl;
  nodes = refl;
  object_table = refl;
  grows = omega arith;
}

-- What the guards of a derivation say.
pub record MayDerive (dst parent : Link) (requested : ℕ) (t : Tables) : Type 0 where
  pub there : in_table dst ≡ true
  pub parent_there : in_table parent ≡ true
  pub held : (t.entries parent).occupied ≡ true
  pub live : (t.nodes parent).is_revoked ≡ false
  pub duplicable : lacks (bit_or cap_duplicate duplicate) (t.entries parent).rights ≡ false
  pub narrowed : is_rights_subset requested (t.entries parent).rights ≡ true
  pub shallow : ltb (t.nodes parent).derivation_depth max_derivation_depth ≡ true
  pub in_range : ltb (t.entries parent).object_index max_kernel_objects ≡ true
  pub object_there : (t.object_table.objects (t.entries parent).object_index).occupied ≡ true
  pub object_same :
      ((t.object_table.objects (t.entries parent).object_index).generation
        == (t.entries parent).object_generation)
      ≡ true

pub check_derivation-MayDerive :
    (dst parent : Link) (requested : ℕ) (t : Tables)
    → check_derivation dst parent requested t ≡ ok tt
    → MayDerive dst parent requested t
unfolding check_derivation
check_derivation-MayDerive dst parent requested t h = record {
  there = ground arith;
  parent_there = ground arith;
  held = ground arith;
  live = ground arith;
  duplicable = ground arith;
  narrowed = ground arith;
  shallow = ground arith;
  in_range = ground arith;
  object_there = ground arith;
  object_same = ground arith;
}

-- The entry and the nodes of a derived capability.
abbrev pub derived_entry : Link → Link → ℕ → Tables → HandleEntry
derived_entry dst parent requested t = record (t.entries dst) {
  occupied = true;
  object_index = (t.entries parent).object_index;
  object_generation = (t.entries parent).object_generation;
  rights = requested;
  endpoint = (t.entries parent).endpoint;
}

abbrev pub derived_node : Link → Tables → CapabilityNode
derived_node parent t = record empty_node {
  capability_id = t.next_capability_id;
  parent = parent;
  parent_gen = (t.entries parent).handle_generation;
  derivation_depth = (t.nodes parent).derivation_depth + 1;
}

abbrev pub linked_nodes : Link → Link → Nodes → Nodes
linked_nodes parent dst nodes =
    set_first_child parent dst (set_next_sibling dst (nodes parent).first_child nodes)

abbrev pub derived_tables : Link → Link → ℕ → Tables → Tables
derived_tables dst parent requested t = record t {
  entries = write_at dst (derived_entry dst parent requested t) t.entries;
  nodes = linked_nodes parent dst (write_at dst (derived_node parent t) t.nodes);
  next_capability_id = t.next_capability_id + 1;
}

-- It is installed, or it fails and changes nothing but the counter of identifiers.
pub data Installs (dst parent : Link) (requested : ℕ) (t : Tables) : Type 0 where
  refused :
      Unchanged t (install_derived_capability_locked dst parent requested t).1
      → ((h : Handle) → (install_derived_capability_locked dst parent requested t).0 ≢ ok h)
      → Installs dst parent requested t
  installed :
      MayDerive dst parent requested t
      → (t.entries dst).occupied ≡ false
      → t.next_capability_id ≢ 2 ^ 64 - 1
      → install_derived_capability_locked dst parent requested t
        ≡ count_handle dst
            (t.entries parent).object_index
            (t.entries dst).handle_generation
            (derived_tables dst parent requested t)
      → Installs dst parent requested t

module _ (dst parent : Link) (requested : ℕ) (t : Tables) where
  install_checked :
      check_derivation dst parent requested t ≡ ok tt → Installs dst parent requested t
  unfolding install_derived_capability_locked allocate_capability_id place_derived add_child_locked
  install_checked c =
      let may = check_derivation-MayDerive dst parent requested t c in
      elim (Bool-cases (t.next_capability_id == 2 ^ 64 - 1)) [
        | inl e ↦ refused (rw (c, e) (Unchanged-refl t)) (rw (c, e) (λ h. λ q. cc))
        | inr e ↦ elim (Bool-cases (t.entries dst).occupied) [
          | inl o ↦
              refused
                (rw (c, e, o)
                  (record {
                    entries = refl;
                    counts = refl;
                    nodes = refl;
                    object_table = refl;
                    grows = omega arith;
                  }))
                (rw (c, e, o) (λ h. λ q. cc))
          | inr o ↦ installed may o (ground arith) (rw (c, e, o, may.there, may.parent_there) refl)
        ]
      ]

  pub install_derived_capability_locked-Installs : Installs dst parent requested t
  unfolding install_derived_capability_locked
  install_derived_capability_locked-Installs =
      elim (Outcome-cases (check_derivation dst parent requested t)) [
        | inl (a, c) ↦ install_checked c
        | inr (inl (e, c)) ↦ refused (rw c (Unchanged-refl t)) (rw c (λ h. λ q. cc))
        | inr (inr c) ↦ refused (rw c (Unchanged-refl t)) (rw c (λ h. λ q. cc))
      ]
