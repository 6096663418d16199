-- ===== src/Kernel/Cap/Counting.antt =====
-- The counters of kernel/src/cap: a process counts its capabilities, an object its references.
use project_zero.Base.{
  ℕ, ◌+◌, ◌≤◌, ◌<◌, ◌≡◌, sym, ap, ◌∙◌, inl, inr, true, false, ok, ◌==◌, if◌then◌else◌, arith,
  Bool-cases, eq_or_ne,
}
use project_zero.Kernel.Ipc.{
  HandleEntry, new_handle, Link, link_eq, write, write_at, KernelObjectSlot,
}
use project_zero.Kernel.Cap.{Nodes, Tables, in_table}
use project_zero.Kernel.Cap.Ops.{count_handle, set_handle_refs}
use project_zero.Kernel.Cap.Census.{
  row, total, held, refers_to, row_each, total_written, row_bound, total_bound, held_bound,
  refers_to_bound,
}

-- The object is there, and is still the one that was meant.
pub record IsAlive (objects : ℕ → KernelObjectSlot) (e : HandleEntry) : Type 0 where
  pub in_range : e.object_index < 256
  pub there : (objects e.object_index).occupied ≡ true
  pub same : (objects e.object_index).generation ≡ e.object_generation

pub record IsCounted (t : Tables) : Type 0 where
  pub handles : (p : ℕ) → p < 16 → t.counts p ≡ row held t.entries p
  pub references :
      (i : ℕ)
      → (t.object_table.objects i).occupied ≡ true
      → (t.object_table.objects i).header.handle_refs ≡ total (refers_to i) t.entries
  pub alive :
      (l : Link)
      → in_table l ≡ true
      → (t.entries l).occupied ≡ true
      → IsAlive t.object_table.objects (t.entries l)

module _ (t : Tables) (v : IsCounted t) where
  pub count_bound : (p : ℕ) → p < 16 → t.counts p ≤ 32
  count_bound p b = omega (arith, v.handles p b, row_bound held t.entries p held_bound)

  pub refs_bound :
      (i : ℕ)
      → (t.object_table.objects i).occupied ≡ true
      → (t.object_table.objects i).header.handle_refs ≤ 512
  refs_bound i o =
      omega (arith, v.references i o, total_bound (refers_to i) t.entries (refers_to_bound i))

  -- The identifiers and the nodes do not matter.
  pub recount :
      (nodes : Nodes) (id : ℕ) → IsCounted (record t { nodes = nodes; next_capability_id = id })
  recount nodes id = record { handles = v.handles; references = v.references; alive = v.alive }

module _ (i refs : ℕ) (t : Tables) (j : ℕ) where
  abbrev after : KernelObjectSlot
  after = (set_handle_refs i refs t).object_table.objects j

  abbrev before : KernelObjectSlot
  before = t.object_table.objects j

  same_slot : i ≡ j → t.object_table.objects i ≡ before
  same_slot e = ap (λ k. t.object_table.objects k) e

  pub occupied-set : after.occupied ≡ before.occupied
  unfolding write
  occupied-set = elim (eq_or_ne i j) [
    | inl e ↦ ground (arith, ap (λ s. s.occupied) (same_slot e))
    | inr e ↦ ground arith
  ]

  generation-set : after.generation ≡ before.generation
  unfolding write
  generation-set = elim (eq_or_ne i j) [
    | inl e ↦ ground (arith, ap (λ s. s.generation) (same_slot e))
    | inr e ↦ ground arith
  ]

  pub handle_refs-set :
      after.header.handle_refs ≡ (if i == j then refs else before.header.handle_refs)
  unfolding write
  handle_refs-set = ground arith

pub IsAlive-set :
    (i refs : ℕ) (t : Tables) (e : HandleEntry)
    → IsAlive t.object_table.objects e
    → IsAlive (set_handle_refs i refs t).object_table.objects e
IsAlive-set i refs t e a = record {
  in_range = a.in_range;
  there = occupied-set i refs t e.object_index ∙ a.there;
  same = generation-set i refs t e.object_index ∙ a.same;
}

-- A new entry is written in a vacant slot.
module _ (t : Tables) (v : IsCounted t) (l : Link) (e : HandleEntry) (nodes : Nodes) (id g : ℕ)
    (there : in_table l ≡ true) (vacant : (t.entries l).occupied ≡ false)
    (filled : e.occupied ≡ true) (live : IsAlive t.object_table.objects e) where
  abbrev placed : Tables
  placed = record t { entries = write_at l e t.entries; nodes = nodes; next_capability_id = id }

  abbrev refs : ℕ
  refs = (t.object_table.objects e.object_index).header.handle_refs

  abbrev counted : Tables
  counted =
      set_handle_refs e.object_index (refs + 1)
        (record placed { counts = write l.pslot (t.counts l.pslot + 1) t.counts })

  -- Neither counter overflows.
  pub count_handle_ok :
      count_handle l e.object_index g placed ≡ (ok (new_handle l.hslot g), counted)
  unfolding count_handle
  count_handle_ok =
      let few = count_bound t v l.pslot (ground arith) in
      let rare = refs_bound t v e.object_index live.there in ground arith

  count_row :
      (p : ℕ)
      → p < 16
      → write l.pslot (t.counts l.pslot + 1) t.counts p ≡ row held (write_at l e t.entries) p
  unfolding write
  count_row p b = ground (
    arith,
    ap (λ k. t.counts k),
    v.handles p b,
    v.handles l.pslot,
    row_each held t.entries l e p there,
    eq_or_ne l.pslot p,
  )

  count_references :
      (i : ℕ)
      → (counted.object_table.objects i).occupied ≡ true
      → (counted.object_table.objects i).header.handle_refs
        ≡ total (refers_to i) (write_at l e t.entries)
  count_references i o =
      let change = total_written (refers_to i) t.entries l e there in
      let there_before : (t.object_table.objects i).occupied ≡ true =
        sym (occupied-set e.object_index (refs + 1) placed i) ∙ o in
      handle_refs-set e.object_index (refs + 1) placed i ∙ elim (eq_or_ne e.object_index i) [
        | inl q ↦ ground (
          arith,
          change,
          v.references i there_before,
          ap (λ k. (t.object_table.objects k).header.handle_refs) q,
        )
        | inr q ↦ ground (arith, change, v.references i there_before)
      ]

  count-IsAlive :
      (k : Link)
      → in_table k ≡ true
      → (write_at l e t.entries k).occupied ≡ true
      → IsAlive counted.object_table.objects (write_at l e t.entries k)
  unfolding write_at
  count-IsAlive k b = elim (Bool-cases (link_eq l k)) [
    | inl q ↦ rw q (λ o. IsAlive-set e.object_index (refs + 1) placed e live)
    | inr q ↦ rw q (λ o. IsAlive-set e.object_index (refs + 1) placed (t.entries k) (v.alive k b o))
  ]

  -- The counters stay right.
  pub count_handle-IsCounted : IsCounted (count_handle l e.object_index g placed).1
  count_handle-IsCounted =
      rw count_handle_ok
        (record { handles = count_row; references = count_references; alive = count-IsAlive })
