-- ===== src/Kernel/Cap/Leaving.antt =====
-- The counters of kernel/src/cap when a capability is closed or moved away.
use project_zero.Base.{
  ℕ, ◌+◌, ◌-◌, ◌<◌, ◌≡◌, refl, sym, ap, ◌∙◌, inl, inr, true, false, ltb, arith, Bool-cases,
  eq_or_ne,
}
use project_zero.Kernel.Ipc.{
  HandleEntry, Link, link_eq, link_eq_sound, write, write_at, next_generation,
}
use project_zero.Kernel.Cap.{Nodes, Tables, in_table}
use project_zero.Kernel.Cap.Ops.{set_handle_refs}
use project_zero.Kernel.Cap.Leave.{vacate, drop_reference}
use project_zero.Kernel.Cap.Endings.{moved_tables, closed_tables}
use project_zero.Kernel.Cap.Census.{row, total, held, refers_to, row_each, total_written}
use project_zero.Kernel.Cap.Counting.{
  IsAlive, IsCounted, IsAlive-set, occupied-set, handle_refs-set,
}

module _ (t : Tables) (v : IsCounted t) (l : Link) (nodes : Nodes) (there : in_table l ≡ true)
    (filled : (t.entries l).occupied ≡ true) where
  abbrev gone : HandleEntry
  gone = record (t.entries l) {
    occupied = false;
    handle_generation = next_generation (t.entries l).handle_generation;
  }

  abbrev i : ℕ
  i = (t.entries l).object_index

  abbrev rest : Tables
  rest = record t {
    entries = write_at l gone t.entries;
    counts = write l.pslot (t.counts l.pslot - 1) t.counts;
    nodes = nodes;
  }

  abbrev refs : ℕ
  refs = (t.object_table.objects i).header.handle_refs

  closed_eq : closed_tables l nodes t ≡ set_handle_refs i (refs - 1) rest
  unfolding vacate drop_reference
  closed_eq =
      let a = v.alive l there filled in
      let q : ltb i 256 ≡ true = ground (arith, a.in_range) in rw (q, a.there) refl

  close_row :
      (p : ℕ)
      → p < 16
      → write l.pslot (t.counts l.pslot - 1) t.counts p ≡ row held (write_at l gone t.entries) p
  unfolding write
  close_row p b = ground (
    arith,
    ap (λ k. t.counts k),
    v.handles p b,
    v.handles l.pslot,
    row_each held t.entries l gone p there,
    eq_or_ne l.pslot p,
  )

  close_references :
      (j : ℕ)
      → ((set_handle_refs i (refs - 1) rest).object_table.objects j).occupied ≡ true
      → ((set_handle_refs i (refs - 1) rest).object_table.objects j).header.handle_refs
        ≡ total (refers_to j) (write_at l gone t.entries)
  close_references j o =
      let change = total_written (refers_to j) t.entries l gone there in
      let there_before : (t.object_table.objects j).occupied ≡ true =
        sym (occupied-set i (refs - 1) rest j) ∙ o in
      handle_refs-set i (refs - 1) rest j ∙ elim (eq_or_ne i j) [
        | inl q ↦ ground (
          arith,
          change,
          v.references j there_before,
          ap (λ k. (t.object_table.objects k).header.handle_refs) q,
        )
        | inr q ↦ ground (arith, change, v.references j there_before)
      ]

  close-IsAlive :
      (k : Link)
      → in_table k ≡ true
      → (write_at l gone t.entries k).occupied ≡ true
      → IsAlive
          (set_handle_refs i (refs - 1) rest).object_table.objects
          (write_at l gone t.entries k)
  unfolding write_at
  close-IsAlive k b = elim (Bool-cases (link_eq l k)) [
    | inl q ↦ rw q (λ o. absurd cc)
    | inr q ↦ rw q (λ o. IsAlive-set i (refs - 1) rest (t.entries k) (v.alive k b o))
  ]

  -- A close keeps the counters right.
  pub closed-IsCounted : IsCounted (closed_tables l nodes t)
  closed-IsCounted =
      rw closed_eq
        (record { handles = close_row; references = close_references; alive = close-IsAlive })

-- A vacant slot is not one that holds a capability.
pub apart :
    (t : Tables) (dst src : Link)
    → (t.entries dst).occupied ≡ false
    → (t.entries src).occupied ≡ true
    → link_eq dst src ≡ false
apart t dst src vacant filled = elim (Bool-cases (link_eq dst src)) [
  | inl q ↦ let e = ap (λ k. (t.entries k).occupied) (link_eq_sound dst src q) in absurd cc
  | inr q ↦ q
]

module _ (t : Tables) (v : IsCounted t) (dst src : Link) (nodes : Nodes)
    (dst_there : in_table dst ≡ true) (src_there : in_table src ≡ true)
    (filled : (t.entries src).occupied ≡ true) (vacant : (t.entries dst).occupied ≡ false) where
  abbrev there : HandleEntry
  there = record (t.entries src) { handle_generation = (t.entries dst).handle_generation }

  abbrev between : Link → HandleEntry
  between = write_at dst there t.entries

  abbrev left : HandleEntry
  left = record (between src) {
    occupied = false;
    handle_generation = next_generation (between src).handle_generation;
  }

  source_stays : between src ≡ t.entries src
  unfolding write_at
  source_stays = rw (apart t dst src vacant filled) refl

  abbrev fewer : ℕ → ℕ
  fewer = write src.pslot (t.counts src.pslot - 1) t.counts

  moved_row :
      (p : ℕ)
      → p < 16
      → write dst.pslot (fewer dst.pslot + 1) fewer p ≡ row held (write_at src left between) p
  unfolding write
  moved_row p b = ground (
    arith,
    ap (λ k. t.counts k),
    v.handles p b,
    v.handles src.pslot,
    v.handles dst.pslot,
    row_each held t.entries dst there p dst_there,
    row_each held t.entries src left p src_there,
    row_each held between src left p src_there,
    ap (λ (e : HandleEntry). held e) source_stays,
    eq_or_ne src.pslot p,
    eq_or_ne dst.pslot p,
  )

  moved_references :
      (j : ℕ)
      → (t.object_table.objects j).occupied ≡ true
      → (t.object_table.objects j).header.handle_refs
        ≡ total (refers_to j) (write_at src left between)
  moved_references j o =
      let first = total_written (refers_to j) t.entries dst there dst_there in
      let second = total_written (refers_to j) between src left src_there in
      let same = ap (λ (e : HandleEntry). refers_to j e) source_stays in
      ground (arith, v.references j o, first, second, same)

  moved-IsAlive :
      (k : Link)
      → in_table k ≡ true
      → (write_at src left between k).occupied ≡ true
      → IsAlive t.object_table.objects (write_at src left between k)
  unfolding write_at
  moved-IsAlive k b = elim (Bool-cases (link_eq src k)) [
    | inl q ↦ rw q (λ o. absurd cc)
    | inr q ↦ elim (Bool-cases (link_eq dst k)) [
      | inl r ↦
          rw (q, r)
            (λ o.
              let a = v.alive src src_there filled in
              record { in_range = a.in_range; there = a.there; same = a.same })
      | inr r ↦ rw (q, r) (λ o. v.alive k b o)
    ]
  ]

  -- And so does a move.
  pub moved-IsCounted : IsCounted (moved_tables dst src nodes t)
  unfolding vacate
  moved-IsCounted = record {
    handles = moved_row;
    references = moved_references;
    alive = moved-IsAlive;
  }
