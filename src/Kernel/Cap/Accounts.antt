-- ===== src/Kernel/Cap/Accounts.antt =====
-- The counters of kernel/src/cap over any calls, and the new capability of an object's creator.
use project_zero.Base.{
  ℕ, ◌+◌, ◌-◌, ◌^◌, ◌≡◌, ◌≢◌, refl, sym, subst, inl, inr, Bool, true, false, ◌&&◌, Outcome, err,
  panic, ◌<◌, ◌↔◌, ltb, ◌==◌, arith, Bool-cases, List, [], ◌∷◌,
}
use project_zero.Kernel.Ipc.{IpcError, handle_table_full, HandleEntry, Handle, Link, write_at}
use project_zero.Kernel.Cap.{Tables, in_table, empty_node, allocate_capability_id}
use project_zero.Kernel.Cap.Ops.{
  link_at, allocate_handle_slot_locked, allocate_handle_entry_locked, count_handle,
  install_root_capability_locked, place_root, install_derived_capability_locked,
}
use project_zero.Kernel.Cap.Leave.{install_moved_capability_locked, capability_close_locked}
use project_zero.Kernel.Cap.Derivation.{
  Unchanged, Installs, installed, install_derived_capability_locked-Installs, derived_entry,
  derived_node, linked_nodes,
}
use project_zero.Kernel.Cap.Endings.{
  Moves, moved, install_moved_capability_locked-Moves, Closes, closed,
  capability_close_locked-Closes,
}
use project_zero.Kernel.Cap.Confinement.{IsNarrow}
use project_zero.Kernel.Cap.Calls.{
  CapCall, run, run_all, Reaches, stays, reserves, derives, moves, closes, run-Reaches,
  run-IsNarrow,
}
use project_zero.Kernel.Cap.Counting.{
  IsAlive, IsCounted, recount, count_handle_ok, count_handle-IsCounted,
}
use project_zero.Kernel.Cap.Slots.{taken, allocate_handle_slot_locked_lem}
use project_zero.Kernel.Cap.Leaving.{closed-IsCounted, moved-IsCounted}

module _ (t : Tables) (v : IsCounted t) where
  unchanged_counted : (s : Tables) → Unchanged t s → IsCounted s
  unchanged_counted s u =
      let rebuilt : record t { next_capability_id = s.next_capability_id } ≡ s = λ i. record {
        entries = (sym u.entries) i;
        counts = (sym u.counts) i;
        nodes = (sym u.nodes) i;
        next_capability_id = s.next_capability_id;
        object_table = (sym u.object_table) i;
      } in
      subst IsCounted rebuilt (recount t v t.nodes s.next_capability_id)

  installs_counted :
      (dst parent : Link) (r : ℕ)
      → Installs dst parent r t
      → IsCounted (install_derived_capability_locked dst parent r t).1
  installs_counted dst parent r (Installs.refused same failed) =
      unchanged_counted (install_derived_capability_locked dst parent r t).1 same
  installs_counted dst parent r (installed may vacant running went) = rw went (
      count_handle-IsCounted t v dst (derived_entry dst parent r t)
        (linked_nodes parent dst (write_at dst (derived_node parent t) t.nodes))
        (t.next_capability_id + 1) (t.entries dst).handle_generation may.there vacant refl
        (record {
          in_range = ground (arith, may.in_range);
          there = may.object_there;
          same = ground (arith, may.object_same);
        }))

  moves_counted :
      (dst src : Link) (id : ℕ)
      → Moves dst src id t
      → IsCounted (install_moved_capability_locked dst src id t).1
  moves_counted dst src id (Moves.refused same failed) = rw same v
  moves_counted dst src id (moved nodes there from held live vacant done went) =
      rw went (moved-IsCounted t v dst src nodes there from held vacant)

  closes_counted : (l : Link) → Closes l t → IsCounted (capability_close_locked l t).1
  closes_counted l (Closes.refused same failed) = rw same v
  closes_counted l (closed nodes there held done went) =
      rw went (closed-IsCounted t v l nodes there held)

module _ (t : Tables) (v : IsCounted t) where
  run_counted : (s : Tables) → Reaches t s → IsCounted s
  run_counted s (stays e) = rw e v
  run_counted s (reserves n e) = rw e (recount t v t.nodes (t.next_capability_id + 1))
  run_counted s (derives dst parent r b e) = rw e (
      installs_counted t v dst parent r (install_derived_capability_locked-Installs dst parent r t))
  run_counted s (moves dst src n e) =
      let reserved : Tables = record t { next_capability_id = t.next_capability_id + 1 } in
      rw e (
        moves_counted reserved (recount t v t.nodes (t.next_capability_id + 1)) dst src
          t.next_capability_id
          (install_moved_capability_locked-Moves dst src t.next_capability_id reserved))
  run_counted s (closes l e) = rw e (closes_counted t v l (capability_close_locked-Closes l t))

-- Any calls keep the counters right: each process counts the capabilities in its table, each object
-- the entries that refer to it, and each entry's object is there with the generation it was taken at.
pub run_all-IsCounted :
    (calls : List CapCall) (t : Tables) → IsNarrow t → IsCounted t → IsCounted (run_all calls t)
run_all-IsCounted [] t narrow v = v
run_all-IsCounted (c ∷ cs) t narrow v =
    run_all-IsCounted cs (run c t) (run-IsNarrow c t narrow)
      (run_counted t v (run c t) (run-Reaches t narrow c))

-- The outcome of a method is anything but that the table of handles is full.
abbrev IsRoomy : {A : Type 0} → Outcome IpcError A → Type 0
IsRoomy o = o ≢ err handle_table_full

module _ (t : Tables) (v : IsCounted t) (p h i rights endpoint : ℕ) where
  abbrev installable : Bool
  installable = in_table (link_at p h) && ltb i 256 && (t.object_table.objects i).occupied

  abbrev root_entry : HandleEntry
  root_entry = record (t.entries (link_at p h)) {
    occupied = true;
    object_index = i;
    object_generation = (t.object_table.objects i).generation;
    rights = rights;
    endpoint = endpoint;
  }

  -- What an installation of a root leaves and answers, with an identifier.
  abbrev Rooted : Outcome IpcError Handle × Tables → Type 0
  Rooted r = IsCounted r.1 × IsRoomy r.0

  root_installed :
      installable ≡ true
      → (t.entries (link_at p h)).occupied ≡ false
      → Rooted (
          count_handle (link_at p h) i (t.entries (link_at p h)).handle_generation (
            place_root
              (link_at p h)
              i
              rights
              endpoint
              t.next_capability_id
              (record t { next_capability_id = t.next_capability_id + 1 })))
  unfolding place_root
  root_installed c o =
      let l = link_at p h in
      let nodes = write_at l (record empty_node { capability_id = t.next_capability_id }) t.nodes in
      let g = (t.entries l).handle_generation in
      let alive : IsAlive t.object_table.objects root_entry = record {
        in_range = ground arith;
        there = ground arith;
        same = refl;
      } in
      let there : in_table l ≡ true = ground arith in
      (
        count_handle-IsCounted t v l root_entry nodes (t.next_capability_id + 1) g there o refl
            alive,
        rw (count_handle_ok t v l root_entry nodes (t.next_capability_id + 1) g there o refl alive)
            (λ q. cc),
      )

  install_root_counted : Rooted (install_root_capability_locked p h i rights endpoint t)
  unfolding install_root_capability_locked allocate_capability_id
  install_root_counted = elim (Bool-cases installable) [
    | inr c ↦ rw c (v, λ q. cc)
    | inl c ↦ elim (Bool-cases (t.next_capability_id == 2 ^ 64 - 1)) [
      | inl e ↦ rw (c, e) (v, λ q. cc)
      | inr e ↦ elim (Bool-cases (t.entries (link_at p h)).occupied) [
        | inl o ↦ rw (c, e, o) (recount t v t.nodes (t.next_capability_id + 1), λ q. cc)
        | inr o ↦ rw (c, e, o) (root_installed c o)
      ]
    ]
  ]

-- A new handle on an object keeps the counters right; it is refused for want of room exactly where
-- each slot of the process holds a capability, so that no counter of references ever overflows.
pub allocate_handle_entry_locked_lem :
    (t : Tables) (p i rights endpoint : ℕ)
    → IsCounted t
    → IsCounted (allocate_handle_entry_locked p i rights endpoint t).1
      × (((allocate_handle_entry_locked p i rights endpoint t).0 ≡ err handle_table_full)
          ↔ ((p < 16) × ((h : ℕ) → h < 32 → taken p t h ≡ true)))
unfolding allocate_handle_entry_locked
allocate_handle_entry_locked_lem t p i rights endpoint v = elim (Bool-cases (ltb p 16)) [
  | inr q ↦
      let e : allocate_handle_slot_locked p t ≡ panic =
        (unfold allocate_handle_slot_locked in rw q refl) in
      rw e (v, (λ z. cc, λ z. absurd (ground (arith, z.0))))
  | inl q ↦ elim (allocate_handle_slot_locked_lem p t (ground arith)) [
    | inl (e, all) ↦ rw e (v, (λ z. (ground arith, all), λ z. refl))
    | inr (h, e, b, f, below) ↦ rw e (
      (install_root_counted t v p h i rights endpoint).0,
      (
        λ z. absurd ((install_root_counted t v p h i rights endpoint).1 z),
        λ z. absurd (let o = z.1 h b in cc),
      ),
    )
  ]
]
