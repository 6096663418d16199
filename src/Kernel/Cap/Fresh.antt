-- ===== src/Kernel/Cap/Fresh.antt =====
-- The calls of kernel/src/cap give out each identifier once.
use project_zero.Base.{ℕ, ◌+◌, ◌≡◌, ◌⊎◌, refl, inl, inr, true, ok, arith, Bool-cases, List, [], ◌∷◌}
use project_zero.Kernel.Ipc.{Link, link_eq, write_at}
use project_zero.Kernel.Cap.{Nodes, Tables}
use project_zero.Kernel.Cap.Ops.{count_handle, install_derived_capability_locked}
use project_zero.Kernel.Cap.Leave.{
  move_nodes, close_nodes, vacate, install_moved_capability_locked, capability_close_locked,
}
use project_zero.Kernel.Cap.Derivation.{
  Installs, installed, install_derived_capability_locked-Installs, derived_tables,
}
use project_zero.Kernel.Cap.Endings.{
  Moves, moved, moved_tables, install_moved_capability_locked-Moves, Closes, closed, closed_tables,
  capability_close_locked-Closes,
}
use project_zero.Kernel.Cap.Confinement.{IsNarrow}
use project_zero.Kernel.Cap.Calls.{
  CapCall, run, run_all, Reaches, stays, reserves, derives, moves, closes, run-Reaches,
  run-IsNarrow,
}
use project_zero.Kernel.Cap.Unique.{
  id_at, holds, IsIdentified, fewer-IsIdentified, one-IsIdentified, counted_keeps, dropped_keeps,
  derived-IsIdentified, alike,
}
use project_zero.Kernel.Cap.Identity.{close_nodes-ids, move_nodes-ids}

-- After a move the destination holds the new identifier, and the source holds none.
moved_kept :
    (t : Tables) (dst src : Link) (nodes : Nodes)
    → move_nodes dst src t.next_capability_id (t.entries dst).handle_generation t.nodes ≡ ok nodes
    → (l : Link) → holds (moved_tables dst src nodes t) l ≡ true
    → ((link_eq dst l ≡ true) × ((nodes l).capability_id ≡ t.next_capability_id))
      ⊎ ((holds t l ≡ true) × ((nodes l).capability_id ≡ id_at t l))
unfolding write_at vacate
moved_kept t dst src nodes done l h =
    let id = move_nodes-ids dst src t.next_capability_id _ t.nodes nodes done l in
    elim (Bool-cases (link_eq src l)) [
      | inl q ↦ absurd (ground arith)
      | inr q ↦ elim (Bool-cases (link_eq dst l)) [
        | inl r ↦ inl (r, ground (arith, id))
        | inr r ↦ inr (ground arith, ground (arith, id))
      ]
    ]

vacated-IsIdentified :
    (t : Tables)
    → IsIdentified t
    → (l : Link) (nodes : Nodes) → close_nodes l t.nodes ≡ ok nodes
    → IsIdentified (record (vacate l t) { nodes = nodes })
unfolding write_at vacate
vacated-IsIdentified t v l nodes done =
    fewer-IsIdentified t (record (vacate l t) { nodes = nodes }) v (omega arith)
      (λ k h.
        let id = close_nodes-ids l t.nodes nodes done k in
        elim (Bool-cases (link_eq l k)) [
          | inl q ↦ absurd (ground arith)
          | inr q ↦ (ground arith, ground (arith, id))
        ])

Installs-IsIdentified :
    (t : Tables)
    → IsIdentified t
    → (dst parent : Link) (r : ℕ) → Installs dst parent r t
    → IsIdentified (install_derived_capability_locked dst parent r t).1
Installs-IsIdentified t v dst parent r (Installs.refused same failed) =
    alike t v (install_derived_capability_locked dst parent r t).1
      (same.entries, same.nodes, same.grows)
Installs-IsIdentified t v dst parent r (installed may vacant running went) =
    let i = (t.entries parent).object_index in
    let gen = (t.entries dst).handle_generation in
    let d = derived_tables dst parent r t in
    let (e, n, c) = counted_keeps dst i gen d in
    rw went (
      alike d (derived-IsIdentified t v dst parent r) (count_handle dst i gen d).1
        (e, n, omega (arith, c)))

Moves-IsIdentified :
    (t : Tables)
    → IsIdentified t
    → (dst src : Link)
    → Moves dst src t.next_capability_id
        (record t { next_capability_id = t.next_capability_id + 1 })
    → IsIdentified
        (install_moved_capability_locked dst src t.next_capability_id
          (record t { next_capability_id = t.next_capability_id + 1 })).1
unfolding vacate
Moves-IsIdentified t v dst src (Moves.refused same failed) = rw same (
    alike t v (record t { next_capability_id = t.next_capability_id + 1 })
      (refl, refl, omega arith))
Moves-IsIdentified t v dst src (moved nodes there from held live vacant done went) =
    let next : Tables = record t { next_capability_id = t.next_capability_id + 1 } in
    rw went (
      one-IsIdentified t (moved_tables dst src nodes next) v dst refl
        (moved_kept t dst src nodes done))

Closes-IsIdentified :
    (t : Tables)
    → IsIdentified t
    → (l : Link) → Closes l t
    → IsIdentified (capability_close_locked l t).1
Closes-IsIdentified t v l (Closes.refused same failed) = rw same v
Closes-IsIdentified t v l (closed nodes there held done went) =
    let s : Tables = record (vacate l t) { nodes = nodes } in
    let (e, n, c) = dropped_keeps (t.entries l).object_index s in
    rw went (
      alike s (vacated-IsIdentified t v l nodes done) (closed_tables l nodes t)
        (e, n, omega (arith, c)))

module _ (t : Tables) (v : IsIdentified t) where
  run-IsIdentified : (s : Tables) → Reaches t s → IsIdentified s
  run-IsIdentified s (stays e) = rw e v
  run-IsIdentified s (reserves n e) = rw e (
      alike t v (record t { next_capability_id = t.next_capability_id + 1 })
        (refl, refl, omega arith))
  run-IsIdentified s (derives dst parent r b e) = rw e (
      Installs-IsIdentified t v dst parent r
        (install_derived_capability_locked-Installs dst parent r t))
  run-IsIdentified s (moves dst src n e) = rw e (
      Moves-IsIdentified t v dst src (
        install_moved_capability_locked-Moves dst src t.next_capability_id
          (record t { next_capability_id = t.next_capability_id + 1 })))
  run-IsIdentified s (closes l e) =
      rw e (Closes-IsIdentified t v l (capability_close_locked-Closes l t))

-- Any calls keep the identifiers in order: each capability has one that is not zero and was given out
-- before, and no two capabilities have the same.
pub run_all-IsIdentified :
    (calls : List CapCall) (t : Tables)
    → IsNarrow t
    → IsIdentified t
    → IsIdentified (run_all calls t)
run_all-IsIdentified [] t narrow v = v
run_all-IsIdentified (c ∷ cs) t narrow v =
    run_all-IsIdentified cs (run c t) (run-IsNarrow c t narrow)
      (run-IsIdentified t v (run c t) (run-Reaches t narrow c))
