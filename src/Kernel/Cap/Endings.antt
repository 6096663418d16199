-- ===== src/Kernel/Cap/Endings.antt =====
-- The ways in which `install_moved_capability_locked` and `capability_close_locked` of
-- kernel/src/cap/ops.rs end.
use project_zero.Base.{
  ℕ, ◌+◌, ◌≡◌, ◌≢◌, refl, inl, inr, Bool, true, false, not, ◌&&◌, ok, ltb, arith, Bool-cases,
}
use project_zero.Base.Results.{Outcome-cases}
use project_zero.Kernel.Ipc.{Handle, new_handle, Link, write, write_at}
use project_zero.Kernel.Cap.{Nodes, Tables, in_table}
use project_zero.Kernel.Cap.Leave.{
  install_moved_capability_locked, place_moved, move_nodes, vacate, capability_close_locked,
  close_nodes, drop_reference,
}

-- The tables with the entry of a moved capability in both slots.
abbrev pub copied : Link → Link → Tables → Tables
copied dst src t = record t {
  entries =
      write_at dst
        (record (t.entries src) { handle_generation = (t.entries dst).handle_generation })
        t.entries;
}

-- And after the move: the source is vacated, and the process of the destination counts the handle.
abbrev pub moved_tables : Link → Link → Nodes → Tables → Tables
moved_tables dst src nodes t =
    let s = record (vacate src (copied dst src t)) { nodes = nodes } in
    record s { counts = write dst.pslot (s.counts dst.pslot + 1) s.counts }

pub data Moves (dst src : Link) (id : ℕ) (t : Tables) : Type 0 where
  refused :
      (install_moved_capability_locked dst src id t).1 ≡ t
      → ((h : Handle) → (install_moved_capability_locked dst src id t).0 ≢ ok h)
      → Moves dst src id t
  moved :
      (nodes : Nodes)
      → in_table dst ≡ true
      → in_table src ≡ true
      → (t.entries src).occupied ≡ true
      → (t.nodes src).is_revoked ≡ false
      → (t.entries dst).occupied ≡ false
      → move_nodes dst src id (t.entries dst).handle_generation t.nodes ≡ ok nodes
      → install_moved_capability_locked dst src id t ≡ (
        ok (new_handle dst.hslot (t.entries dst).handle_generation),
        moved_tables dst src nodes t,
      )
      → Moves dst src id t

module _ (dst src : Link) (id : ℕ) (t : Tables) where
  abbrev movable : Bool
  movable =
      in_table dst
      && in_table src
      && (t.entries src).occupied
      && not (t.nodes src).is_revoked
      && not (t.entries dst).occupied

  movable-Moves : movable ≡ true → Moves dst src id t
  unfolding install_moved_capability_locked place_moved
  movable-Moves c =
      elim (Outcome-cases (move_nodes dst src id (t.entries dst).handle_generation t.nodes)) [
        | inl (nodes, m) ↦
            elim (Bool-cases (ltb ((vacate src (copied dst src t)).counts dst.pslot + 1) (65536))) [
              | inl b ↦
                  moved nodes (ground arith) (ground arith) (ground arith) (ground arith)
                    (ground arith) m (rw (c, m, b) refl)
              | inr b ↦ refused (rw (c, m, b) refl) (rw (c, m, b) (λ h. λ q. cc))
            ]
        | inr (inl (e, m)) ↦ refused (rw (c, m) refl) (rw (c, m) (λ h. λ q. cc))
        | inr (inr m) ↦ refused (rw (c, m) refl) (rw (c, m) (λ h. λ q. cc))
      ]

  pub install_moved_capability_locked-Moves : Moves dst src id t
  unfolding install_moved_capability_locked
  install_moved_capability_locked-Moves = elim (Bool-cases movable) [
    | inl c ↦ movable-Moves c
    | inr c ↦ refused (rw c refl) (rw c (λ h. λ q. cc))
  ]

-- The tables after a close.
abbrev pub closed_tables : Link → Nodes → Tables → Tables
closed_tables l nodes t =
    drop_reference (t.entries l).object_index (record (vacate l t) { nodes = nodes })

pub data Closes (l : Link) (t : Tables) : Type 0 where
  refused :
      (capability_close_locked l t).1 ≡ t
      → ((a : ℕ × ℕ) → (capability_close_locked l t).0 ≢ ok a)
      → Closes l t
  closed :
      (nodes : Nodes)
      → in_table l ≡ true
      → (t.entries l).occupied ≡ true
      → close_nodes l t.nodes ≡ ok nodes
      → capability_close_locked l t
        ≡ (ok ((t.entries l).object_index, (t.entries l).endpoint), closed_tables l nodes t)
      → Closes l t

module _ (l : Link) (t : Tables) where
  occupied-Closes : in_table l ≡ true → (t.entries l).occupied ≡ true → Closes l t
  unfolding capability_close_locked
  occupied-Closes c o = elim (Outcome-cases (close_nodes l t.nodes)) [
    | inl (nodes, m) ↦ closed nodes c o m (rw (c, o, m) refl)
    | inr (inl (e, m)) ↦ refused (rw (c, o, m) refl) (rw (c, o, m) (λ h. λ q. cc))
    | inr (inr m) ↦ refused (rw (c, o, m) refl) (rw (c, o, m) (λ h. λ q. cc))
  ]

  pub capability_close_locked-Closes : Closes l t
  unfolding capability_close_locked
  capability_close_locked-Closes = elim (Bool-cases (in_table l)) [
    | inl c ↦ elim (Bool-cases (t.entries l).occupied) [
      | inl o ↦ occupied-Closes c o
      | inr o ↦ refused (rw (c, o) refl) (rw (c, o) (λ h. λ q. cc))
    ]
    | inr c ↦ refused (rw c refl) (rw c (λ h. λ q. cc))
  ]
