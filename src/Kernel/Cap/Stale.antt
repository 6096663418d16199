-- ===== src/Kernel/Cap/Stale.antt =====
-- What the checks of kernel/src/cap/ops.rs and kernel/src/ipc/handle.rs answer for a handle.
use project_zero.Base.{
  ℕ, ◌-◌, ◌^◌, ◌+◌, ◌<◌, ◌≡◌, refl, sym, ap, ◌∙◌, subst, inl, inr, true, false, ◌||◌, ok, err, ◌==◌,
  arith, Bool-cases,
}
use project_zero.Base.Bits.{bit_and-zero}
use project_zero.Kernel.Ipc.{
  bad_handle_generation, invalid_handle, Handle, new_handle, slot_index, generation_of, grants,
  next_generation, Link, write_at,
}
use project_zero.Kernel.Cap.{Tables, in_table, allocate_capability_id}
use project_zero.Kernel.Cap.Ops.{allocate_handle_slot_locked, link_at, capability_duplicate}
use project_zero.Kernel.Cap.Leave.{
  install_moved_capability_locked, vacate, drop_reference, capability_close_locked,
}
use project_zero.Kernel.Cap.Validate.{
  validate_handle_locked, validate_capability_locked, close_handle_locked,
}
use project_zero.Base.Results.{Outcome-cases}
use project_zero.Kernel.Cap.Transfer.{check_move, transfer_move_locked}
use project_zero.Kernel.Cap.Leaving.{apart}
use project_zero.Kernel.Cap.Endings.{
  Moves, moved, install_moved_capability_locked-Moves, Closes, closed,
  capability_close_locked-Closes,
}

-- A handle's parts can be read back.
pub slot_index-new_handle :
    (slot generation : ℕ)
    → slot < 65536
    → generation < 65536
    → (slot_index (new_handle slot generation) ≡ slot)
      × (generation_of (new_handle slot generation) ≡ generation)
      × (new_handle slot generation < 4294967296)
slot_index-new_handle slot generation s g = (omega arith, omega arith, omega arith)

-- The check of a capability and the check of a handle are the same function.
pub validate_capability_locked_lem :
    (p : ℕ) (h : Handle) (required : ℕ) (t : Tables)
    → validate_capability_locked p h required t ≡ validate_handle_locked p h required t
unfolding validate_capability_locked validate_handle_locked
validate_capability_locked_lem p h required t =
    let entry = t.entries (link_at p (slot_index h)) in
    let same : (required == 0 || grants required entry.rights) ≡ grants required entry.rights =
      elim (Bool-cases (required == 0)) [
        | inl e ↦
            let z : required ≡ 0 = ground arith in
            subst (λ r. (r == 0 || grants r entry.rights) ≡ grants r entry.rights) (sym z)
              (let b = bit_and-zero entry.rights entry.rights (omega arith) in ground (arith, b))
        | inr e ↦ ground arith
      ] in
    rw same refl

next_generation-ne : (g : ℕ) → g < 65536 → (next_generation g == g) ≡ false
next_generation-ne g b = ground arith

module _ (p : ℕ) (h : Handle) where
  abbrev pub slot : Link
  slot = link_at p (slot_index h)

  -- A handle that names a slot, with a generation that is not the slot's.
  abbrev pub IsStale : Tables → Type 0
  IsStale s =
      ((required : ℕ) → validate_handle_locked p h required s ≡ err bad_handle_generation)
      × (close_handle_locked p h s ≡ (err bad_handle_generation, s))
      × (capability_duplicate p h s ≡ (err invalid_handle, s))

module _ (p : ℕ) (h : Handle) (t : Tables) where
  stale :
      (s : Tables)
      → p < 16
      → slot_index h < 32
      → ((s.entries (slot p h)).handle_generation == generation_of h) ≡ false
      → IsStale p h s
  unfolding validate_handle_locked close_handle_locked capability_duplicate
  stale s b c n = (
    λ required. ground arith,
    ground arith,
    ground (arith, Bool-cases (s.entries (slot p h)).occupied),
  )

  -- The slot's generation goes on.
  advanced :
      (s : Tables)
      → s.entries ≡ (vacate (slot p h) t).entries
      → (s.entries (slot p h)).handle_generation
        ≡ next_generation (t.entries (slot p h)).handle_generation
  unfolding vacate write_at
  advanced s e = ap (λ f. (f (slot p h)).handle_generation) e ∙ ground arith

  went-IsStale :
      (s : Tables)
      → p < 16
      → slot_index h < 32
      → (t.entries (slot p h)).handle_generation ≡ generation_of h
      → (s.entries (slot p h)).handle_generation
        ≡ next_generation (t.entries (slot p h)).handle_generation
      → IsStale p h s
  went-IsStale s b c same next =
      let differs = next_generation-ne (generation_of h) (omega arith) in
      stale s b c
        (ap (λ g. g == generation_of h) (next ∙ ap (λ g. next_generation g) same) ∙ differs)

  closed_entries :
      Closes (slot p h) t
      → (a : ℕ × ℕ) → (capability_close_locked (slot p h) t).0 ≡ ok a
      → ((capability_close_locked (slot p h) t).1.entries (slot p h)).handle_generation
        ≡ next_generation (t.entries (slot p h)).handle_generation
  unfolding drop_reference
  closed_entries (Closes.refused same failed) a e = absurd (failed a e)
  closed_entries (closed nodes there held done went) a e =
      advanced (capability_close_locked (slot p h) t).1 (ap (λ r. r.1.entries) went ∙ ground arith)

  accepted :
      (a : ℕ × ℕ)
      → (close_handle_locked p h t).0 ≡ ok a
      → (p < 16)
        × (slot_index h < 32)
        × ((t.entries (slot p h)).handle_generation ≡ generation_of h)
        × (close_handle_locked p h t ≡ capability_close_locked (slot p h) t)
  unfolding close_handle_locked
  accepted a e = (ground arith, ground arith, ground arith, ground arith)

  -- A handle that was closed is stale: each check and a second close answer that its generation is
  -- not the slot's, and it cannot be duplicated.
  pub close_handle_locked-IsStale :
      (a : ℕ × ℕ) → (close_handle_locked p h t).0 ≡ ok a → IsStale p h (close_handle_locked p h t).1
  close_handle_locked-IsStale a e =
      let (b, c, same, went) = accepted a e in
      rw went (
        went-IsStale (capability_close_locked (slot p h) t).1 b c same (
          closed_entries (capability_close_locked-Closes (slot p h) t) a
            (subst (λ r. r.0 ≡ ok a) went e)))

  moved_entries :
      (dst : Link) (id : ℕ)
      → Moves dst (slot p h) id t
      → (a : Handle) → (install_moved_capability_locked dst (slot p h) id t).0 ≡ ok a
      → (in_table (slot p h) ≡ true)
        × (((install_moved_capability_locked dst (slot p h) id t).1.entries
              (slot p h)).handle_generation
            ≡ next_generation (t.entries (slot p h)).handle_generation)
  unfolding vacate write_at
  moved_entries dst id (Moves.refused same failed) a e = absurd (failed a e)
  moved_entries dst id (moved nodes there from held live vacant done went) a e =
      let other = apart t dst (slot p h) vacant held in
      (from, ap (λ r. (r.1.entries (slot p h)).handle_generation) went ∙ ground (arith, other))

-- A move that succeeds is one installation, under the next identifier.
move_succeeds :
    (src : Link) (p : ℕ) (t : Tables) (a : Handle)
    → (transfer_move_locked src p t).0 ≡ ok a
    → (dst : Link) × (transfer_move_locked src p t
        ≡ install_moved_capability_locked dst src t.next_capability_id
            (record t { next_capability_id = t.next_capability_id + 1 }))
unfolding transfer_move_locked allocate_capability_id
move_succeeds src p t a e = elim (Outcome-cases (check_move src p t)) [
  | inr (inl (x, c)) ↦ absurd (let z = rw c at e in cc)
  | inr (inr c) ↦ absurd (let z = rw c at e in cc)
  | inl (u, c) ↦ elim (Outcome-cases (allocate_handle_slot_locked p t)) [
    | inr (inl (x, d)) ↦ absurd (let z = rw (c, d) at e in cc)
    | inr (inr d) ↦ absurd (let z = rw (c, d) at e in cc)
    | inl (h, d) ↦ elim (Bool-cases (t.next_capability_id == 2 ^ 64 - 1)) [
      | inl q ↦ absurd (let z = rw (c, d, q) at e in cc)
      | inr q ↦ (link_at p h, rw (c, d, q) refl)
    ]
  ]
]

-- A handle whose capability was moved to another process is stale in the same way.
pub transfer_move_locked-IsStale :
    (p : ℕ) (h : Handle) (dst_pslot : ℕ) (t : Tables) (a : Handle)
    → (t.entries (link_at p (slot_index h))).handle_generation ≡ generation_of h
    → (transfer_move_locked (link_at p (slot_index h)) dst_pslot t).0 ≡ ok a
    → IsStale p h (transfer_move_locked (link_at p (slot_index h)) dst_pslot t).1
transfer_move_locked-IsStale p h dst_pslot t a same e =
    let src = link_at p (slot_index h) in
    let (dst, went) = move_succeeds src dst_pslot t a e in
    let s : Tables = record t { next_capability_id = t.next_capability_id + 1 } in
    let (there, next) =
      moved_entries p h s dst t.next_capability_id
        (install_moved_capability_locked-Moves dst src t.next_capability_id s) a
        (subst (λ r. r.0 ≡ ok a) went e) in
    rw went (
      went-IsStale p h s (install_moved_capability_locked dst src t.next_capability_id s).1
        (ground arith) (ground arith) same next)
