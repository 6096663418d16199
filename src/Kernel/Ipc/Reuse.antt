-- ===== src/Kernel/Ipc/Reuse.antt =====
-- The slots of kernel/src/ipc/object.rs when they are used again.
use project_zero.Base.{
  ℕ, zero, suc, ◌+◌, ◌-◌, ◌^◌, ◌≤◌, ◌<◌, ◌≡◌, ◌≢◌, ◌⊎◌, refl, sym, ap, ◌∙◌, subst, ◌==◌, ◌&&◌, ltb,
  true, false, if◌then◌else◌, none, some, Outcome, ok, err, arith, Bool-cases, inl, inr, eq_or_ne,
}
use project_zero.Kernel.Ipc.{
  IpcError, object_table_full, object_id_exhausted, KernelObjectType, KernelObjectSlot, write,
  next_generation,
}
use project_zero.Kernel.Ipc.Objects.{
  ObjectTable, place_object, allocate_object_id, free_object_from, allocate_object_slot_locked,
  free_object_slot_locked,
}

search :
    (t : ObjectTable) (n i : ℕ)
    → ((free_object_from n i t.objects ≡ none)
        × ((k : ℕ) → i ≤ k → k < i + n → (t.objects k).occupied ≡ true))
      ⊎ ((k : ℕ) × (free_object_from n i t.objects ≡ some k)
          × (i ≤ k)
          × (k < i + n)
          × ((t.objects k).occupied ≡ false))
unfolding free_object_from
search t zero i = inl (refl, λ k a b. absurd (omega arith))
search t (suc n) i = elim (Bool-cases (t.objects i).occupied) [
  | inr o ↦ inr (i, rw o refl, omega arith, omega arith, o)
  | inl o ↦ elim (search t n (i + 1)) [
    | inl (e, all) ↦ inl (
      rw o e,
      λ k a b. elim (eq_or_ne i k) [
        | inl q ↦ subst (λ k. (t.objects k).occupied ≡ true) q o
        | inr q ↦ all k (omega arith) (omega arith)
      ],
    )
    | inr (k, e, a, b, f) ↦ inr (k, rw o e, omega arith, omega arith, f)
  ]
]

module _ (obj_type : KernelObjectType) (pool_index creator_pid : ℕ) (t : ObjectTable) where
  abbrev made : Outcome IpcError ℕ × ObjectTable
  made = allocate_object_slot_locked obj_type pool_index creator_pid t

  abbrev pub Placed : ℕ → Outcome IpcError ℕ × ObjectTable → Type 0
  Placed i r =
      (r.0 ≡ ok i)
      × (i < 256)
      × ((t.objects i).occupied ≡ false)
      × ((r.1.objects i).occupied ≡ true)
      × ((r.1.objects i).generation ≡ (t.objects i).generation)
      × ((r.1.objects i).header.object_id ≡ t.next_object_id)
      × (r.1.next_object_id ≡ t.next_object_id + 1)
      × ((j : ℕ) → j ≢ i → r.1.objects j ≡ t.objects j)

  placed :
      (i : ℕ)
      → (t.objects i).occupied ≡ false
      → (t.next_object_id == 2 ^ 64 - 1) ≡ false
      → free_object_from 256 0 t.objects ≡ some i
      → i < 256
      → Placed i made
  unfolding allocate_object_slot_locked allocate_object_id write
  placed i f q e b =
      let s : ObjectTable = record t { next_object_id = t.next_object_id + 1 } in
      let whole : made ≡ (ok i, place_object obj_type pool_index creator_pid t.next_object_id i s) =
        ground (arith, e) in
      let here : (i == i) ≡ true = ground arith in
      rw whole (
        refl,
        b,
        f,
        rw here refl,
        rw here refl,
        rw here refl,
        refl,
        λ j n. let other : (i == j) ≡ false = ground arith in rw other refl,
      )

  -- An object is made in a slot that was free, under the next identifier, the slot keeps its
  -- generation and no other slot changes; or the identifiers or the slots are used up, and all slots
  -- stay.
  pub allocate_object_slot_locked_lem :
      ((made.0 ≡ err object_id_exhausted) × (t.next_object_id ≡ 2 ^ 64 - 1) × (made.1 ≡ t))
      ⊎ ((made.0 ≡ err object_table_full)
          × ((k : ℕ) → k < 256 → (t.objects k).occupied ≡ true)
          × (made.1.objects ≡ t.objects))
      ⊎ ((i : ℕ) × Placed i made)
  unfolding allocate_object_slot_locked allocate_object_id write
  allocate_object_slot_locked_lem = elim (Bool-cases (t.next_object_id == 2 ^ 64 - 1)) [
    | inl q ↦ inl (rw q refl, ground arith, rw q refl)
    | inr q ↦ elim (search t 256 0) [
      | inl (e, all) ↦
          inr (inl (ground (arith, e), λ k b. all k (omega arith) (omega arith), ground (arith, e)))
      | inr (i, e, a, b, f) ↦ inr (inr (i, placed i f q e b))
    ]
  ]

  -- No slot's generation changes.
  generation_kept : (j : ℕ) → (made.1.objects j).generation ≡ (t.objects j).generation
  generation_kept j = elim allocate_object_slot_locked_lem [
    | inl (e, full, same) ↦ ap (λ s. (s.objects j).generation) same
    | inr (inl (e, full, same)) ↦ ap (λ (f : ℕ → KernelObjectSlot). (f j).generation) same
    | inr (inr (i, (e, b, f, o, g, id, next, others))) ↦ elim (eq_or_ne i j) [
      | inl q ↦ subst (λ k. (made.1.objects k).generation ≡ (t.objects k).generation) q g
      | inr q ↦ ap (λ s. s.generation) (others j (λ z. q (sym z)))
    ]
  ]

-- The generation that follows a u16; zero is none.
abbrev pub following : ℕ → ℕ
following g = if g == 65535 then 1 else g + 1

next_generation_lem : (g : ℕ) → g < 65536 → next_generation g ≡ following g
next_generation_lem g b = ground arith

following-ne : (g : ℕ) → following g ≢ g
following-ne g = λ e. ground arith

freed_generation :
    (i : ℕ) (t : ObjectTable)
    → (free_object_slot_locked i t).0 ≡ ok tt
    → ((free_object_slot_locked i t).1.objects i).generation
      ≡ next_generation (t.objects i).generation
unfolding free_object_slot_locked write
freed_generation i t h = elim (Bool-cases (ltb i 256 && (t.objects i).occupied)) [
  | inl q ↦ let here : (i == i) ≡ true = ground arith in rw (q, here) refl
  | inr q ↦ absurd (ground arith)
]

-- A slot that is freed has the next generation, 1 after 65535, which is another one, and keeps exactly this one
-- whether or not the object that is made next is made in it: what was taken at the old one names
-- neither.
pub allocate_object_slot_locked-stale :
    (i : ℕ) (t : ObjectTable) (obj_type : KernelObjectType) (pool_index creator_pid : ℕ)
    → (t.objects i).generation < 65536
    → (free_object_slot_locked i t).0 ≡ ok tt
    → (((free_object_slot_locked i t).1.objects i).generation ≡ following (t.objects i).generation)
      × (((allocate_object_slot_locked obj_type pool_index creator_pid
              (free_object_slot_locked i t).1).1.objects
            i).generation
          ≡ following (t.objects i).generation)
      × (following (t.objects i).generation ≢ (t.objects i).generation)
allocate_object_slot_locked-stale i t obj_type pool_index creator_pid b h =
    let moved = freed_generation i t h ∙ next_generation_lem (t.objects i).generation b in
    (
      moved,
      generation_kept obj_type pool_index creator_pid (free_object_slot_locked i t).1 i ∙ moved,
      following-ne (t.objects i).generation,
    )
