-- ===== src/Kernel/Cap/Slots.antt =====
-- The search of kernel/src/cap/ops.rs for a slot that holds no capability.
use project_zero.Base.{
  ℕ, zero, suc, ◌+◌, ◌≤◌, ◌<◌, ◌≡◌, refl, subst, ◌⊎◌, inl, inr, Bool, true, false, ltb, none, some,
  ok, err, arith, Bool-cases, eq_or_ne,
}
use project_zero.Kernel.Ipc.{handle_table_full}
use project_zero.Kernel.Cap.{Tables}
use project_zero.Kernel.Cap.Ops.{link_at, free_slot_from, allocate_handle_slot_locked}

pub from_next :
    (P : ℕ → Type 0) (h top : ℕ)
    → P h
    → ((k : ℕ) → h + 1 ≤ k → k < top → P k)
    → (k : ℕ) → h ≤ k
    → k < top
    → P k
from_next P h top z all k a b = elim (eq_or_ne h k) [
  | inl e ↦ subst P e z
  | inr e ↦ all k (omega arith) b
]

module _ (p : ℕ) (t : Tables) where
  abbrev pub taken : ℕ → Bool
  taken h = (t.entries (link_at p h)).occupied

  search :
      (n h : ℕ)
      → ((free_slot_from n p h t ≡ none) × ((k : ℕ) → h ≤ k → k < h + n → taken k ≡ true))
        ⊎ ((k : ℕ) × (free_slot_from n p h t ≡ some k)
            × (h ≤ k)
            × (k < h + n)
            × (taken k ≡ false)
            × ((j : ℕ) → h ≤ j → j < k → taken j ≡ true))
  unfolding free_slot_from
  search zero h = inl (refl, λ k a b. absurd (omega arith))
  search (suc n) h = elim (Bool-cases (taken h)) [
    | inr o ↦ inr (h, rw o refl, omega arith, omega arith, o, λ j a b. absurd (omega arith))
    | inl o ↦ elim (search n (h + 1)) [
      | inl (e, all) ↦
          inl (
            rw o e,
            from_next (λ k. taken k ≡ true) h (h + suc n) o (λ k a b. all k a (omega arith)),
          )
      | inr (k, e, a, b, f, below) ↦
          inr (k, rw o e, omega arith, omega arith, f, from_next (λ j. taken j ≡ true) h k o below)
    ]
  ]

  -- The slot that is given out is the lowest one of the process that holds no capability, and only a
  -- process whose slots all hold one gets none.
  pub allocate_handle_slot_locked_lem :
      p < 16
      → ((allocate_handle_slot_locked p t ≡ err handle_table_full)
          × ((k : ℕ) → k < 32 → taken k ≡ true))
        ⊎ ((k : ℕ) × (allocate_handle_slot_locked p t ≡ ok k)
            × (k < 32)
            × (taken k ≡ false)
            × ((j : ℕ) → j < k → taken j ≡ true))
  unfolding allocate_handle_slot_locked
  allocate_handle_slot_locked_lem b =
      let q : ltb p 16 ≡ true = ground arith in
      elim (search 32 0) [
        | inl (e, all) ↦ inl (rw (q, e) refl, λ k c. all k (omega arith) (omega arith))
        | inr (k, e, c, d, f, below) ↦
            inr (k, rw (q, e) refl, omega arith, f, λ j g. below j (omega arith) g)
      ]
