-- ===== src/Kernel/Cap/Lookup.antt =====
-- `lookup_capability_by_id_locked` of kernel/src/cap/node.rs finds the capability with an identifier.
use project_zero.Base.{
  ℕ, zero, suc, ◌+◌, ◌≤◌, ◌<◌, ◌≡◌, ◌↔◌, ◌⊎◌, refl, ap, subst, inl, inr, Bool, true, false, ok,
  ◌==◌, arith, Bool-cases, none, some,
}
use project_zero.Kernel.Ipc.{Link, link_eq_sound}
use project_zero.Kernel.Cap.{
  Tables, in_table, answers_to, lookup_in_process, lookup_from, lookup_capability_by_id_locked,
}
use project_zero.Kernel.Cap.Ops.{link_at}
use project_zero.Kernel.Cap.Unique.{IsIdentified}
use project_zero.Kernel.Cap.Slots.{from_next}

module _ (target : ℕ) (t : Tables) where
  abbrev found : Link → Bool
  found l = answers_to target t l

  in_process :
      (p n h : ℕ)
      → ((lookup_in_process n p h target t ≡ none)
          × ((k : ℕ) → h ≤ k → k < h + n → found (link_at p k) ≡ false))
        ⊎ ((k : ℕ) × (lookup_in_process n p h target t ≡ some (link_at p k))
            × (k < h + n)
            × (found (link_at p k) ≡ true))
  unfolding lookup_in_process
  in_process p zero h = inl (refl, λ k a b. absurd (omega arith))
  in_process p (suc n) h = elim (Bool-cases (found (link_at p h))) [
    | inl o ↦ inr (h, rw o refl, omega arith, o)
    | inr o ↦ elim (in_process p n (h + 1)) [
      | inl (e, none_there) ↦ inl (
        rw o e,
        from_next (λ k. found (link_at p k) ≡ false) h (h + suc n) o
            (λ k a b. none_there k a (omega arith)),
      )
      | inr (k, e, b, f) ↦ inr (k, rw o e, omega arith, f)
    ]
  ]

  in_processes :
      (n p : ℕ)
      → p + n ≤ 16
      → ((lookup_from n p target t ≡ none)
          × ((q : ℕ) → p ≤ q → q < p + n → (h : ℕ) → h < 32 → found (link_at q h) ≡ false))
        ⊎ ((l : Link) × (lookup_from n p target t ≡ some l)
            × (in_table l ≡ true)
            × (found l ≡ true))
  unfolding lookup_from
  in_processes zero p top = inl (refl, λ q a b. absurd (omega arith))
  in_processes (suc n) p top = elim (in_process p 32 0) [
    | inr (h, e, b, f) ↦ inr (link_at p h, ground (arith, e), ground arith, f)
    | inl (e, here) ↦ elim (in_processes n (p + 1) (omega arith)) [
      | inl (r, later) ↦ inl (
        ground (arith, e, r),
        from_next (λ q. (h : ℕ) → h < 32 → found (link_at q h) ≡ false) p (p + suc n)
            (λ h b. here h (omega arith) (omega arith)) (λ q a b. later q a (omega arith)),
      )
      | inr (l, r, i, f) ↦ inr (l, ground (arith, e, r), i, f)
    ]
  ]

  -- Where the identifiers are in order, the look-up answers a slot exactly where the slot holds a
  -- capability with the identifier that is not revoked.
  pub lookup_capability_by_id_locked_lem :
      IsIdentified t
      → (l : Link) → in_table l ≡ true
      → (lookup_capability_by_id_locked target t ≡ ok l) ↔ (answers_to target t l ≡ true)
  unfolding lookup_capability_by_id_locked
  lookup_capability_by_id_locked_lem v l there = elim (Bool-cases (target == 0)) [
    | inl z ↦
        let given = v.given l in
        rw z (λ e. absurd cc, λ f. absurd (let (a, b) = given (ground arith) in ground arith))
    | inr z ↦ elim (in_processes 16 0 (omega arith)) [
      | inl (e, nowhere) ↦
          rw (z, e)
            (
              λ q. absurd cc,
              λ f. absurd (
                  let n = nowhere l.pslot (omega arith) (ground arith) l.hslot (ground arith) in
                  cc),
            )
      | inr (k, e, i, f) ↦
          rw (z, e)
            (
              λ q. let same : k ≡ l = cc in subst (λ x. found x ≡ true) same f,
              λ g.
                  let one = v.unique k l (ground arith) (ground arith) (ground arith) in
                  ap ok (link_eq_sound k l one),
            )
    ]
  ]
