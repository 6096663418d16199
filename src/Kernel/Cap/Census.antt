-- ===== src/Kernel/Cap/Census.antt =====
-- The capabilities in the handle tables of kernel/src/cap, counted slot by slot.
use project_zero.Base.{
  ℕ, ◌+◌, ◌≤◌, ◌≡◌, ◌≢◌, refl, sym, subst, inl, inr, true, false, ◌&&◌, ◌==◌, if◌then◌else◌, arith,
  eq_or_ne,
}
use project_zero.Base.Sums.{sum_to, sum_to_same, sum_to_change, sum_to_bound}
use project_zero.Kernel.Ipc.{HandleEntry, Link, link_eq, write_at}
use project_zero.Kernel.Cap.{in_table}
use project_zero.Kernel.Cap.Ops.{link_at}

-- A weight of entries over the slots of a process, and over all slots.
pub row : (HandleEntry → ℕ) → (Link → HandleEntry) → ℕ → ℕ
row w entries p = sum_to 32 (λ h. w (entries (link_at p h)))

pub total : (HandleEntry → ℕ) → (Link → HandleEntry) → ℕ
total w entries = sum_to 16 (row w entries)

abbrev pub held : HandleEntry → ℕ
held e = if e.occupied then 1 else 0

abbrev pub refers_to : ℕ → HandleEntry → ℕ
refers_to i e = if e.occupied && e.object_index == i then 1 else 0

module _ (w : HandleEntry → ℕ) (entries : Link → HandleEntry) (l : Link) (e : HandleEntry) where
  other_slot : (k : Link) → link_eq l k ≡ false → w (write_at l e entries k) ≡ w (entries k)
  unfolding write_at
  other_slot k h = rw h refl

  written_slot : w (write_at l e entries l) ≡ w e
  unfolding write_at
  written_slot = ground arith

  row_elsewhere : (p : ℕ) → p ≢ l.pslot → row w (write_at l e entries) p ≡ row w entries p
  unfolding row
  row_elsewhere p n =
      sum_to_same 32 (λ h. w (write_at l e entries (link_at p h))) (λ h. w (entries (link_at p h)))
        (λ h b. other_slot (link_at p h) (ground arith))

  pub row_written :
      in_table l ≡ true
      → row w (write_at l e entries) l.pslot + w (entries l) ≡ row w entries l.pslot + w e
  unfolding row
  row_written b =
      let change =
        sum_to_change 32 l.hslot (λ h. w (entries (link_at l.pslot h)))
          (λ h. w (write_at l e entries (link_at l.pslot h))) (ground arith)
          (λ h n. other_slot (link_at l.pslot h) (ground arith)) in
      omega (arith, change, written_slot)

  -- A write changes the sum by what it puts in for the old entry.
  pub total_written :
      in_table l ≡ true → total w (write_at l e entries) + w (entries l) ≡ total w entries + w e
  unfolding total
  total_written b =
      let change =
        sum_to_change 16 l.pslot (row w entries) (row w (write_at l e entries)) (ground arith)
          row_elsewhere in
      omega (arith, change, row_written b)

  -- And the sum of each process.
  pub row_each :
      (p : ℕ)
      → in_table l ≡ true
      → row w (write_at l e entries) p + (if l.pslot == p then w (entries l) else 0)
        ≡ row w entries p + (if l.pslot == p then w e else 0)
  row_each p b = elim (eq_or_ne l.pslot p) [
    | inl q ↦
        subst
          (λ p.
            row w (write_at l e entries) p + (if l.pslot == p then w (entries l) else 0)
            ≡ row w entries p + (if l.pslot == p then w e else 0))
          q (ground (arith, row_written b))
    | inr q ↦ ground (arith, row_elsewhere p (λ z. q (sym z)))
  ]

pub row_bound :
    (w : HandleEntry → ℕ) (entries : Link → HandleEntry) (p : ℕ)
    → ((x : HandleEntry) → w x ≤ 1)
    → row w entries p ≤ 32
unfolding row
row_bound w entries p h =
    sum_to_bound 32 1 (λ k. w (entries (link_at p k))) (λ j. h (entries (link_at p j)))

pub total_bound :
    (w : HandleEntry → ℕ) (entries : Link → HandleEntry)
    → ((x : HandleEntry) → w x ≤ 1)
    → total w entries ≤ 512
unfolding total
total_bound w entries h = sum_to_bound 16 32 (row w entries) (λ p. row_bound w entries p h)

pub held_bound : (x : HandleEntry) → held x ≤ 1
held_bound x = ground arith

pub refers_to_bound : (i : ℕ) (x : HandleEntry) → refers_to i x ≤ 1
refers_to_bound i x = ground arith

-- Where no entry has a weight, the sums are zero.
pub row_zero :
    (w : HandleEntry → ℕ) (entries : Link → HandleEntry) (p : ℕ)
    → ((k : Link) → w (entries k) ≡ 0)
    → row w entries p ≡ 0
unfolding row
row_zero w entries p h =
    let few =
      sum_to_bound 32 0 (λ k. w (entries (link_at p k))) (λ j. omega (arith, h (link_at p j))) in
    omega arith

pub total_zero :
    (w : HandleEntry → ℕ) (entries : Link → HandleEntry)
    → ((k : Link) → w (entries k) ≡ 0)
    → total w entries ≡ 0
unfolding total
total_zero w entries h =
    let few = sum_to_bound 16 0 (row w entries) (λ p. omega (arith, row_zero w entries p h)) in
    omega arith
