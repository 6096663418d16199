-- ===== src/Kernel/Cap/Pigeonhole.antt =====
-- A list of the children of a capability in kernel/src/cap is no longer than the table has slots, so
-- that a loop over them ends.
use project_zero.Base.{
  ℕ, ◌+◌, ◌≤◌, ◌≡◌, ◌≢◌, refl, ◌∙◌, subst, inl, inr, true, List, [], ◌∷◌, length, All,
  if◌then◌else◌, arith, Bool-cases,
}
use project_zero.Base.Sums.{
  sum_to, sum_to_same, sum_to_add, sum_to_single, sum_to_bound, sum_to-zero,
}
use project_zero.Kernel.Ipc.{Link, link_eq, link_eq_sound}
use project_zero.Kernel.Cap.{in_table}
use project_zero.Kernel.Cap.Ops.{link_at}
use project_zero.Kernel.Cap.Chains.{Lacks, IsDistinct}

-- How often a link stands in a list, over the whole table.
occurs : List Link → Link → ℕ
occurs [] l = 0
occurs (x ∷ xs) l = (if link_eq x l then 1 else 0) + occurs xs l

abbrev over_table : (Link → ℕ) → ℕ
over_table f = sum_to 16 (λ p. sum_to 32 (λ h. f (link_at p h)))

abbrev one_at : Link → Link → ℕ
one_at x l = if link_eq x l then 1 else 0

row_one : (x : Link) (p : ℕ) → p ≢ x.pslot → sum_to 32 (λ h. one_at x (link_at p h)) ≡ 0
row_one x p n =
    sum_to_same 32 (λ h. one_at x (link_at p h)) (λ h. 0) (λ h b. ground arith) ∙ sum_to-zero 32

over_table_one : (x : Link) → in_table x ≡ true → over_table (one_at x) ≡ 1
over_table_one x i =
    let outer =
      sum_to_single 16 x.pslot (λ p. sum_to 32 (λ h. one_at x (link_at p h))) (ground arith)
        (row_one x) in
    let inner =
      sum_to_single 32 x.hslot (λ h. one_at x (link_at x.pslot h)) (ground arith)
        (λ h n. ground arith) in
    outer ∙ inner ∙ ground arith

over_table_add : (f g : Link → ℕ) → over_table (λ l. f l + g l) ≡ over_table f + over_table g
over_table_add f g =
    sum_to_same 16 (λ p. sum_to 32 (λ h. f (link_at p h) + g (link_at p h)))
      (λ p. sum_to 32 (λ h. f (link_at p h)) + sum_to 32 (λ h. g (link_at p h)))
      (λ p b. sum_to_add 32 (λ h. f (link_at p h)) (λ h. g (link_at p h)))
    ∙ sum_to_add 16 (λ p. sum_to 32 (λ h. f (link_at p h))) (λ p. sum_to 32 (λ h. g (link_at p h)))

over_table-occurs :
    (xs : List Link) → All (λ x. in_table x ≡ true) xs → over_table (occurs xs) ≡ length xs
unfolding occurs
over_table-occurs [] h =
    sum_to_same 16 (λ p. sum_to 32 (λ h. 0)) (λ p. 0) (λ p b. sum_to-zero 32) ∙ sum_to-zero 16
over_table-occurs (x ∷ xs) (i, h) =
    omega (arith, over_table_add (one_at x) (occurs xs), over_table_one x i, over_table-occurs xs h)

occurs-Lacks : (xs : List Link) (y : Link) → Lacks xs y → occurs xs y ≡ 0
unfolding occurs
occurs-Lacks [] y h = refl
occurs-Lacks (x ∷ xs) y (e, h) = ground (arith, occurs-Lacks xs y h)

occurs_bound : (xs : List Link) (l : Link) → IsDistinct xs → occurs xs l ≤ 1
unfolding occurs IsDistinct
occurs_bound [] l d = omega arith
occurs_bound (x ∷ xs) l (away, d) = elim (Bool-cases (link_eq x l)) [
  | inl q ↦
      let gone : occurs xs l ≡ 0 =
        subst (λ k. occurs xs k ≡ 0) (link_eq_sound x l q) (occurs-Lacks xs x away) in
      ground (arith, gone)
  | inr q ↦ ground (arith, occurs_bound xs l d)
]

-- A list of slots without repetition is no longer than there are slots.
pub length_bound :
    (xs : List Link) → IsDistinct xs → All (λ x. in_table x ≡ true) xs → length xs ≤ 512
length_bound xs d h =
    let few =
      sum_to_bound 16 32 (λ p. sum_to 32 (λ k. occurs xs (link_at p k)))
        (λ p.
          sum_to_bound 32 1 (λ k. occurs xs (link_at p k))
            (λ k. occurs_bound xs (link_at p k) d)) in
    omega (arith, few, over_table-occurs xs h)
