-- ===== src/Kernel/Cap/Adoption.antt =====
-- The loops of kernel/src/cap/ops.rs that give each child of a capability another parent.
use project_zero.Base.{
  ℕ, zero, suc, ◌<◌, ◌≡◌, refl, sym, ap, ◌∙◌, subst, inl, inr, true, List, [], ◌∷◌, length, All,
  arith, Bool-cases, ok,
}
use project_zero.Kernel.Ipc.{Link, no_link, link_eq, link_eq_sound, write_at}
use project_zero.Kernel.Cap.{CapabilityNode, Nodes, each_sibling, chain_fuel}
use project_zero.Kernel.Cap.Chains.{IsChain, IsDistinct, IsChain-frame, IsChain-in_table}
use project_zero.Kernel.Cap.Pigeonhole.{length_bound}

-- The nodes with those of a list updated, and the last link that the loop comes to.
pub update_all : (CapabilityNode → CapabilityNode) → List Link → Nodes → Nodes
update_all update [] n = n
update_all update (x ∷ xs) n = update_all update xs (write_at x (update (n x)) n)

unfoldable pub last_visited : Link → List Link → Link
last_visited last [] = last
last_visited last (x ∷ xs) = last_visited x xs

written : (l : Link) (v : CapabilityNode) (n : Nodes) → write_at l v n l ≡ v
unfolding write_at
written l v n = let e : link_eq l l ≡ true = ground arith in rw e refl

module _ {B : Type 0} (f : CapabilityNode → B) (update : CapabilityNode → CapabilityNode)
    (keeps : (x : CapabilityNode) → f (update x) ≡ f x) where
  -- What the update of a node leaves alone, the loop leaves alone.
  pub update_all-keeps :
      (xs : List Link) (n : Nodes) (k : Link) → f (update_all update xs n k) ≡ f (n k)
  unfolding update_all write_at
  update_all-keeps [] n k = refl
  update_all-keeps (x ∷ xs) n k =
      update_all-keeps xs (write_at x (update (n x)) n) k ∙ elim (Bool-cases (link_eq x k)) [
        | inl q ↦ rw q (keeps (n x) ∙ ap (λ k. f (n k)) (link_eq_sound x k q))
        | inr q ↦ rw q refl
      ]

module _ {B : Type 0} (f : CapabilityNode → B) (b : B) (update : CapabilityNode → CapabilityNode)
    (gives : (x : CapabilityNode) → f (update x) ≡ b) where
  stays_given :
      (xs : List Link) (n : Nodes) (k : Link) → f (n k) ≡ b → f (update_all update xs n k) ≡ b
  unfolding update_all write_at
  stays_given [] n k h = h
  stays_given (x ∷ xs) n k h =
      stays_given xs (write_at x (update (n x)) n) k
        (elim (Bool-cases (link_eq x k)) [ inl q ↦ rw q (gives (n x)) | inr q ↦ rw q h ])

  -- What the update of a node gives it, each node of the list has.
  pub update_all-gives :
      (xs : List Link) (n : Nodes) → All (λ k. f (update_all update xs n k) ≡ b) xs
  unfolding update_all
  update_all-gives [] n = tt
  update_all-gives (x ∷ xs) n =
      let m = write_at x (update (n x)) n in
      (stays_given xs m x (ap f (written x (update (n x)) n) ∙ gives (n x)), update_all-gives xs m)

module _ (update : CapabilityNode → CapabilityNode)
    (keeps : (x : CapabilityNode) → (update x).next_sibling ≡ x.next_sibling) where
  all_same :
      (n : Nodes) (l : Link) (xs : List Link)
      → All (λ x. (write_at l (update (n l)) n x).next_sibling ≡ (n x).next_sibling) xs
  unfolding write_at
  all_same n l [] = tt
  all_same n l (x ∷ xs) = (
    elim (Bool-cases (link_eq l x)) [
      | inl q ↦ rw q (keeps (n l) ∙ ap (λ k. (n k).next_sibling) (link_eq_sound l x q))
      | inr q ↦ rw q refl
    ],
    all_same n l xs,
  )

  each_sibling_from :
      (fuel : ℕ) (curr last : Link) (n : Nodes) (xs : List Link)
      → IsChain n curr xs
      → length xs < fuel
      → each_sibling fuel update curr last n ≡ ok (update_all update xs n, last_visited last xs)
  unfolding each_sibling IsChain update_all last_visited
  each_sibling_from zero curr last n xs c b = absurd (omega arith)
  each_sibling_from (suc fuel) curr last n [] c b = rw c refl
  each_sibling_from (suc fuel) curr last n (x ∷ xs) (e, i, c) b =
      let m = write_at x (update (n x)) n in
      let same : (m x).next_sibling ≡ (n x).next_sibling = (all_same n x (x ∷ [])).0 in
      let behind : IsChain m (m x).next_sibling xs =
        subst (λ k. IsChain m k xs) (sym same)
          (IsChain-frame n m (n x).next_sibling xs (all_same n x xs) c) in
      rw (e, i) (each_sibling_from fuel (m x).next_sibling x m xs behind (omega arith))

  -- The loop over the children of a capability ends, with each of them updated.
  pub each_sibling_lem :
      (l : Link) (n : Nodes) (xs : List Link)
      → IsChain n l xs
      → IsDistinct xs
      → each_sibling chain_fuel update l no_link n
        ≡ ok (update_all update xs n, last_visited no_link xs)
  each_sibling_lem l n xs c d =
      each_sibling_from 513 l no_link n xs c
        (omega (arith, length_bound xs d (IsChain-in_table n l xs c)))
