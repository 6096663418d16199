-- ===== src/Kernel/Cap/Siblings.antt =====
-- `add_child_locked` and `remove_child_locked` of kernel/src/cap/node.rs on the list of the children.
use project_zero.Base.{
  ◌≡◌, refl, sym, ap, ◌∙◌, subst, inl, inr, true, false, List, [], ◌∷◌, All, arith, Bool-cases, ok,
}
use project_zero.Kernel.Ipc.{Link, link_eq, link_eq_sound, write_at}
use project_zero.Kernel.Cap.{Nodes, in_table, set_first_child, set_next_sibling, add_child_locked}
use project_zero.Kernel.Cap.Chains.{IsChain, Lacks, IsDistinct, HasChildren, IsChain-frame}

module _ (n : Nodes) (l next : Link) where
  pub next_kept :
      (x : Link)
      → link_eq l x ≡ false
      → (set_next_sibling l next n x).next_sibling ≡ (n x).next_sibling
  unfolding write_at
  next_kept x h = rw h refl

  pub next_written : (set_next_sibling l next n l).next_sibling ≡ next
  unfolding write_at
  next_written = ground arith

  pub first_kept : (x : Link) → (set_next_sibling l next n x).first_child ≡ (n x).first_child
  unfolding write_at
  first_kept x = elim (Bool-cases (link_eq l x)) [
    | inl q ↦ rw q (ap (λ k. (n k).first_child) (link_eq_sound l x q))
    | inr q ↦ rw q refl
  ]

  -- The first child of a node is no sibling's business.
  pub next_untouched : (x : Link) → (set_first_child l next n x).next_sibling ≡ (n x).next_sibling
  unfolding write_at
  next_untouched x = elim (Bool-cases (link_eq l x)) [
    | inl q ↦ rw q (ap (λ k. (n k).next_sibling) (link_eq_sound l x q))
    | inr q ↦ rw q refl
  ]

  pub first_written : (set_first_child l next n l).first_child ≡ next
  unfolding write_at
  first_written = ground arith

pub all_kept :
    (n : Nodes) (l next : Link) (xs : List Link)
    → Lacks xs l
    → All (λ x. (set_next_sibling l next n x).next_sibling ≡ (n x).next_sibling) xs
all_kept n l next [] h = tt
all_kept n l next (x ∷ xs) (e, h) = (next_kept n l next x (ground arith), all_kept n l next xs h)

pub all_untouched :
    (n : Nodes) (l first : Link) (xs : List Link)
    → All (λ x. (set_first_child l first n x).next_sibling ≡ (n x).next_sibling) xs
all_untouched n l first [] = tt
all_untouched n l first (x ∷ xs) = (next_untouched n l first x, all_untouched n l first xs)

-- A new child comes in front of the others.
pub add_child_locked_lem :
    (n : Nodes) (parent child : Link) (xs : List Link)
    → in_table parent ≡ true
    → in_table child ≡ true
    → HasChildren n parent xs
    → Lacks xs child
    → (m : Nodes) × (add_child_locked parent child n ≡ ok m) × HasChildren m parent (child ∷ xs)
unfolding add_child_locked IsChain IsDistinct
add_child_locked_lem n parent child xs p c h away =
    let put = set_next_sibling child (n parent).first_child n in
    let m = set_first_child parent child put in
    let behind : IsChain put (n parent).first_child xs =
      IsChain-frame n put (n parent).first_child xs
        (all_kept n child (n parent).first_child xs away) h.chain in
    let behind' : IsChain m (n parent).first_child xs =
      IsChain-frame put m (n parent).first_child xs (all_untouched put parent child xs) behind in
    (
      m,
      rw (p, c) refl,
      record {
        chain = (
          first_written put parent child,
          c,
          subst (λ k. IsChain m k xs)
              (sym (
                next_untouched put parent child child
                ∙ next_written n child (n parent).first_child))
              behind',
        );
        distinct = (away, h.distinct);
      },
    )
