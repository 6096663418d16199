-- ===== src/Kernel/Cap/Reparent.antt =====
-- `capability_close_locked` of kernel/src/cap/ops.rs on the tree: the children of a closed capability
-- go to its parent.
use project_zero.Base.{
  ◌≡◌, refl, sym, ap, ◌∙◌, subst, inl, inr, true, false, List, [], ◌∷◌, ◌++◌, All, arith,
  Bool-cases,
}
use project_zero.Kernel.Ipc.{Link, no_link, link_eq, link_eq_sound, write_at}
use project_zero.Kernel.Cap.{
  CapabilityNode, Nodes, in_table, is_link, set_first_child, set_next_sibling,
}
use project_zero.Kernel.Cap.Leave.{splice_children}
use project_zero.Kernel.Cap.Chains.{
  IsChain, Lacks, IsDistinct, HasChildren, IsChain-frame, IsChain-in_table,
}
use project_zero.Kernel.Cap.Siblings.{
  next_kept, next_written, first_written, all_kept, all_untouched,
}
use project_zero.Kernel.Cap.Adoption.{last_visited}

last_apart :
    (y : Link) (ys zs : List Link) (x : Link)
    → Lacks (y ∷ (ys ++ zs)) x
    → link_eq (last_visited y ys) x ≡ false
unfolding last_visited
last_apart y [] zs x (e, h) = e
last_apart y (w ∷ ys) zs x (e, h) = last_apart w ys zs x h

Lacks-right : (xs ys : List Link) (x : Link) → Lacks (xs ++ ys) x → Lacks ys x
Lacks-right [] ys x h = h
Lacks-right (w ∷ xs) ys x (e, h) = Lacks-right xs ys x h

-- The last of a chain is led on to another chain.
joined :
    (n : Nodes) (l first next : Link) (xs ys : List Link)
    → IsChain n l (first ∷ xs)
    → IsChain n next ys
    → IsDistinct (first ∷ (xs ++ ys))
    → IsChain (set_next_sibling (last_visited first xs) next n) l (first ∷ (xs ++ ys))
unfolding IsChain IsDistinct last_visited
joined n l first next [] ys (e, i, c) d (away, rest) = (
  e,
  i,
  subst (λ k. IsChain (set_next_sibling first next n) k ys) (sym (next_written n first next))
      (IsChain-frame n (set_next_sibling first next n) next ys (all_kept n first next ys away) d),
)
joined n l first next (x ∷ xs) ys (e, i, c) d (away, rest) =
    let m = set_next_sibling (last_visited x xs) next n in
    (
      e,
      i,
      subst (λ k. IsChain m k (x ∷ (xs ++ ys)))
          (sym (next_kept n (last_visited x xs) next first (last_apart x xs ys first away)))
          (joined n (n first).next_sibling x next xs ys c d rest),
    )

last_in_table :
    (x : Link) (xs : List Link)
    → All (λ x. in_table x ≡ true) (x ∷ xs)
    → is_link (last_visited x xs) ≡ true
unfolding last_visited
last_in_table x [] (i, h) = ground arith
last_in_table x (y ∷ xs) (i, h) = last_in_table y xs h

-- The children of the closed one come in front of the parent's.
pub splice_children_lem :
    (n : Nodes) (parent first : Link) (kids xs : List Link)
    → IsChain n first kids
    → HasChildren n parent xs
    → IsDistinct (kids ++ xs)
    → HasChildren (splice_children parent first (last_visited no_link kids) n) parent (kids ++ xs)
unfolding splice_children last_visited
splice_children_lem n parent first [] xs c h d = h
splice_children_lem n parent first (k ∷ kids) xs c h d =
    let old = (n parent).first_child in
    let put = set_next_sibling (last_visited k kids) old n in
    let m = set_first_child parent first put in
    let chained = joined n first k old kids xs c h.chain d in
    rw (last_in_table k kids (IsChain-in_table n first (k ∷ kids) c)) (record {
      chain =
          subst (λ l. IsChain m l (k ∷ (kids ++ xs))) (sym (first_written put parent first))
            (IsChain-frame put m first (k ∷ (kids ++ xs))
              (all_untouched put parent first (k ∷ (kids ++ xs))) chained);
      distinct = d;
    })

pub splice-parent :
    (n : Nodes) (parent first last k : Link)
    → (splice_children parent first last n k).parent ≡ (n k).parent
unfolding splice_children write_at
splice-parent n parent first last k = elim (Bool-cases (is_link last)) [
  | inr q ↦ rw q refl
  | inl q ↦ elim (Bool-cases (link_eq parent k)) [
    | inl r ↦ elim (Bool-cases (link_eq last parent)) [
      | inl s ↦
          rw (q, r, s)
            (ap (λ j. (n j).parent) (link_eq_sound last parent s ∙ link_eq_sound parent k r))
      | inr s ↦ rw (q, r, s) (ap (λ j. (n j).parent) (link_eq_sound parent k r))
    ]
    | inr r ↦ elim (Bool-cases (link_eq last k)) [
      | inl s ↦ rw (q, r, s) (ap (λ j. (n j).parent) (link_eq_sound last k s))
      | inr s ↦ rw (q, r, s) refl
    ]
  ]
]

pub all_next :
    (n m : Nodes)
    → ((k : Link) → (m k).next_sibling ≡ (n k).next_sibling)
    → (xs : List Link) → All (λ x. (m x).next_sibling ≡ (n x).next_sibling) xs
all_next n m h [] = tt
all_next n m h (x ∷ xs) = (h x, all_next n m h xs)

Lacks-left : (xs ys : List Link) (x : Link) → Lacks (xs ++ ys) x → Lacks xs x
Lacks-left [] ys x h = tt
Lacks-left (w ∷ xs) ys x (e, h) = (e, Lacks-left xs ys x h)

pub Lacks-append : (xs ys : List Link) (x : Link) → Lacks xs x → Lacks ys x → Lacks (xs ++ ys) x
Lacks-append [] ys x a b = b
Lacks-append (w ∷ xs) ys x (e, a) b = (e, Lacks-append xs ys x a b)

-- A node apart from the list is written.
pub written_elsewhere :
    (n : Nodes) (l parent : Link) (v : CapabilityNode) (xs : List Link)
    → link_eq l parent ≡ false
    → Lacks xs l
    → HasChildren n parent xs
    → HasChildren (write_at l v n) parent xs
unfolding write_at
written_elsewhere n l parent v xs other away h = record {
  chain =
      subst (λ k. IsChain (write_at l v n) k xs) (unchanged_first)
        (IsChain-frame n (write_at l v n) (n parent).first_child xs (unchanged xs away) h.chain);
  distinct = h.distinct;
}
  where
    unchanged_first : (n parent).first_child ≡ (write_at l v n parent).first_child
    unchanged_first = rw other refl

    unchanged :
        (ys : List Link)
        → Lacks ys l
        → All (λ x. (write_at l v n x).next_sibling ≡ (n x).next_sibling) ys
    unchanged [] a = tt
    unchanged (y ∷ ys) (e, a) =
        (let q : link_eq l y ≡ false = ground (arith, e) in rw q refl, unchanged ys a)

module _ (n : Nodes) (l : Link) (xs ys kids : List Link) where
  abbrev pub up : Link
  up = (n l).parent

  abbrev pub kid : Link
  kid = (n l).first_child

  -- The place of the closed capability in the tree: one of its parent's children, with children of
  -- its own that are none of its siblings.
  pub record StandsIn : Type 0 where
    pub there : in_table l ≡ true
    pub parent_there : in_table up ≡ true
    pub parent_other : link_eq l up ≡ false
    pub siblings : HasChildren n up (xs ++ (l ∷ ys))
    pub children : IsChain n kid kids
    pub not_own : Lacks kids l
    pub apart : IsDistinct (kids ++ (xs ++ ys))

  module _ (v : StandsIn) where
    pub kids_frame :
        (m : Nodes)
        → ((z : Link) → Lacks xs z → link_eq l z ≡ false → (m z).next_sibling ≡ (n z).next_sibling)
        → (ks : List Link) → Lacks ks l
        → IsDistinct (ks ++ (xs ++ ys))
        → All (λ z. (m z).next_sibling ≡ (n z).next_sibling) ks
    unfolding IsDistinct
    kids_frame m f [] a d = tt
    kids_frame m f (k ∷ ks) (e, a) (away, d) = (
      f k (Lacks-left xs ys k (Lacks-right ks (xs ++ ys) k away)) (ground (arith, e)),
      kids_frame m f ks a d,
    )

    pub IsDistinct-left : (ks zs : List Link) → IsDistinct (ks ++ zs) → IsDistinct ks
    unfolding IsDistinct
    IsDistinct-left [] zs d = tt
    IsDistinct-left (k ∷ ks) zs (a, d) = (Lacks-left ks zs k a, IsDistinct-left ks zs d)
