-- ===== src/Kernel/Cap/Removal.antt =====
-- `remove_child_locked` of kernel/src/cap/node.rs on the list of the children.
use project_zero.Base.{
  ℕ, zero, suc, ◌≤◌, ◌<◌, ◌≡◌, refl, sym, ◌∙◌, subst, true, false, List, [], ◌∷◌, ◌++◌, length,
  arith, ok,
}
use project_zero.Kernel.Ipc.{Link, no_link, link_eq}
use project_zero.Kernel.Cap.{
  Nodes, in_table, set_first_child, set_next_sibling, remove_from, remove_child_locked,
}
use project_zero.Kernel.Cap.Chains.{
  IsChain, Lacks, IsDistinct, HasChildren, IsChain-frame, IsDistinct-drop, IsChain-in_table,
}
use project_zero.Kernel.Cap.Pigeonhole.{length_bound}
use project_zero.Kernel.Cap.Siblings.{
  next_kept, next_written, first_kept, next_untouched, first_written, all_kept, all_untouched,
}

-- The sibling in front of a child.
pub last_of : Link → List Link → Link
last_of x [] = x
last_of x (z ∷ zs) = last_of z zs

middle-Lacks : (xs ys : List Link) (c x : Link) → Lacks (xs ++ (c ∷ ys)) x → link_eq c x ≡ false
middle-Lacks [] ys c x (e, h) = e
middle-Lacks (z ∷ zs) ys c x (e, h) = middle-Lacks zs ys c x h

last-Lacks :
    (z : Link) (zs ys : List Link) (x : Link)
    → Lacks (z ∷ (zs ++ ys)) x
    → link_eq (last_of z zs) x ≡ false
unfolding last_of
last-Lacks z [] ys x (e, h) = e
last-Lacks z (w ∷ zs) ys x (e, h) = last-Lacks w zs ys x h

last_of-Lacks :
    (z : Link) (zs : List Link) (x : Link) → Lacks (z ∷ zs) x → link_eq (last_of z zs) x ≡ false
unfolding last_of
last_of-Lacks z [] x (e, h) = e
last_of-Lacks z (w ∷ zs) x (e, h) = last_of-Lacks w zs x h

module _ (n : Nodes) (child : Link) (ys : List Link) where
  -- The loop finds the sibling in front of the child.
  pub remove_from_lem :
      (fuel : ℕ) (curr x : Link) (xs : List Link)
      → IsChain n curr (x ∷ (xs ++ (child ∷ ys)))
      → IsDistinct (x ∷ (xs ++ (child ∷ ys)))
      → length xs < fuel
      → remove_from fuel curr child n
        ≡ ok (set_next_sibling (last_of x xs) (n child).next_sibling n)
  unfolding remove_from IsChain IsDistinct last_of
  remove_from_lem zero curr x xs c d b = absurd (omega arith)
  remove_from_lem (suc fuel) curr x [] (e, i, (e', j, c)) d b =
      let here : link_eq (n x).next_sibling child ≡ true = ground (arith, e') in
      rw (e, i, here) refl
  remove_from_lem (suc fuel) curr x (z ∷ zs) (e, i, (e', j, c)) (away, d) b =
      let other : link_eq z child ≡ false =
        (let m = middle-Lacks zs ys child z d.0 in ground (arith, m)) in
      let passed : link_eq (n x).next_sibling child ≡ false =
        subst (λ k. link_eq k child ≡ false) (sym e') other in
      rw (e, i, passed) (remove_from_lem fuel (n x).next_sibling z zs (e', j, c) d (omega arith))

  abbrev pub skipped : Link → List Link → Nodes
  skipped x xs = set_next_sibling (last_of x xs) (n child).next_sibling n

  -- And takes the child out of the chain.
  pub skipped-IsChain :
      (curr x : Link) (xs : List Link)
      → IsChain n curr (x ∷ (xs ++ (child ∷ ys)))
      → IsDistinct (x ∷ (xs ++ (child ∷ ys)))
      → IsChain (skipped x xs) curr (x ∷ (xs ++ ys))
  unfolding IsChain IsDistinct last_of
  skipped-IsChain curr x [] (e, i, (e', j, c)) ((f, away), d) = (
    e,
    i,
    subst (λ k. IsChain (skipped x []) k ys) (sym (next_written n x (n child).next_sibling))
        (IsChain-frame n (skipped x []) (n child).next_sibling ys
          (all_kept n x (n child).next_sibling ys away) c),
  )
  skipped-IsChain curr x (z ∷ zs) (e, i, c) (away, d) = (
    e,
    i,
    subst (λ k. IsChain (skipped z zs) k (z ∷ (zs ++ ys)))
        (sym (
          next_kept n (last_of z zs) (n child).next_sibling x
            (last-Lacks z zs (child ∷ ys) x away)))
        (skipped-IsChain (n x).next_sibling z zs c d),
  )

length_middle : (xs ys : List Link) (c : Link) → length xs ≤ length (xs ++ (c ∷ ys))
length_middle [] ys c = omega arith
length_middle (x ∷ xs) ys c = omega (arith, length_middle xs ys c)

module _ (n : Nodes) (parent child : Link) (p : in_table parent ≡ true)
    (i : in_table child ≡ true) where
  -- What is left of the children once the loop has ended.
  unlinked_lem :
      (m : Nodes) (xs : List Link)
      → HasChildren m parent xs
      → Lacks xs child
      → HasChildren (set_next_sibling child no_link m) parent xs
  unlinked_lem m xs h away =
      let done = set_next_sibling child no_link m in
      record {
        chain =
            subst (λ k. IsChain done k xs) (sym (first_kept m child no_link parent))
              (IsChain-frame m done (m parent).first_child xs (all_kept m child no_link xs away)
                h.chain);
        distinct = h.distinct;
      }

  -- A child is taken out of the list of its parent's children, and the loop that looks for it ends;
  -- the siblings of the links behind it and of all other links stay.
  pub remove_child_locked_lem :
      (xs ys : List Link)
      → HasChildren n parent (xs ++ (child ∷ ys))
      → (m : Nodes) × (remove_child_locked parent child n ≡ ok m)
        × HasChildren m parent (xs ++ ys)
        × ((m child).next_sibling ≡ no_link)
        × ((z : Link)
            → Lacks xs z
            → link_eq child z ≡ false
            → (m z).next_sibling ≡ (n z).next_sibling)
  unfolding remove_child_locked IsChain IsDistinct
  remove_child_locked_lem [] ys h =
      let (e, j, c) = h.chain in
      let m = set_first_child parent (n child).next_sibling n in
      let first : link_eq (n parent).first_child child ≡ true = ground (arith, e) in
      let rest : HasChildren m parent ys = record {
        chain =
            subst (λ k. IsChain m k ys) (sym (first_written n parent (n child).next_sibling))
              (IsChain-frame n m (n child).next_sibling ys
                (all_untouched n parent (n child).next_sibling ys) c);
        distinct = h.distinct.1;
      } in
      (
        set_next_sibling child no_link m,
        rw (p, i, first) refl,
        unlinked_lem m ys rest h.distinct.0,
        next_written m child no_link,
        λ z a b. next_kept m child no_link z b ∙ next_untouched n parent (n child).next_sibling z,
      )
  remove_child_locked_lem (x ∷ xs) ys h =
      let (e, j, c) = h.chain in
      let m = skipped n child ys x xs in
      let (d, before, after) = IsDistinct-drop (x ∷ xs) ys child h.distinct in
      let away : link_eq x child ≡ false =
        (let q = middle-Lacks xs ys child x h.distinct.0 in ground (arith, q)) in
      let first : link_eq (n parent).first_child child ≡ false =
        subst (λ k. link_eq k child ≡ false) (sym e) away in
      let short =
        length_bound (x ∷ (xs ++ (child ∷ ys))) h.distinct
          (IsChain-in_table n (n parent).first_child (x ∷ (xs ++ (child ∷ ys))) h.chain) in
      let loop =
        remove_from_lem n child ys 513 (n parent).first_child x xs h.chain h.distinct
          (omega (arith, length_middle xs ys child)) in
      let rest : HasChildren m parent (x ∷ (xs ++ ys)) = record {
        chain =
            subst (λ k. IsChain m k (x ∷ (xs ++ ys)))
              (sym (first_kept n (last_of x xs) (n child).next_sibling parent))
              (skipped-IsChain n child ys (n parent).first_child x xs h.chain h.distinct);
        distinct = d;
      } in
      (
        set_next_sibling child no_link m,
        rw (p, i, first, loop) refl,
        unlinked_lem m (x ∷ (xs ++ ys)) rest (lacks_both (x ∷ xs) before after),
        next_written m child no_link,
        λ z a b.
            next_kept m child no_link z b
            ∙ next_kept n (last_of x xs) (n child).next_sibling z (last_of-Lacks x xs z a),
      )
    where
      lacks_both : (zs : List Link) → Lacks zs child → Lacks ys child → Lacks (zs ++ ys) child
      lacks_both [] a b = b
      lacks_both (z ∷ zs) (e, a) b = (e, lacks_both zs a b)
