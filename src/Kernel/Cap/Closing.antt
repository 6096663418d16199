-- ===== src/Kernel/Cap/Closing.antt =====
-- Closing a child of a capability in kernel/src/cap/ops.rs ends, and moves its children up.
use project_zero.Base.{
  ◌+◌, ◌≡◌, refl, sym, ◌∙◌, subst, true, false, List, [], ◌∷◌, ◌++◌, All, if◌then◌else◌, arith, ok,
  ◌==◌,
}
use project_zero.Kernel.Ipc.{Link, no_link, link_eq, write_at}
use project_zero.Kernel.Cap.{
  CapabilityNode, empty_node, Nodes, Tables, is_link, each_sibling, chain_fuel,
}
use project_zero.Kernel.Cap.Unique.{dropped_keeps}
use project_zero.Kernel.Cap.Leave.{
  splice_children, close_child, close_nodes, capability_close_locked, vacate,
}
use project_zero.Kernel.Cap.Chains.{IsChain, Lacks, HasChildren, IsChain-frame, IsDistinct-drop}
use project_zero.Kernel.Cap.Removal.{remove_child_locked_lem}
use project_zero.Kernel.Cap.Adoption.{
  update_all, last_visited, update_all-keeps, update_all-gives, each_sibling_lem,
}
use project_zero.Kernel.Cap.Reparent.{
  splice_children_lem, splice-parent, all_next, Lacks-append, written_elsewhere, kids_frame,
  IsDistinct-left, up, kid, StandsIn,
}

module _ (n : Nodes) (l : Link) (xs ys kids : List Link) (v : StandsIn n l xs ys kids) where
  abbrev raised : Nodes → CapabilityNode → CapabilityNode
  raised m child = record child {
    parent = (n l).parent;
    parent_gen = (n l).parent_gen;
    derivation_depth =
        if (m (n l).parent).derivation_depth == 255
        then 255
        else (m (n l).parent).derivation_depth + 1;
  }

  abbrev adopted : Nodes → Nodes
  adopted m = update_all (raised m) kids m

  abbrev spliced : Nodes → Nodes
  spliced m =
      splice_children (up n l xs ys kids) (kid n l xs ys kids) (last_visited no_link kids)
        (adopted m)

  -- Once the closed capability is out of its parent's list.
  module _ (m : Nodes) (h : HasChildren m (n l).parent (xs ++ ys))
      (frame : (z : Link)
        → Lacks xs z
        → link_eq l z ≡ false
        → (m z).next_sibling ≡ (n z).next_sibling) where
    kids-IsChain : IsChain m (n l).first_child kids
    kids-IsChain =
        IsChain-frame n m (n l).first_child kids
          (kids_frame n l xs ys kids v m frame kids v.not_own v.apart) v.children

    next_adopted : (k : Link) → (adopted m k).next_sibling ≡ (m k).next_sibling
    next_adopted k = update_all-keeps (λ x. x.next_sibling) (raised m) (λ x. refl) kids m k

    adopted_siblings : HasChildren (adopted m) (n l).parent (xs ++ ys)
    adopted_siblings = record {
      chain =
          subst (λ k. IsChain (adopted m) k (xs ++ ys))
            (sym (update_all-keeps (λ x. x.first_child) (raised m) (λ x. refl) kids m (n l).parent))
            (IsChain-frame m (adopted m) (m (n l).parent).first_child (xs ++ ys)
              (all_next m (adopted m) next_adopted (xs ++ ys)) h.chain);
      distinct = h.distinct;
    }

    adopted_kids : IsChain (adopted m) (n l).first_child kids
    adopted_kids =
        IsChain-frame m (adopted m) (n l).first_child kids
          (all_next m (adopted m) next_adopted kids) kids-IsChain

    loop_ends :
        each_sibling chain_fuel (raised m) (n l).first_child no_link m
        ≡ ok (adopted m, last_visited no_link kids)
    loop_ends =
        each_sibling_lem (raised m) (λ x. refl) (n l).first_child m kids kids-IsChain
          (IsDistinct-left n l xs ys kids v kids (xs ++ ys) v.apart)

    spliced_children : HasChildren (spliced m) (n l).parent (kids ++ (xs ++ ys))
    spliced_children =
        splice_children_lem (adopted m) (n l).parent (n l).first_child kids (xs ++ ys) adopted_kids
          adopted_siblings v.apart

    away : Lacks (kids ++ (xs ++ ys)) l
    away =
        let (d, before, after) = IsDistinct-drop xs ys l v.siblings.distinct in
        Lacks-append kids (xs ++ ys) l v.not_own (Lacks-append xs ys l before after)

    closed_children :
        HasChildren (write_at l empty_node (spliced m)) (n l).parent (kids ++ (xs ++ ys))
    closed_children =
        written_elsewhere (spliced m) l (n l).parent empty_node (kids ++ (xs ++ ys)) v.parent_other
          away spliced_children

    raised_kids :
        (ks : List Link)
        → Lacks ks l
        → All (λ k. (adopted m k).parent ≡ (n l).parent) ks
        → All (λ k. (write_at l empty_node (spliced m) k).parent ≡ (n l).parent) ks
    unfolding write_at
    raised_kids [] a h = tt
    raised_kids (k ∷ ks) (e, a) (p, h) =
        let q : link_eq l k ≡ false = ground (arith, e) in
        (
          rw q (
              splice-parent (adopted m) (n l).parent (n l).first_child (last_visited no_link kids) k
              ∙ p),
          raised_kids ks a h,
        )

  -- Closing a capability that is a child of another one ends without a panic: its parent's children
  -- are then its own children, in their order, before its siblings, and each of its children has the
  -- parent of the closed one for its parent.
  pub close_nodes_lem :
      (m : Nodes) × (close_nodes l n ≡ ok m)
      × HasChildren m (n l).parent (kids ++ (xs ++ ys))
      × All (λ k. (m k).parent ≡ (n l).parent) kids
      × (m l ≡ empty_node)
  unfolding close_nodes close_child write_at
  close_nodes_lem =
      let (m, removed, h, gone, frame) =
        remove_child_locked_lem n (n l).parent l v.parent_there v.there xs ys v.siblings in
      let given : All (λ k. (adopted m k).parent ≡ (n l).parent) kids =
        update_all-gives (λ x. x.parent) (n l).parent (raised m) (λ x. refl) kids m in
      let linked : is_link (n l).parent ≡ true = ground (arith, v.parent_there) in
      let self : link_eq l l ≡ true = ground arith in
      (
        write_at l empty_node (spliced m),
        rw (linked, removed, loop_ends m h frame) refl,
        closed_children m h frame,
        raised_kids m h frame kids v.not_own given,
        rw self refl,
      )

-- Closing a capability that is a child of another one, with children that are none of its siblings,
-- ends and succeeds: it answers the object and the endpoint, its children are then its parent's,
-- before its siblings, and have that parent.
pub capability_close_locked_lem :
    (t : Tables) (l : Link) (xs ys kids : List Link)
    → StandsIn t.nodes l xs ys kids
    → (t.entries l).occupied ≡ true
    → ((capability_close_locked l t).0 ≡ ok ((t.entries l).object_index, (t.entries l).endpoint))
      × HasChildren (capability_close_locked l t).1.nodes (t.nodes l).parent (kids ++ (xs ++ ys))
      × All (λ k. ((capability_close_locked l t).1.nodes k).parent ≡ (t.nodes l).parent) kids
unfolding capability_close_locked
capability_close_locked_lem t l xs ys kids v o =
    let (m, done, h, raised, gone) = close_nodes_lem t.nodes l xs ys kids v in
    let s : Tables = record (vacate l t) { nodes = m } in
    let kept = sym (dropped_keeps (t.entries l).object_index s).1 in
    rw (v.there, o, done)
      (
        refl,
        subst (λ f. HasChildren f (t.nodes l).parent (kids ++ (xs ++ ys))) kept h,
        subst (λ (f : Nodes). All (λ k. (f k).parent ≡ (t.nodes l).parent) kids) kept raised,
      )
