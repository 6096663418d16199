-- ===== src/Kernel/Cap/Identity.antt =====
-- The identifiers of capabilities in kernel/src/cap/node.rs.
use project_zero.Base.{
  ℕ, zero, suc, ◌≡◌, refl, ap, ◌∙◌, inl, inr, false, ◌&&◌, Outcome, ok, err, panic, if◌then◌else◌,
  Bool-cases,
}
use project_zero.Base.Results.{Ensures, Ensures-bind, Ensures-ok}
use project_zero.Kernel.Ipc.{IpcError, Link, no_link, link_eq, link_eq_sound, write_at}
use project_zero.Kernel.Cap.{
  CapabilityNode, empty_node, Nodes, in_table, is_link, each_sibling, replace_from,
  replace_child_locked, remove_from, remove_child_locked, set_first_child, set_next_sibling,
  chain_fuel,
}
use project_zero.Kernel.Cap.Leave.{
  move_nodes, close_nodes, close_child, close_root, splice_children,
}
use project_zero.Kernel.Cap.Derivation.{linked_nodes}

-- The same identifiers, and the same nodes revoked.
abbrev pub SameIds : Nodes → Nodes → Type 0
SameIds n m =
    (k : Link) → ((m k).capability_id ≡ (n k).capability_id) × ((m k).is_revoked ≡ (n k).is_revoked)

-- What a call leaves where it succeeds.
abbrev pub KeepsIds : Nodes → Outcome IpcError Nodes → Type 0
KeepsIds n o = Ensures (SameIds n) o

abbrev Walked : Nodes → Nodes × Link → Type 0
Walked n r = SameIds n r.0

written_ids :
    (n : Nodes) (l : Link) (v : CapabilityNode)
    → v.capability_id ≡ (n l).capability_id
    → v.is_revoked ≡ (n l).is_revoked
    → SameIds n (write_at l v n)
unfolding write_at
written_ids n l v e r k = elim (Bool-cases (link_eq l k)) [
  | inl q ↦
      let same = ap (λ k. n k) (link_eq_sound l k q) in
      rw q (e ∙ ap (λ x. x.capability_id) same, r ∙ ap (λ x. x.is_revoked) same)
  | inr q ↦ rw q (refl, refl)
]

SameIds-trans : (a b c : Nodes) → SameIds a b → SameIds b c → SameIds a c
SameIds-trans a b c v w k = ((w k).0 ∙ (v k).0, (w k).1 ∙ (v k).1)

next_ids : (n : Nodes) (l next : Link) → SameIds n (set_next_sibling l next n)
next_ids n l next = written_ids n l (record (n l) { next_sibling = next }) refl refl

first_ids : (n : Nodes) (l first : Link) → SameIds n (set_first_child l first n)
first_ids n l first = written_ids n l (record (n l) { first_child = first }) refl refl

remove_from-ids :
    (fuel : ℕ) (curr child : Link) (n : Nodes) → KeepsIds n (remove_from fuel curr child n)
unfolding remove_from
remove_from-ids zero curr child n = tt
remove_from-ids (suc fuel) curr child n =
    let next = (n curr).next_sibling in
    elim (Bool-cases (in_table curr)) [
      | inr q ↦ rw q (λ k. (refl, refl))
      | inl q ↦ elim (Bool-cases (link_eq next child)) [
        | inl r ↦ rw (q, r) (next_ids n curr (n child).next_sibling)
        | inr r ↦ rw (q, r) (remove_from-ids fuel next child n)
      ]
    ]

replace_from-ids :
    (fuel : ℕ) (curr old new : Link) (n : Nodes) → KeepsIds n (replace_from fuel curr old new n)
unfolding replace_from
replace_from-ids zero curr old new n = tt
replace_from-ids (suc fuel) curr old new n =
    let next = (n curr).next_sibling in
    let put = set_next_sibling new (n old).next_sibling n in
    elim (Bool-cases (in_table curr)) [
      | inr q ↦ rw q (λ k. (refl, refl))
      | inl q ↦ elim (Bool-cases (link_eq next old)) [
        | inl r ↦
            rw (q, r)
              (SameIds-trans n put (set_next_sibling curr new put)
                (next_ids n new (n old).next_sibling) (next_ids put curr new))
        | inr r ↦ rw (q, r) (replace_from-ids fuel next old new n)
      ]
    ]

module _ (update : CapabilityNode → CapabilityNode)
    (keeps : (x : CapabilityNode)
      → ((update x).capability_id ≡ x.capability_id) × ((update x).is_revoked ≡ x.is_revoked)) where
  each_sibling-ids :
      (fuel : ℕ) (curr last : Link) (n : Nodes)
      → Ensures (Walked n) (each_sibling fuel update curr last n)
  unfolding each_sibling
  each_sibling-ids zero curr last n = tt
  each_sibling-ids (suc fuel) curr last n =
      let updated = write_at curr (update (n curr)) n in
      elim (Bool-cases (in_table curr)) [
        | inr q ↦ rw q (λ k. (refl, refl))
        | inl q ↦ rw q (
            later n updated
              (written_ids n curr (update (n curr)) (keeps (n curr)).0 (keeps (n curr)).1)
              (each_sibling fuel update (updated curr).next_sibling curr updated)
              (each_sibling-ids fuel (updated curr).next_sibling curr updated))
      ]
    where
      later :
          (n m : Nodes)
          → SameIds n m
          → (o : Outcome IpcError (Nodes × Link)) → Ensures (Walked m) o
          → Ensures (Walked n) o
      later n m v (ok (r, last)) w = SameIds-trans n m r v w
      later n m v (err e) w = tt
      later n m v panic w = tt

unlink-ids :
    (parent child : Link) (n : Nodes)
    → KeepsIds n (
        if link_eq (n parent).first_child child
        then ok (set_first_child parent (n child).next_sibling n)
        else remove_from chain_fuel (n parent).first_child child n)
unlink-ids parent child n = elim (Bool-cases (link_eq (n parent).first_child child)) [
  | inl q ↦ rw q (first_ids n parent (n child).next_sibling)
  | inr q ↦ rw q (remove_from-ids chain_fuel (n parent).first_child child n)
]

remove_child-ids :
    (parent child : Link) (n : Nodes) → KeepsIds n (remove_child_locked parent child n)
unfolding remove_child_locked
remove_child-ids parent child n = elim (Bool-cases (in_table parent && in_table child)) [
  | inr q ↦ rw q tt
  | inl q ↦ rw q (
      Ensures-bind (SameIds n) (SameIds n)
        (if link_eq (n parent).first_child child
          then ok (set_first_child parent (n child).next_sibling n)
          else remove_from chain_fuel (n parent).first_child child n)
        (λ m. ok (set_next_sibling child no_link m)) (unlink-ids parent child n)
        (λ m v. SameIds-trans n m (set_next_sibling child no_link m) v (next_ids m child no_link)))
]

replace_child-ids :
    (parent old new : Link) (n : Nodes) → KeepsIds n (replace_child_locked parent old new n)
unfolding replace_child_locked
replace_child-ids parent old new n =
    elim (Bool-cases (in_table parent && in_table old && in_table new)) [
      | inr q ↦ rw q tt
      | inl q ↦ elim (Bool-cases (link_eq (n parent).first_child old)) [
        | inl r ↦
            let put = set_next_sibling new (n old).next_sibling n in
            rw (q, r)
              (SameIds-trans n put (set_first_child parent new put)
                (next_ids n new (n old).next_sibling) (first_ids put parent new))
        | inr r ↦ rw (q, r) (replace_from-ids chain_fuel (n parent).first_child old new n)
      ]
    ]

splice-ids :
    (parent first last : Link) (n : Nodes) → SameIds n (splice_children parent first last n)
unfolding splice_children
splice-ids parent first last n = elim (Bool-cases (is_link last)) [
  | inl q ↦
      let put = set_next_sibling last (n parent).first_child n in
      rw q (
        SameIds-trans n put (set_first_child parent first put)
          (next_ids n last (n parent).first_child) (first_ids put parent first))
  | inr q ↦ rw q (λ k. (refl, refl))
]

close_child-ids : (l : Link) (n : Nodes) → KeepsIds n (close_child l n)
unfolding close_child
close_child-ids l n =
    let up = (n l).parent in
    let kids = (n l).first_child in
    Ensures-bind (SameIds n) (SameIds n) (remove_child_locked up l n) _ (remove_child-ids up l n)
      (λ m v.
        Ensures-bind (Walked m) (SameIds n) (each_sibling chain_fuel _ kids no_link m) _
          (each_sibling-ids _ (λ x. (refl, refl)) chain_fuel kids no_link m)
          (λ (r, last) w.
            SameIds-trans n m (splice_children up kids last r) v
              (SameIds-trans m r (splice_children up kids last r) w (splice-ids up kids last r))))

close_root-ids : (l : Link) (n : Nodes) → KeepsIds n (close_root l n)
unfolding close_root
close_root-ids l n =
    let kids = (n l).first_child in
    Ensures-bind (Walked n) (SameIds n) (each_sibling chain_fuel _ kids no_link n) _
      (each_sibling-ids _ (λ x. (refl, refl)) chain_fuel kids no_link n) (λ r w. w)

relinked-ids :
    (l : Link) (n : Nodes)
    → KeepsIds n (if is_link (n l).parent then close_child l n else close_root l n)
relinked-ids l n = elim (Bool-cases (is_link (n l).parent)) [
  | inl q ↦ rw q (close_child-ids l n)
  | inr q ↦ rw q (close_root-ids l n)
]

abbrev Emptied : Link → Nodes → Nodes → Type 0
Emptied l n m = (k : Link) → (m k).capability_id ≡ (if link_eq l k then 0 else (n k).capability_id)

emptied : (l : Link) (n m : Nodes) → SameIds n m → Emptied l n (write_at l empty_node m)
unfolding write_at
emptied l n m v k = elim (Bool-cases (link_eq l k)) [ inl q ↦ rw q refl | inr q ↦ rw q (v k).0 ]

-- After a close the closed node is empty, and the others keep their identifiers.
pub close_nodes-ids :
    (l : Link) (n m : Nodes)
    → close_nodes l n ≡ ok m
    → (k : Link) → (m k).capability_id ≡ (if link_eq l k then 0 else (n k).capability_id)
unfolding close_nodes
close_nodes-ids l n m e = Ensures-ok (Emptied l n) (close_nodes l n) m e (
    Ensures-bind (SameIds n) (Emptied l n)
      (if is_link (n l).parent then close_child l n else close_root l n) _ (relinked-ids l n)
      (λ done v. emptied l n done v))

abbrev pub renamed : Link → ℕ → Nodes → Link → ℕ
renamed dst id n k = if link_eq dst k then id else (n k).capability_id

abbrev Renamed : Link → Link → ℕ → Nodes → Nodes → Type 0
Renamed dst src id n m =
    (k : Link) → (m k).capability_id ≡ (if link_eq src k then 0 else renamed dst id n k)

placed_id :
    (dst : Link) (n : Nodes) (v : CapabilityNode) (k : Link)
    → (write_at dst v n k).capability_id ≡ renamed dst v.capability_id n k
unfolding write_at
placed_id dst n v k = elim (Bool-cases (link_eq dst k)) [ inl q ↦ rw q refl | inr q ↦ rw q refl ]

spliced-ids :
    (dst src : Link) (n m : Nodes)
    → KeepsIds m
        (if is_link (n src).parent then replace_child_locked (n src).parent src dst m else ok m)
spliced-ids dst src n m = elim (Bool-cases (is_link (n src).parent)) [
  | inl q ↦ rw q (replace_child-ids (n src).parent src dst m)
  | inr q ↦ rw q (λ k. (refl, refl))
]

-- After a move the source's node is empty, the destination has the new identifier, and the others
-- keep theirs.
pub move_nodes-ids :
    (dst src : Link) (id gen : ℕ) (n m : Nodes)
    → move_nodes dst src id gen n ≡ ok m
    → (k : Link) → (m k).capability_id ≡ (if link_eq src k then 0 else renamed dst id n k)
unfolding move_nodes
move_nodes-ids dst src id gen n m e =
    let node : CapabilityNode = record (n src) {
      capability_id = id;
      is_revoked = false;
      next_sibling = no_link;
    } in
    let placed = write_at dst node n in
    let kids = (n src).first_child in
    Ensures-ok (Renamed dst src id n) (move_nodes dst src id gen n) m e (
      Ensures-bind (SameIds placed) (Renamed dst src id n)
        (if is_link (n src).parent
          then replace_child_locked (n src).parent src dst placed
          else ok placed)
        _ (spliced-ids dst src n placed)
        (λ linked v.
          Ensures-bind (Walked linked) (Renamed dst src id n)
            (each_sibling chain_fuel _ kids no_link linked) _
            (each_sibling-ids _ (λ x. (refl, refl)) chain_fuel kids no_link linked)
            (λ (r, last) w k.
              emptied src placed r (SameIds-trans placed linked r v w) k
              ∙ ap (λ x. if link_eq src k then 0 else x) (placed_id dst n node k))))

-- After a derivation.
pub linked_nodes-ids :
    (parent dst : Link) (n : Nodes) (k : Link)
    → (linked_nodes parent dst n k).capability_id ≡ (n k).capability_id
linked_nodes-ids parent dst n k =
    let put = set_next_sibling dst (n parent).first_child n in
    (SameIds-trans n put (set_first_child parent dst put) (next_ids n dst (n parent).first_child)
      (first_ids put parent dst) k).0

pub derived_id :
    (parent dst : Link) (n : Nodes) (v : CapabilityNode) (k : Link)
    → (linked_nodes parent dst (write_at dst v n) k).capability_id ≡ renamed dst v.capability_id n k
derived_id parent dst n v k = linked_nodes-ids parent dst (write_at dst v n) k ∙ placed_id dst n v k
