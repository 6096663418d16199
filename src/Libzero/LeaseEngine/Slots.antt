-- ===== src/Libzero/LeaseEngine/Slots.antt =====
-- The lease table of libzero/src/lease_engine.rs: the loops over its slots, and the capacity that
-- the active leases on a resource hold.
use project_zero.Base.{
  zero, suc, ℕ, ◌≡◌, refl, sym, ap, ◌∙◌, Bool, true, ◌&&◌, List, [], ◌∷◌, ◌++◌, Option, none, some,
  arith, All, length, if◌then◌else◌, Bool-cases, inl, inr, ◌⊎◌, ◌↔◌, Outcome, err, replicate,
}
use project_zero.Libzero.Error.{ZeroError, not_found}
use project_zero.Libzero.Resource.{DistributedId, id_eq}
use project_zero.Libzero.Resource.Vectors.{IsShaped, add_all, sub_all, all_le, length-add_all}
use project_zero.Libzero.Lease.{ResourceLease}
use project_zero.Libzero.Accounting.{AccountingManager}
use project_zero.Libzero.LeaseEngine.{is_active, find_slot}

-- A table, taken apart at the slot that a loop over it stops at.
pub record Split (slots : List (Option ResourceLease)) : Type 0 where
  pub before : List (Option ResourceLease)
  pub lease : ResourceLease
  pub after : List (Option ResourceLease)
  pub whole : slots ≡ before ++ (some lease ∷ after)

-- The first lease that passes a test.
pub first_lease : (ResourceLease → Bool) → List (Option ResourceLease) → Option ResourceLease
first_lease test [] = none
first_lease test (none ∷ slots) = first_lease test slots
first_lease test (some l ∷ slots) =
    let rest = first_lease test slots in if test l then some l else rest

-- The table with the slot of the first lease that passes a test changed.
pub change_first :
    (ResourceLease → Bool)
    → (ResourceLease → Option ResourceLease)
    → List (Option ResourceLease)
    → List (Option ResourceLease)
change_first test change [] = []
change_first test change (none ∷ slots) = none ∷ change_first test change slots
change_first test change (some l ∷ slots) =
    let rest = change_first test change slots in if test l then change l ∷ slots else some l ∷ rest

module _ {B : Type 0} (test : ResourceLease → Bool)
    (body : ResourceLease
      → AccountingManager
      → Outcome ZeroError B × Option ResourceLease × AccountingManager) where
  -- The loop finds no lease that passes and changes nothing, or it changes the slot of the first
  -- lease that passes, by its body: the slot that `change_first` changes.
  pub find_slot-Split :
      (slots : List (Option ResourceLease)) (m : AccountingManager)
      → ((first_lease test slots ≡ none)
          × (find_slot test body slots m ≡ (err not_found, slots, m))
          × ((f : ResourceLease → Option ResourceLease) → change_first test f slots ≡ slots))
        ⊎ ((p : Split slots) × (first_lease test slots ≡ some p.lease)
            × (find_slot test body slots m ≡ (
              (body p.lease m).0,
              p.before ++ ((body p.lease m).1 ∷ p.after),
              (body p.lease m).2,
            ))
            × ((f : ResourceLease → Option ResourceLease)
                → change_first test f slots ≡ p.before ++ (f p.lease ∷ p.after)))
  unfolding find_slot first_lease change_first
  find_slot-Split [] m = inl (refl, refl, λ g. refl)
  find_slot-Split (none ∷ slots) m = elim (find_slot-Split slots m) [
    | inl (f, e, u) ↦ inl (f, rw e, λ g. ap (◌∷◌ none) (u g))
    | inr (p, f, e, u) ↦ inr (
      record {
        before = none ∷ p.before;
        lease = p.lease;
        after = p.after;
        whole = ap (◌∷◌ none) p.whole;
      },
      f,
      rw e,
      λ g. ap (◌∷◌ none) (u g),
    )
  ]
  find_slot-Split (some l ∷ slots) m = elim (Bool-cases (test l)) [
    | inl t ↦
        inr (
          record { before = []; lease = l; after = slots; whole = refl },
          rw t,
          rw t,
          λ g. rw t refl,
        )
    | inr t ↦ elim (find_slot-Split slots m) [
      | inl (f, e, u) ↦ inl (rw t f, rw (t, e), λ g. rw t (ap (◌∷◌ (some l)) (u g)))
      | inr (p, f, e, u) ↦ inr (
        record {
          before = some l ∷ p.before;
          lease = p.lease;
          after = p.after;
          whole = ap (◌∷◌ (some l)) p.whole;
        },
        rw t f,
        rw (t, e),
        λ g. rw t (ap (◌∷◌ (some l)) (u g)),
      )
    ]
  ]

abbrev pub zeros8 : List ℕ
zeros8 = replicate 8 0

-- What a slot holds of a resource, and what the table holds.
unfoldable pub slot_sum : DistributedId → Option ResourceLease → List ℕ
slot_sum id none = zeros8
slot_sum id (some l) =
    if id_eq l.resource_id id && is_active l.state then l.allocated_capacity.dimensions else zeros8

unfoldable pub active_sum : DistributedId → List (Option ResourceLease) → List ℕ
active_sum id [] = zeros8
active_sum id (x ∷ xs) = add_all (slot_sum id x) (active_sum id xs)

abbrev pub ShapedSlot : Option ResourceLease → Type 0
ShapedSlot none = Unit
ShapedSlot (some l) = IsShaped l.allocated_capacity

pub add_all_comm : (xs ys : List ℕ) → add_all xs ys ≡ add_all ys xs
add_all_comm [] [] = refl
add_all_comm [] (y ∷ ys) = refl
add_all_comm (x ∷ xs) [] = refl
add_all_comm (x ∷ xs) (y ∷ ys) = ground (arith, add_all_comm xs ys)

pub add_all_assoc : (xs ys zs : List ℕ) → add_all (add_all xs ys) zs ≡ add_all xs (add_all ys zs)
add_all_assoc [] ys zs = refl
add_all_assoc (x ∷ xs) [] zs = refl
add_all_assoc (x ∷ xs) (y ∷ ys) [] = refl
add_all_assoc (x ∷ xs) (y ∷ ys) (z ∷ zs) = ground (arith, add_all_assoc xs ys zs)

add_all_left_comm : (xs ys zs : List ℕ) → add_all xs (add_all ys zs) ≡ add_all ys (add_all xs zs)
add_all_left_comm xs ys zs =
    sym (add_all_assoc xs ys zs)
    ∙ ap (λ w. add_all w zs) (add_all_comm xs ys)
    ∙ add_all_assoc ys xs zs

-- Taking away what was added.
pub sub_all-add_all : (q xs : List ℕ) → length q ≡ length xs → sub_all (add_all q xs) q ≡ xs
sub_all-add_all [] [] l = refl
sub_all-add_all [] (x ∷ xs) l = absurd (omega arith)
sub_all-add_all (y ∷ q) [] l = absurd (omega arith)
sub_all-add_all (y ∷ q) (x ∷ xs) l = ground (arith, sub_all-add_all q xs)

pub all_le-add_all : (q xs : List ℕ) → all_le q (add_all q xs) ≡ true
all_le-add_all [] xs = refl
all_le-add_all (y ∷ q) [] = refl
all_le-add_all (y ∷ q) (x ∷ xs) = ground (arith, all_le-add_all q xs)

-- A slot in the middle counts like the first.
pub active_sum-middle :
    (id : DistributedId) (xs : List (Option ResourceLease)) (x : Option ResourceLease)
    (ys : List (Option ResourceLease))
    → active_sum id (xs ++ (x ∷ ys)) ≡ add_all (slot_sum id x) (active_sum id (xs ++ ys))
unfolding active_sum
active_sum-middle id [] x ys = refl
active_sum-middle id (z ∷ xs) x ys =
    ap (add_all (slot_sum id z)) (active_sum-middle id xs x ys)
    ∙ add_all_left_comm (slot_sum id z) (slot_sum id x) (active_sum id (xs ++ ys))

length-slot_sum :
    (id : DistributedId) (x : Option ResourceLease) → ShapedSlot x → length (slot_sum id x) ≡ 8
unfolding slot_sum
length-slot_sum id none s = refl
length-slot_sum id (some l) s = ground (arith, s.long)

pub length-active_sum :
    (id : DistributedId) (xs : List (Option ResourceLease))
    → All ShapedSlot xs
    → length (active_sum id xs) ≡ 8
unfolding active_sum
length-active_sum id [] s = refl
length-active_sum id (x ∷ xs) s = omega (
  arith,
  length-add_all (slot_sum id x) (active_sum id xs),
  length-slot_sum id x s.0,
  length-active_sum id xs s.1,
)

pub All-append {κ} :
    {A : Type 0} (P : A → Type κ) (xs ys : List A) → All P (xs ++ ys) ↔ (All P xs × All P ys)
All-append P [] ys = (λ h. (tt, h), λ h. h.1)
All-append P (x ∷ xs) ys = (
  λ h. ((h.0, ((All-append P xs ys).0 h.1).0), ((All-append P xs ys).0 h.1).1),
  λ h. (h.0.0, (All-append P xs ys).1 (h.0.1, h.1)),
)

-- Free slots hold nothing.
pub active_sum-idle : (id : DistributedId) (n : ℕ) → active_sum id (replicate n none) ≡ zeros8
unfolding active_sum slot_sum
active_sum-idle id zero = refl
active_sum-idle id (suc n) = ap (add_all zeros8) (active_sum-idle id n)
