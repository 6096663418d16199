-- ===== src/Libzero/LeaseEngine/Ledger.antt =====
-- The ledger of libzero/src/lease_engine.rs and accounting.rs: what the domains have allocated is
-- what the active leases hold. How one slot and one domain change together.
use project_zero.Base.{
  ℕ, zero, suc, ◌≡◌, refl, sym, ap, ◌∙◌, true, List, [], ◌∷◌, ◌++◌, Option, none, some, arith, All,
  length, if◌then◌else◌, Option-cases, inl, inr, ◌⊎◌, ok, replicate,
}
use project_zero.Libzero.Resource.{DistributedId, DimensionCapacityVector, id_eq}
use project_zero.Libzero.Resource.Vectors.{add_all, sub_all, all_le}
use project_zero.Libzero.Lease.{ResourceLease}
use project_zero.Libzero.Accounting.{AccountingManager, with_domain}
use project_zero.Libzero.Accounting.Domain.{AccountingDomain, DomainMethod}
use project_zero.Libzero.Accounting.Domain.Balance.{zero-add_all}
use project_zero.Libzero.Accounting.Lookup.{
  IsSound, Ready, find_domain, replace_domain, with_domain_lem, find_domain-Ready,
  replace_domain-IsSound, find-replace_domain, id_eq_sound, id_eq_refl,
}
use project_zero.Libzero.LeaseEngine.{is_active}
use project_zero.Libzero.LeaseEngine.Slots.{
  zeros8, slot_sum, active_sum, ShapedSlot, active_sum-middle, length-active_sum, sub_all-add_all,
  all_le-add_all, All-append,
}

-- The capacity that the domain of a resource has allocated.
abbrev pub alloc_of : DistributedId → AccountingManager → List ℕ
alloc_of id m = elim (find_domain id m) [ none ↦ zeros8 | some d ↦ d.alloc_capacity.dimensions ]

-- Sound domains, leases of the right shape, and for every resource the allocated capacity is the
-- sum over its active leases.
pub record IsLedger (slots : List (Option ResourceLease)) (m : AccountingManager) : Type 0 where
  pub sound : IsSound m
  pub shaped : All ShapedSlot slots
  pub matched : (id : DistributedId) → alloc_of id m ≡ active_sum id slots

pub alloc_of-replace_domain :
    (id other : DistributedId) (d e : AccountingDomain) (m : AccountingManager)
    → e.resource_id ≡ id
    → find_domain id m ≡ some d
    → alloc_of other (replace_domain id e m)
      ≡ (if id_eq id other then e.alloc_capacity.dimensions else alloc_of other m)
alloc_of-replace_domain id other d e m p h = ground (arith, find-replace_domain id other d e m p h)

-- A domain call that takes an amount out of the allocated share of a domain that holds it.
pub record TakesOut (call : DomainMethod) (q : DimensionCapacityVector) : Type 0 where
  pub takes :
      (d : AccountingDomain)
      → Ready d
      → all_le q.dimensions d.alloc_capacity.dimensions ≡ true
      → ((call d).0 ≡ ok tt)
        × Ready (call d).1
        × ((call d).1.resource_id ≡ d.resource_id)
        × ((call d).1.alloc_capacity.dimensions ≡ sub_all d.alloc_capacity.dimensions q.dimensions)

zero-sub : (n : ℕ) (q : List ℕ) → length q ≡ n → sub_all (replicate n 0) q ≡ replicate n 0
zero-sub zero q l = refl
zero-sub (suc n) [] l = absurd (omega arith)
zero-sub (suc n) (x ∷ q) l = ground (arith, zero-sub n q)

pub zero-add : (xs : List ℕ) → length xs ≡ 8 → add_all zeros8 xs ≡ xs
zero-add xs l = zero-add_all xs 8 l

module _ (xs ys : List (Option ResourceLease)) (l : ResourceLease) (x : Option ResourceLease)
    (m : AccountingManager) (v : IsLedger (xs ++ (some l ∷ ys)) m) (live : is_active l.state ≡ true)
    (s : ShapedSlot x) (idle : (id : DistributedId) → slot_sum id x ≡ zeros8) where
  rest_sum : DistributedId → List ℕ
  rest_sum id = active_sum id (xs ++ ys)

  rest_shaped : All ShapedSlot (xs ++ ys) × ShapedSlot (some l) × All ShapedSlot (xs ++ (x ∷ ys))
  rest_shaped =
      let (p, q) = (All-append ShapedSlot xs (some l ∷ ys)).0 v.shaped in
      (
        (All-append ShapedSlot xs ys).1 (p, q.1),
        q.0,
        (All-append ShapedSlot xs (x ∷ ys)).1 (p, (s, q.1)),
      )

  -- The sums before, and after the slot has become idle.
  sum_before :
      (id : DistributedId)
      → alloc_of id m ≡ (
          if id_eq l.resource_id id
          then add_all l.allocated_capacity.dimensions (rest_sum id)
          else rest_sum id)
  unfolding rest_sum slot_sum
  sum_before id = ground (
    arith,
    v.matched id,
    active_sum-middle id xs (some l) ys,
    zero-add (active_sum id (xs ++ ys)) (length-active_sum id (xs ++ ys) rest_shaped.0),
  )

  sum_after : (id : DistributedId) → active_sum id (xs ++ (x ∷ ys)) ≡ rest_sum id
  unfolding rest_sum
  sum_after id =
      active_sum-middle id xs x ys
      ∙ ap (λ w. add_all w (active_sum id (xs ++ ys))) (idle id)
      ∙ zero-add (active_sum id (xs ++ ys)) (length-active_sum id (xs ++ ys) rest_shaped.0)

  length-rest_sum : (id : DistributedId) → length (rest_sum id) ≡ 8
  unfolding rest_sum
  length-rest_sum id = length-active_sum id (xs ++ ys) rest_shaped.0

  sum_of_holder :
      alloc_of l.resource_id m ≡ add_all l.allocated_capacity.dimensions (rest_sum l.resource_id)
  sum_of_holder = ground (arith, sum_before l.resource_id, id_eq_refl l.resource_id)

  -- With no domain for the resource, the lease holds nothing.
  nothing_held :
      find_domain l.resource_id m ≡ none → (id : DistributedId) → alloc_of id m ≡ rest_sum id
  nothing_held e id = ground (
    arith,
    sum_before id,
    sum_of_holder,
    id_eq_sound l.resource_id id,
    sub_all-add_all l.allocated_capacity.dimensions (rest_sum l.resource_id)
        (omega (arith, rest_shaped.1.long, length-rest_sum l.resource_id)),
    zero-sub 8 l.allocated_capacity.dimensions rest_shaped.1.long,
  )

  -- The domain of an active lease has its amount allocated.
  pub held :
      (d : AccountingDomain)
      → find_domain l.resource_id m ≡ some d
      → all_le l.allocated_capacity.dimensions d.alloc_capacity.dimensions ≡ true
  held d e = ground (
    arith,
    sum_of_holder,
    all_le-add_all l.allocated_capacity.dimensions (rest_sum l.resource_id),
  )

  moved :
      (d d' : AccountingDomain)
      → find_domain l.resource_id m ≡ some d
      → d'.resource_id ≡ l.resource_id
      → d'.alloc_capacity.dimensions
        ≡ sub_all d.alloc_capacity.dimensions l.allocated_capacity.dimensions
      → (id : DistributedId) → alloc_of id (replace_domain l.resource_id d' m) ≡ rest_sum id
  moved d d' e named taken id = ground (
    arith,
    alloc_of-replace_domain l.resource_id id d d' m named e,
    sum_before id,
    sum_of_holder,
    id_eq_sound l.resource_id id,
    sub_all-add_all l.allocated_capacity.dimensions (rest_sum l.resource_id)
        (omega (arith, rest_shaped.1.long, length-rest_sum l.resource_id)),
  )

  -- Where an active lease ends as its domain gives its amount back, the ledger stays right. The call
  -- succeeds, if there is such a domain.
  pub drain :
      (call : DomainMethod)
      → TakesOut call l.allocated_capacity
      → (((with_domain l.resource_id call m).0 ≡ none)
          ⊎ ((with_domain l.resource_id call m).0 ≡ some (ok tt)))
        × IsLedger (xs ++ (x ∷ ys)) (with_domain l.resource_id call m).1
  drain call t = elim (Option-cases (find_domain l.resource_id m)) [
    | inl e ↦
        let gone : with_domain l.resource_id call m ≡ (none, m) =
          ground (arith, with_domain_lem l.resource_id call m v.sound) in
        rw gone (
          inl refl,
          record {
            sound = v.sound;
            shaped = rest_shaped.2;
            matched = λ id. nothing_held e id ∙ sym (sum_after id);
          },
        )
    | inr (d, e) ↦
        let (r, same) = find_domain-Ready l.resource_id m d v.sound e in
        let (done, ready, named, taken) = t.takes d r (held d e) in
        let went : with_domain l.resource_id call m
            ≡ (some (ok tt), replace_domain l.resource_id (call d).1 m) =
          ground (arith, with_domain_lem l.resource_id call m v.sound) in
        rw went (
          inr refl,
          record {
            sound = replace_domain-IsSound l.resource_id (call d).1 m v.sound ready;
            shaped = rest_shaped.2;
            matched = λ id. moved d (call d).1 e (named ∙ same) taken id ∙ sym (sum_after id);
          },
        )
  ]
