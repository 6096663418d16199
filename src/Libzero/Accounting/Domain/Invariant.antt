-- ===== src/Libzero/Accounting/Domain/Invariant.antt =====
-- `AccountingDomain` of libzero/src/accounting.rs: the domains in balance, the domain that `new` makes
-- and the one that the loss of a provider leaves.
use project_zero.Base.{
  ℕ, ◌≤◌, ◌≡◌, refl, sym, subst, ap, ◌∙◌, true, false, List, arith, ok, replicate,
}
use project_zero.Libzero.Resource.{DimensionCapacityVector, DistributedId, empty}
use project_zero.Libzero.Resource.Vectors.{IsShaped, all_fit, ZeroFrom}
use project_zero.Libzero.Accounting.Domain.{
  AccountingDomain, assert_conservation, quarantine_on_provider_lost, conserved_dims, new,
}
use project_zero.Libzero.Accounting.Domain.Balance.{
  total, all_fit-total, conserved_dims-total, sweep-total, add_all-zero, zero-add_all,
  ZeroFrom-replicate,
}

-- The shares of a domain, added up.
abbrev pub shares : AccountingDomain → List ℕ
shares d =
    total d.avail_capacity.dimensions d.resv_capacity.dimensions d.alloc_capacity.dimensions
      d.unavail_capacity.dimensions

-- Vectors of the right shape, and available, reserved, allocated and unavailable capacity that make
-- up the physical one in all eight places, which are u64.
pub record IsBalanced (d : AccountingDomain) : Type 0 where
  pub phys_shaped : IsShaped d.phys_capacity
  pub avail_shaped : IsShaped d.avail_capacity
  pub resv_shaped : IsShaped d.resv_capacity
  pub alloc_shaped : IsShaped d.alloc_capacity
  pub unavail_shaped : IsShaped d.unavail_capacity
  pub balanced : shares d ≡ d.phys_capacity.dimensions
  pub fits : all_fit d.phys_capacity.dimensions ≡ true

-- The assertion that every operation ends with holds of a balanced domain.
pub assert_conservation-ok : (d : AccountingDomain) → IsBalanced d → assert_conservation d ≡ ok tt
unfolding assert_conservation
assert_conservation-ok d v =
    let held : conserved_dims d.phys_capacity.dimension_count d.avail_capacity.dimensions
          d.resv_capacity.dimensions d.alloc_capacity.dimensions d.unavail_capacity.dimensions
          (shares d)
        ≡ ok tt =
      conserved_dims-total d.phys_capacity.dimension_count d.avail_capacity.dimensions
        d.resv_capacity.dimensions d.alloc_capacity.dimensions d.unavail_capacity.dimensions
        (omega arith) (omega arith) (omega arith) (omega arith) (ap all_fit v.balanced ∙ v.fits) in
    rw v.balanced at held

-- Each share of a balanced domain fits.
pub all_fit_shares :
    (d : AccountingDomain)
    → IsBalanced d
    → (all_fit d.avail_capacity.dimensions ≡ true)
      × (all_fit d.resv_capacity.dimensions ≡ true)
      × (all_fit d.alloc_capacity.dimensions ≡ true)
      × (all_fit d.unavail_capacity.dimensions ≡ true)
all_fit_shares d v =
    all_fit-total d.avail_capacity.dimensions d.resv_capacity.dimensions d.alloc_capacity.dimensions
      d.unavail_capacity.dimensions (omega arith) (omega arith) (omega arith)
      (ap all_fit v.balanced ∙ v.fits)

-- A share that holds nothing.
abbrev nothing : ℕ → DimensionCapacityVector
nothing count = record { dimensions = replicate 8 0; dimension_count = count }

pub nothing-IsShaped : (count : ℕ) → count ≤ 8 → IsShaped (nothing count)
nothing-IsShaped count h = record { long = refl; counted = h; clear = ZeroFrom-replicate count 8 }

-- The domain that `new` makes.
abbrev pub fresh : DistributedId → DimensionCapacityVector → AccountingDomain
fresh id phys = record {
  resource_id = id;
  phys_capacity = phys;
  avail_capacity = phys;
  resv_capacity = nothing 0;
  alloc_capacity = nothing 0;
  unavail_capacity = nothing 0;
  writer_locked = false;
}

pub fresh-IsBalanced :
    (id : DistributedId) (phys : DimensionCapacityVector)
    → IsShaped phys
    → all_fit phys.dimensions ≡ true
    → IsBalanced (fresh id phys)
fresh-IsBalanced id phys s f = record {
  phys_shaped = s;
  avail_shaped = s;
  resv_shaped = nothing-IsShaped 0 (omega arith);
  alloc_shaped = nothing-IsShaped 0 (omega arith);
  unavail_shaped = nothing-IsShaped 0 (omega arith);
  balanced = rw (
    add_all-zero phys.dimensions 8 s.long,
    add_all-zero phys.dimensions 8 s.long,
    add_all-zero phys.dimensions 8 s.long,
  );
  fits = f;
}

-- A new domain over a shaped vector of u64 has all of it available, and is in balance.
pub new-IsBalanced :
    (id : DistributedId) (phys : DimensionCapacityVector)
    → IsShaped phys
    → all_fit phys.dimensions ≡ true
    → (new id phys ≡ ok (fresh id phys)) × IsBalanced (fresh id phys)
unfolding new empty
new-IsBalanced id phys s f = (
  ground (arith, assert_conservation-ok (fresh id phys) (fresh-IsBalanced id phys s f)),
  fresh-IsBalanced id phys s f,
)

-- The domain after the loss of its provider: all capacity unavailable.
abbrev pub lost : AccountingDomain → AccountingDomain
lost d = record d {
  avail_capacity = nothing d.phys_capacity.dimension_count;
  resv_capacity = nothing d.phys_capacity.dimension_count;
  alloc_capacity = nothing d.phys_capacity.dimension_count;
  unavail_capacity = d.phys_capacity;
}

pub lost-IsBalanced : (d : AccountingDomain) → IsBalanced d → IsBalanced (lost d)
lost-IsBalanced d v = record {
  phys_shaped = v.phys_shaped;
  avail_shaped = nothing-IsShaped _ v.phys_shaped.counted;
  resv_shaped = nothing-IsShaped _ v.phys_shaped.counted;
  alloc_shaped = nothing-IsShaped _ v.phys_shaped.counted;
  unavail_shaped = v.phys_shaped;
  balanced = zero-add_all d.phys_capacity.dimensions 8 v.phys_shaped.long;
  fits = v.fits;
}

-- The loss of the provider makes the whole physical capacity of a balanced domain unavailable, and
-- cannot fail.
pub quarantine_on_provider_lost_lem :
    (d : AccountingDomain) → IsBalanced d → quarantine_on_provider_lost d ≡ (ok tt, lost d)
unfolding quarantine_on_provider_lost
quarantine_on_provider_lost_lem d v = ground (
  arith,
  sweep-total d.phys_capacity.dimension_count d.avail_capacity.dimensions d.resv_capacity.dimensions
      d.alloc_capacity.dimensions d.unavail_capacity.dimensions (omega arith) (omega arith)
      (omega arith) (omega arith) (ap all_fit v.balanced ∙ v.fits)
      (subst (ZeroFrom d.phys_capacity.dimension_count) (sym v.balanced) v.phys_shaped.clear),
  assert_conservation-ok (lost d) (lost-IsBalanced d v),
)
