-- ===== src/Libzero/Accounting/Domain.antt =====
-- `AccountingDomain` of libzero/src/accounting.rs: how the capacity of one resource is divided. A
-- method on `&mut self` returns its outcome with the domain that it leaves, also where it fails.
pub mod Balance
pub mod Invariant
pub mod Moves
use project_zero.Base.{
  ℕ, zero, suc, Bool, true, false, not, List, [], ◌∷◌, Option, none, some, Outcome, ok, err, panic,
  ltb, ◌==◌, if◌then◌else◌,
}
use project_zero.Base.Results
use project_zero.Base.Method.{Method, ◌>>=◌, ◌>>◌, lift, get, modify, fail}
use project_zero.Base.Words.{checked_add_u64}
use project_zero.Libzero.Error.{
  ZeroError, unsupported_resource_shape, vector_conservation_violated, would_block, invalid_request,
  coupling_violation,
}
use project_zero.Libzero.Resource.{
  DistributedId, DimensionCapacityVector, max_accounting_dimensions, empty, or_err, checked_add,
  checked_sub, le,
}
use project_zero.Libzero.Lease.{CouplingConstraintMatrix, is_feasible}

pub record AccountingDomain : Type 0 where
  pub resource_id : DistributedId
  pub phys_capacity : DimensionCapacityVector
  pub avail_capacity : DimensionCapacityVector
  pub resv_capacity : DimensionCapacityVector
  pub alloc_capacity : DimensionCapacityVector
  pub unavail_capacity : DimensionCapacityVector
  pub writer_locked : Bool

abbrev pub DomainMethod : Type 0
DomainMethod = Method AccountingDomain ZeroError (Unit {0})

-- `a.checked_add(b).and_then(+ c).and_then(+ d)`.
abbrev pub checked_sum : ℕ → ℕ → ℕ → ℕ → Option ℕ
checked_sum a b c d = elim (checked_add_u64 a b) [
  | none ↦ none
  | some v ↦ elim (checked_add_u64 v c) [ none ↦ none | some w ↦ checked_add_u64 w d ]
]

-- The loop of `assert_conservation`.
pub conserved_dims : ℕ → List ℕ → List ℕ → List ℕ → List ℕ → List ℕ → Outcome ZeroError (Unit {0})
conserved_dims zero avail resv alloc unavail phys = ok tt
conserved_dims (suc n) (a ∷ avail) (r ∷ resv) (l ∷ alloc) (u ∷ unavail) (p ∷ phys) =
    Results.◌>>=◌ (or_err (checked_sum a r l u) vector_conservation_violated) λ sum.
      Results.◌>>◌ (Results.guard (sum == p) vector_conservation_violated)
        (conserved_dims n avail resv alloc unavail phys)
conserved_dims (suc n) _ _ _ _ _ = panic

pub assert_conservation : AccountingDomain → Outcome ZeroError (Unit {0})
unfolding conserved_dims
assert_conservation d =
    conserved_dims d.phys_capacity.dimension_count d.avail_capacity.dimensions
      d.resv_capacity.dimensions d.alloc_capacity.dimensions d.unavail_capacity.dimensions
      d.phys_capacity.dimensions

pub new : DistributedId → DimensionCapacityVector → Outcome ZeroError AccountingDomain
new resource_id phys =
    if ltb max_accounting_dimensions phys.dimension_count
    then err unsupported_resource_shape
    else Results.◌>>◌ (assert_conservation domain) (ok domain)
  where
    domain : AccountingDomain
    domain = record {
      resource_id = resource_id;
      phys_capacity = phys;
      avail_capacity = phys;
      resv_capacity = empty;
      alloc_capacity = empty;
      unavail_capacity = empty;
      writer_locked = false;
    }

-- `if let Some(mat) = coupling { if !mat.is_feasible(&new_alloc) { return Err(..) } }`.
unfoldable pub check_coupling :
    Option CouplingConstraintMatrix → DimensionCapacityVector → Outcome ZeroError (Unit {0})
check_coupling none new_alloc = ok tt
check_coupling (some mat) new_alloc =
    Results.◌>>=◌ (is_feasible mat new_alloc) λ holds. Results.guard holds coupling_violation

admit_allocation_inner : DimensionCapacityVector → Option CouplingConstraintMatrix → DomainMethod
admit_allocation_inner requested coupling = do
  d ← get
  fits ← lift (le requested d.avail_capacity)
  lift (Results.guard fits invalid_request)
  new_alloc ← lift (checked_add d.alloc_capacity requested)
  lift (check_coupling coupling new_alloc)
  new_avail ← lift (checked_sub d.avail_capacity requested)
  modify (λ s. record s { avail_capacity = new_avail; alloc_capacity = new_alloc })
  s ← get
  lift (assert_conservation s)

pub admit_allocation : DimensionCapacityVector → Option CouplingConstraintMatrix → DomainMethod
unfolding admit_allocation_inner
admit_allocation requested coupling d =
    if d.writer_locked
    then (err would_block, d)
    else let (res, s) =
        admit_allocation_inner requested coupling (record d { writer_locked = true }) in
      (res, record s { writer_locked = false })

-- The last call of the methods below: `self.assert_conservation()`.
abbrev checked : DomainMethod
checked = get >>= λ s. lift (assert_conservation s)

-- Voluntary release: allocated to available.
pub release_allocation : DimensionCapacityVector → DomainMethod
release_allocation amount = do
  d ← get
  alloc ← lift (checked_sub d.alloc_capacity amount)
  modify (λ s. record s { alloc_capacity = alloc })
  avail ← lift (checked_add d.avail_capacity amount)
  modify (λ s. record s { avail_capacity = avail })
  checked

-- Quarantine: allocated to unavailable.
pub quarantine_allocation : DimensionCapacityVector → DomainMethod
quarantine_allocation amount = do
  d ← get
  alloc ← lift (checked_sub d.alloc_capacity amount)
  modify (λ s. record s { alloc_capacity = alloc })
  unavail ← lift (checked_add d.unavail_capacity amount)
  modify (λ s. record s { unavail_capacity = unavail })
  checked

-- Driver confirmation: unavailable to available.
pub confirm_physical_release : DimensionCapacityVector → DomainMethod
confirm_physical_release amount = do
  d ← get
  unavail ← lift (checked_sub d.unavail_capacity amount)
  modify (λ s. record s { unavail_capacity = unavail })
  avail ← lift (checked_add d.avail_capacity amount)
  modify (λ s. record s { avail_capacity = avail })
  checked

-- Reservation: available to reserved.
pub reserve_capacity : DimensionCapacityVector → DomainMethod
reserve_capacity amount = do
  d ← get
  avail ← lift (checked_sub d.avail_capacity amount)
  modify (λ s. record s { avail_capacity = avail })
  resv ← lift (checked_add d.resv_capacity amount)
  modify (λ s. record s { resv_capacity = resv })
  checked

-- What the loop of `quarantine_on_provider_lost` leaves: a failing round leaves the later places.
pub record Swept : Type 0 where
  pub outcome : Outcome ZeroError (Unit {0})
  pub avail : List ℕ
  pub resv : List ℕ
  pub alloc : List ℕ
  pub unavail : List ℕ

pub sweep : ℕ → List ℕ → List ℕ → List ℕ → List ℕ → Swept
sweep zero avail resv alloc unavail = record {
  outcome = ok tt;
  avail = avail;
  resv = resv;
  alloc = alloc;
  unavail = unavail;
}
sweep (suc n) (a ∷ avail) (r ∷ resv) (l ∷ alloc) (u ∷ unavail) =
    let rest = sweep n avail resv alloc unavail in
    elim (checked_sum u a r l) [
      | none ↦ record {
        outcome = err vector_conservation_violated;
        avail = a ∷ avail;
        resv = r ∷ resv;
        alloc = l ∷ alloc;
        unavail = u ∷ unavail;
      }
      | some total ↦ record {
        outcome = rest.outcome;
        avail = 0 ∷ rest.avail;
        resv = 0 ∷ rest.resv;
        alloc = 0 ∷ rest.alloc;
        unavail = total ∷ rest.unavail;
      }
    ]
sweep (suc n) avail resv alloc unavail = record {
  outcome = panic;
  avail = avail;
  resv = resv;
  alloc = alloc;
  unavail = unavail;
}

sweep_domain : DomainMethod
unfolding sweep
sweep_domain d = (
  swept.outcome,
  record d {
    avail_capacity = record d.avail_capacity { dimensions = swept.avail };
    resv_capacity = record d.resv_capacity { dimensions = swept.resv };
    alloc_capacity = record d.alloc_capacity { dimensions = swept.alloc };
    unavail_capacity = record d.unavail_capacity { dimensions = swept.unavail };
  },
)
  where
    swept : Swept
    swept =
        sweep d.phys_capacity.dimension_count d.avail_capacity.dimensions d.resv_capacity.dimensions
          d.alloc_capacity.dimensions d.unavail_capacity.dimensions

-- The four counts become that of the physical capacity.
recount : AccountingDomain → AccountingDomain
recount d = record d {
  avail_capacity = record d.avail_capacity { dimension_count = count };
  resv_capacity = record d.resv_capacity { dimension_count = count };
  alloc_capacity = record d.alloc_capacity { dimension_count = count };
  unavail_capacity = record d.unavail_capacity { dimension_count = count };
}
  where
    count : ℕ
    count = d.phys_capacity.dimension_count

pub quarantine_on_provider_lost : DomainMethod
unfolding sweep_domain recount
quarantine_on_provider_lost = do sweep_domain; modify recount; checked
