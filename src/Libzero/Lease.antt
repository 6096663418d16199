-- ===== src/Libzero/Lease.antt =====
-- libzero/src/lease.rs: the lease token and the coupling constraints on capacity. The row loop and
-- the column loop of `is_feasible` are `rows_hold` and `row_sum`; an index beyond an array panics.
use project_zero.Base.{
  ℕ, zero, suc, ◌+◌, Bool, true, false, List, ◌∷◌, Outcome, ok, err, panic, leb, if◌then◌else◌,
  replicate, set,
}
use project_zero.Base.Results.{◌>>=◌}
use project_zero.Base.Int.{ℤ, pos, ◌+ℤ◌, ◌*ℤ◌, ltb_ℤ}
use project_zero.Base.Words.{saturate_i64, as_i64}
use project_zero.Libzero.Error.{ZeroError, dimension_limit_exceeded}
use project_zero.Libzero.Resource.{
  DistributedId, DimensionCapacityVector, max_accounting_dimensions,
}

abbrev pub max_leases_per_node : ℕ
max_leases_per_node = 256

abbrev pub max_quota_entities : ℕ
max_quota_entities = 32

pub data LeaseState : Type 0 where
  active expired time_authority_lost provider_lost released : LeaseState

pub record ResourceLease : Type 0 where
  pub lease_id : DistributedId
  pub resource_id : DistributedId
  pub generation : ℕ  -- u32
  pub state : LeaseState
  pub allocated_capacity : DimensionCapacityVector
  pub granted_tick : ℕ  -- u64
  pub expiration_tick : ℕ  -- u64
  pub holder_entity_id : ℕ  -- u64
  pub client_channel_handle : ℕ  -- u32

-- A * C <= b, row by row.
pub record CouplingConstraintMatrix : Type 0 where
  pub coefficients : List (List ℤ)  -- [[i32; 8]; 8]
  pub limits : List ℤ  -- [i64; 8]
  pub constraint_count : ℕ  -- u8

unfoldable pub no_constraints : CouplingConstraintMatrix
no_constraints = record {
  coefficients = replicate max_accounting_dimensions (replicate max_accounting_dimensions (pos 0));
  limits = replicate max_accounting_dimensions (pos 0);
  constraint_count = 0;
}

unfoldable pub add_constraint :
    CouplingConstraintMatrix → List ℤ → ℤ → Outcome ZeroError (Unit {0}) × CouplingConstraintMatrix
add_constraint m row limit =
    if leb max_accounting_dimensions m.constraint_count
    then (err dimension_limit_exceeded, m)
    else (
      ok tt,
      record m {
        coefficients = set m.coefficients m.constraint_count row;
        limits = set m.limits m.constraint_count limit;
        constraint_count = m.constraint_count + 1;
      },
    )

-- `sum = sum.saturating_add(coeff.saturating_mul(val))` over the columns.
unfoldable pub row_sum : ℕ → ℤ → List ℤ → List ℕ → Outcome ZeroError ℤ
row_sum zero sum row dims = ok sum
row_sum (suc n) sum (coeff ∷ row) (val ∷ dims) =
    row_sum n (saturate_i64 (sum +ℤ saturate_i64 (coeff *ℤ as_i64 val))) row dims
row_sum (suc n) sum _ _ = panic

unfoldable pub rows_hold :
    ℕ → List (List ℤ) → List ℤ → DimensionCapacityVector → Outcome ZeroError Bool
rows_hold zero rows limits cap = ok true
rows_hold (suc n) (row ∷ rows) (limit ∷ limits) cap = do
  let rest = rows_hold n rows limits cap
  sum ← row_sum cap.dimension_count (pos 0) row cap.dimensions
  if ltb_ℤ limit sum then ok false else rest
rows_hold (suc n) _ _ cap = panic

unfoldable pub is_feasible :
    CouplingConstraintMatrix → DimensionCapacityVector → Outcome ZeroError Bool
unfolding rows_hold
is_feasible m cap = rows_hold m.constraint_count m.coefficients m.limits cap
