-- ===== src/Libzero/Samples.antt =====
-- Sample values for the tests of the modules below Libzero: capacity vectors, a domain, quotas.
use project_zero.Base.{ℕ, [], ◌∷◌, refl, true, false, arith}
use project_zero.Libzero.Resource.{DistributedId, DimensionCapacityVector}
use project_zero.Libzero.Resource.Vectors.{IsShaped}
use project_zero.Libzero.Accounting.{EntityQuota}
use project_zero.Libzero.Accounting.Quota.{ShapedQuota}
use project_zero.Libzero.Accounting.Domain.{AccountingDomain}
use project_zero.Libzero.Accounting.Domain.Invariant.{IsBalanced}

-- A vector with two dimensions.
abbrev pub pair : ℕ → ℕ → DimensionCapacityVector
pair x y = record { dimensions = x ∷ y ∷ 0 ∷ 0 ∷ 0 ∷ 0 ∷ 0 ∷ 0 ∷ []; dimension_count = 2 }

pub pair-IsShaped : (x y : ℕ) → IsShaped (pair x y)
pair-IsShaped x y = record { long = refl; counted = ground arith; clear = ground arith }

abbrev pub disk : DistributedId
disk = record { node_id = 1; local_seq = 7 }

-- A domain with shares in each state.
abbrev pub busy : AccountingDomain
busy = record {
  resource_id = disk;
  phys_capacity = pair 10 20;
  avail_capacity = pair 4 10;
  resv_capacity = pair 1 2;
  alloc_capacity = pair 3 5;
  unavail_capacity = pair 2 3;
  writer_locked = false;
}

pub busy-IsBalanced : IsBalanced busy
busy-IsBalanced = record {
  phys_shaped = pair-IsShaped 10 20;
  avail_shaped = pair-IsShaped 4 10;
  resv_shaped = pair-IsShaped 1 2;
  alloc_shaped = pair-IsShaped 3 5;
  unavail_shaped = pair-IsShaped 2 3;
  balanced = refl;
  fits = refl;
}

abbrev pub limited : EntityQuota
limited = record { entity_id = 5; max_capacity = pair 8 8; used_capacity = pair 3 2; active = true }

pub limited-ShapedQuota : ShapedQuota limited
limited-ShapedQuota = record { max_shaped = pair-IsShaped 8 8; used_shaped = pair-IsShaped 3 2 }
