-- ===== src/Libzero/Tests.antt =====
-- Runs of libzero/src/resource.rs, error.rs and accounting.rs on sample values.
use project_zero.Base.{[], ◌∷◌, ◌≡◌, ◌≢◌, refl, ok, err, none, All, panic}
use project_zero.Libzero.Error.{quota_exceeded, invalid_request, as_i64, from_i64}
use project_zero.Libzero.Error.Codes.{from_i64-as_i64}
use project_zero.Libzero.Accounting.{
  AccountingManager, charge, discharge, check_and_charge_quota, with_domain,
}
use project_zero.Libzero.Accounting
use project_zero.Libzero.Accounting.Quota.{ShapedQuota, check_and_charge_quota-ShapedQuota}
use project_zero.Libzero.Accounting.Domain.{admit_allocation, release_allocation}
use project_zero.Libzero.Accounting.Domain.Moves.{
  admit_allocation_lem, release_allocation_lem, released,
}
use project_zero.Libzero.Samples.{
  pair, pair-IsShaped, busy, busy-IsBalanced, limited, limited-ShapedQuota,
}

from_i64-as_i64_example : from_i64 (as_i64 quota_exceeded) ≡ quota_exceeded
from_i64-as_i64_example = from_i64-as_i64 quota_exceeded

abbrev rationed : AccountingManager
rationed = record Accounting.new { quotas = limited ∷ [] }

check_and_charge_quota_example :
    All ShapedQuota (check_and_charge_quota 5 (pair 2 2) rationed).1.quotas
    × ((check_and_charge_quota 5 (pair 2 2) rationed).0 ≢ panic)
check_and_charge_quota_example =
    check_and_charge_quota-ShapedQuota (pair 2 2) (pair-IsShaped 2 2) 5 rationed
      (limited-ShapedQuota, tt)

release_allocation_example : release_allocation (pair 1 1) busy ≡ (ok tt, released busy (pair 1 1))
release_allocation_example =
    release_allocation_lem busy busy-IsBalanced (pair 1 1) (pair-IsShaped 1 1)

admit_allocation_example : admit_allocation (pair 5 0) none busy ≡ (err invalid_request, busy)
admit_allocation_example =
    admit_allocation_lem busy busy-IsBalanced (pair 5 0) (pair-IsShaped 5 0) none refl
