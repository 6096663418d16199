-- ===== src/Libzero/LeaseEngine/Release.antt =====
-- `release_lease` of libzero/src/lease_engine.rs, and the calls that end a lease: they keep the
-- ledger and the count of leases.
use project_zero.Base.{
  ℕ, ◌-◌, Bool, ◌==◌, ◌&&◌, if◌then◌else◌, List, Option, none, some, Outcome, ok, err,
}
use project_zero.Libzero.Error.{ZeroError, not_found, generation_mismatch, invalid_request}
use project_zero.Libzero.Resource.{DistributedId, id_eq}
use project_zero.Libzero.Lease.{ResourceLease}
use project_zero.Libzero.Accounting.{AccountingManager}
use project_zero.Libzero.LeaseEngine.{LeaseEngine, is_active, release_slot, find_slot}
use project_zero.Libzero.LeaseEngine.Slots.{change_first}
use project_zero.Libzero.LeaseEngine.Invariant.{IsConsistent}
use project_zero.Libzero.LeaseEngine.Surrender.{given_back}

abbrev has_id : DistributedId → ResourceLease → Bool
has_id lease_id l = id_eq l.lease_id lease_id

-- What `release_lease` answers, by the first lease with the identifier.
abbrev pub release_answer : ℕ → Option ResourceLease → Outcome ZeroError (Unit {0})
release_answer gen none = err not_found
release_answer gen (some l) =
    if l.generation == gen
    then (if is_active l.state then ok tt else err invalid_request)
    else err generation_mismatch

-- What it leaves: without the lease and with its amount given back, or as it was.
abbrev pub after_release : DistributedId → ℕ → Option ResourceLease → LeaseEngine → LeaseEngine
after_release lease_id gen none s = s
after_release lease_id gen (some l) s =
    if l.generation == gen && is_active l.state
    then record {
      leases = change_first (has_id lease_id) (λ k. none) s.leases;
      lease_count = s.lease_count - 1;
      accounting = given_back l s.accounting;
    }
    else s

module _ (s : LeaseEngine) (v : IsConsistent s) (lease_id : DistributedId) (gen : ℕ) where
  abbrev looked : Outcome ZeroError (Unit {0}) × List (Option ResourceLease) × AccountingManager
  looked = find_slot (has_id lease_id) (release_slot gen) s.leases s.accounting
