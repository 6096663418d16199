-- ===== src/Libzero/LeaseEngine/Invariant.antt =====
-- The invariant of libzero/src/lease_engine.rs: the ledger is right and the leases are counted. The
-- domain calls that end a lease, and the calls that the ledger does not depend on.
use project_zero.Base.{
  replicate, zero, arith, ℕ, suc, ◌≡◌, ◌≢◌, refl, ap, List, [], ◌∷◌, ◌++◌, Option, none, some, All,
  panic,
}
use project_zero.Libzero.Resource.{DistributedId, DimensionCapacityVector}
use project_zero.Libzero.Resource.Vectors.{IsShaped}
use project_zero.Libzero.Lease.{ResourceLease}
use project_zero.Libzero.Accounting.Quota.{
  ShapedQuota, release_quota-ShapedQuota, check_and_charge_quota-ShapedQuota,
}
use project_zero.Libzero.Accounting.{
  AccountingManager, EntityQuota, release_quota, check_and_charge_quota, record_quarantine,
}
use project_zero.Libzero.Accounting.Domain.{release_allocation, quarantine_allocation}
use project_zero.Libzero.Accounting.Domain.Moves.{
  released-IsBalanced, quarantined-IsBalanced, release_allocation_lem, quarantine_allocation_lem,
}
use project_zero.Libzero.Accounting.Domain.{AccountingDomain}
use project_zero.Libzero.Accounting.Lookup.{
  Ready, find_domain, replace_domain, replace_domain-IsSound, id_eq_sound,
}
use project_zero.Libzero.LeaseEngine.{LeaseEngine}
use project_zero.Libzero.LeaseEngine.Ledger.{alloc_of-replace_domain, IsLedger, TakesOut}

module _ (q : DimensionCapacityVector) (s : IsShaped q) where
  pub release-TakesOut : TakesOut (release_allocation q) q
  release-TakesOut = record {
    takes = λ d r h.
        rw (release_allocation_lem d r.0 q s, h)
          (refl, (released-IsBalanced d r.0 q s h, r.1), refl, refl);
  }

  pub quarantine-TakesOut : TakesOut (quarantine_allocation q) q
  quarantine-TakesOut = record {
    takes = λ d r h.
        rw (quarantine_allocation_lem d r.0 q s, h)
          (refl, (quarantined-IsBalanced d r.0 q s h, r.1), refl, refl);
  }

-- The ledger does not depend on the quotas and the quarantine records.
module _ (slots : List (Option ResourceLease)) (m : AccountingManager) (v : IsLedger slots m) where
  pub quotas-IsLedger :
      (qs : List EntityQuota) → All ShapedQuota qs → IsLedger slots (record m { quotas = qs })
  quotas-IsLedger qs h = record {
    sound = record { counted = v.sound.counted; ready = v.sound.ready; quotas_shaped = h };
    shaped = v.shaped;
    matched = v.matched;
  }

  pub record_quarantine-IsLedger :
      (r i : DistributedId) (e : ℕ) (q : DimensionCapacityVector) (why : ℕ)
      → IsLedger slots (record_quarantine r i e q why m).1
  unfolding record_quarantine
  record_quarantine-IsLedger r i e q why = record {
    sound = record {
      counted = v.sound.counted;
      ready = v.sound.ready;
      quotas_shaped = v.sound.quotas_shaped;
    };
    shaped = v.shaped;
    matched = v.matched;
  }

  module _ (e : ℕ) (q : DimensionCapacityVector) (s : IsShaped q) where
    pub release_quota-IsLedger :
        IsLedger slots (release_quota e q m).1 × ((release_quota e q m).0 ≢ panic)
    unfolding release_quota
    release_quota-IsLedger =
        let (shaped, sure) = release_quota-ShapedQuota q s e m v.sound.quotas_shaped in
        (quotas-IsLedger _ shaped, sure)

    pub check_and_charge_quota-IsLedger :
        IsLedger slots (check_and_charge_quota e q m).1 × ((check_and_charge_quota e q m).0 ≢ panic)
    unfolding check_and_charge_quota
    check_and_charge_quota-IsLedger =
        let (shaped, sure) = check_and_charge_quota-ShapedQuota q s e m v.sound.quotas_shaped in
        (quotas-IsLedger _ shaped, sure)

-- The slots in use.
pub occupied : List (Option ResourceLease) → ℕ
occupied [] = 0
occupied (none ∷ xs) = occupied xs
occupied (some l ∷ xs) = suc (occupied xs)

pub occupied-middle :
    (xs ys : List (Option ResourceLease)) (l : ResourceLease)
    → occupied (xs ++ (some l ∷ ys)) ≡ suc (occupied (xs ++ ys))
unfolding occupied
occupied-middle [] ys l = refl
occupied-middle (none ∷ xs) ys l = occupied-middle xs ys l
occupied-middle (some k ∷ xs) ys l = ap suc (occupied-middle xs ys l)

pub occupied-gap :
    (xs ys : List (Option ResourceLease)) → occupied (xs ++ (none ∷ ys)) ≡ occupied (xs ++ ys)
unfolding occupied
occupied-gap [] ys = refl
occupied-gap (none ∷ xs) ys = occupied-gap xs ys
occupied-gap (some k ∷ xs) ys = ap suc (occupied-gap xs ys)

-- The ledger is right, and the engine counts the slots in use.
pub record IsConsistent (s : LeaseEngine) : Type 0 where
  pub ledger : IsLedger s.leases s.accounting
  pub counted : s.lease_count ≡ occupied s.leases

-- A change of a domain that leaves its allocated share alone keeps the engine consistent.
pub replaced :
    (s : LeaseEngine)
    → IsConsistent s
    → (id : DistributedId) (d d' : AccountingDomain) → find_domain id s.accounting ≡ some d
    → d'.resource_id ≡ id
    → Ready d'
    → d'.alloc_capacity.dimensions ≡ d.alloc_capacity.dimensions
    → IsConsistent (record s { accounting = replace_domain id d' s.accounting })
replaced s v id d d' e named r same = record {
  ledger = record {
    sound = replace_domain-IsSound id d' s.accounting v.ledger.sound r;
    shaped = v.ledger.shaped;
    matched = λ j. ground (
      arith,
      alloc_of-replace_domain id j d d' s.accounting named e,
      v.ledger.matched j,
      id_eq_sound id j,
    );
  };
  counted = v.counted;
}

pub occupied-idle : (n : ℕ) → occupied (replicate n none) ≡ 0
unfolding occupied
occupied-idle zero = refl
occupied-idle (suc n) = occupied-idle n
