-- ===== src/Libzero/Accounting.antt =====
-- libzero/src/accounting.rs: capacity accounting of a node. The tables are lists of fixed length;
-- `find_domain_mut` followed by a call on the domain is `with_domain`.
pub mod Domain
pub mod Quota
pub mod Lookup
use project_zero.Base.{
  ℕ, zero, suc, ◌+◌, Bool, true, false, not, ◌&&◌, List, [], ◌∷◌, Option, none, some, Outcome, ok,
  err, panic, leb, ◌==◌, if◌then◌else◌, length, set, replicate,
}
use project_zero.Base.Results
use project_zero.Base.Method.{Method, ◌>>=◌, ◌>>◌, lift, get, modify, fail, pure}
use project_zero.Base.Loops.{on_first}
use project_zero.Libzero.Error.{ZeroError, object_table_full, quota_exceeded}
use project_zero.Libzero.Resource.{
  DistributedId, DimensionCapacityVector, id_eq, empty, checked_add, checked_sub, le,
}
use Domain.{AccountingDomain, DomainMethod}

abbrev pub max_quarantine_records : ℕ
max_quarantine_records = 64

pub record EntityQuota : Type 0 where
  pub entity_id : ℕ  -- u64
  pub max_capacity : DimensionCapacityVector
  pub used_capacity : DimensionCapacityVector
  pub active : Bool

pub record QuarantineRecord : Type 0 where
  pub resource_id : DistributedId
  pub lease_id : DistributedId
  pub entity_id : ℕ  -- u64
  pub quarantined_capacity : DimensionCapacityVector
  pub reason : ℕ  -- u8: 1 TimeAuthorityLost, 2 ProviderLost, 3 PeerClosed
  pub active : Bool

pub record AccountingManager : Type 0 where
  pub domains : List AccountingDomain  -- [AccountingDomain; 64]
  pub domain_count : ℕ
  pub quotas : List EntityQuota  -- [EntityQuota; 32]
  pub quarantine_ledger : List QuarantineRecord  -- [QuarantineRecord; 64]

abbrev nil_id : DistributedId
nil_id = record { node_id = 0; local_seq = 0 }

unfoldable pub new : AccountingManager
unfolding empty
new = record {
  domains = replicate 64 (record {
    resource_id = nil_id;
    phys_capacity = empty;
    avail_capacity = empty;
    resv_capacity = empty;
    alloc_capacity = empty;
    unavail_capacity = empty;
    writer_locked = false;
  });
  domain_count = 0;
  quotas =
      replicate 32
        (record { entity_id = 0; max_capacity = empty; used_capacity = empty; active = false });
  quarantine_ledger = replicate max_quarantine_records (record {
    resource_id = nil_id;
    lease_id = nil_id;
    entity_id = 0;
    quarantined_capacity = empty;
    reason = 0;
    active = false;
  });
}

unfoldable pub register_domain :
    DistributedId
    → DimensionCapacityVector
    → AccountingManager
    → Outcome ZeroError ℕ × AccountingManager
register_domain resource_id phys m =
    if leb (length m.domains) m.domain_count
    then (err object_table_full, m)
    else elim (Domain.new resource_id phys) [
      | ok domain ↦ (
        ok m.domain_count,
        record m {
          domains = set m.domains m.domain_count domain;
          domain_count = m.domain_count + 1;
        },
      )
      | err e ↦ (err e, m)
      | panic ↦ (panic, m)
    ]

-- The loop of `find_domain_mut` over the first domains, and the call on the domain that it finds.
unfoldable pub with_first :
    ℕ
    → DistributedId
    → DomainMethod
    → List AccountingDomain
    → Option (Outcome ZeroError (Unit {0})) × List AccountingDomain
with_first zero id call ds = (none, ds)
with_first (suc n) id call [] = (some panic, [])
with_first (suc n) id call (d ∷ ds) =
    let rest = with_first n id call ds in
    if id_eq d.resource_id id then (some (call d).0, (call d).1 ∷ ds) else (rest.0, d ∷ rest.1)

-- `none` where no domain has the identifier.
unfoldable pub with_domain :
    DistributedId
    → DomainMethod
    → AccountingManager
    → Option (Outcome ZeroError (Unit {0})) × AccountingManager
with_domain id call m =
    let found = with_first m.domain_count id call m.domains in
    (found.0, record m { domains = found.1 })

abbrev pub has_entity : ℕ → EntityQuota → Bool
has_entity entity_id q = q.active && q.entity_id == entity_id

-- `self.quotas` is lent to a loop and put back.
abbrev pub on_quotas :
    {A : Type 0}
    → (List EntityQuota → Outcome ZeroError A × List EntityQuota)
    → Method AccountingManager ZeroError A
on_quotas loop m = ((loop m.quotas).0, record m { quotas = (loop m.quotas).1 })

max_cap_update : DimensionCapacityVector → EntityQuota → Outcome ZeroError Bool × EntityQuota
max_cap_update new_max q = (ok true, record q { max_capacity = new_max })

install_quota :
    ℕ → DimensionCapacityVector → EntityQuota → Outcome ZeroError (Unit {0}) × EntityQuota
unfolding empty
install_quota entity_id max_cap q = (
  ok tt,
  record {
    entity_id = entity_id;
    max_capacity = max_cap;
    used_capacity = record empty { dimension_count = max_cap.dimension_count };
    active = true;
  },
)

unfoldable pub set_quota :
    ℕ → DimensionCapacityVector → Method AccountingManager ZeroError (Unit {0})
unfolding max_cap_update install_quota
set_quota entity_id max_cap = do
  known ← on_quotas (on_first (has_entity entity_id) (max_cap_update max_cap) (ok false))
  if known
      then pure tt
      else on_quotas
          (on_first (λ q. not q.active) (install_quota entity_id max_cap) (err object_table_full))

unfoldable pub charge : DimensionCapacityVector → Method EntityQuota ZeroError (Unit {0})
charge amount = do
  q ← get
  new_used ← lift (checked_add q.used_capacity amount)
  within ← lift (le new_used q.max_capacity)
  lift (Results.guard within quota_exceeded)
  modify (λ s. record s { used_capacity = new_used })

-- An entity without a quota is not limited.
unfoldable pub check_and_charge_quota :
    ℕ → DimensionCapacityVector → Method AccountingManager ZeroError (Unit {0})
check_and_charge_quota entity_id amount =
    on_quotas (on_first (has_entity entity_id) (charge amount) (ok tt))

unfoldable pub discharge : DimensionCapacityVector → Method EntityQuota ZeroError (Unit {0})
discharge amount = do
  q ← get
  new_used ← lift (checked_sub q.used_capacity amount)
  modify (λ s. record s { used_capacity = new_used })

unfoldable pub release_quota :
    ℕ → DimensionCapacityVector → Method AccountingManager ZeroError (Unit {0})
release_quota entity_id amount =
    on_quotas (on_first (has_entity entity_id) (discharge amount) (ok tt))

unfoldable pub record_quarantine :
    DistributedId
    → DistributedId
    → ℕ
    → DimensionCapacityVector
    → ℕ
    → Method AccountingManager ZeroError (Unit {0})
record_quarantine res_id lease_id entity_id amount reason m =
    (written.0, record m { quarantine_ledger = written.1 })
  where
    entry : QuarantineRecord
    entry = record {
      resource_id = res_id;
      lease_id = lease_id;
      entity_id = entity_id;
      quarantined_capacity = amount;
      reason = reason;
      active = true;
    }

    written : Outcome ZeroError (Unit {0}) × List QuarantineRecord
    written =
        on_first (λ r. not r.active) (λ r. (ok tt, entry)) (err object_table_full)
          m.quarantine_ledger
