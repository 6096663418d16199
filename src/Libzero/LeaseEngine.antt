-- ===== src/Libzero/LeaseEngine.antt =====
-- libzero/src/lease_engine.rs: the life of a lease. The engine and the accounting manager that its
-- methods borrow are one state; a method returns its outcome with the state that it leaves.
pub mod Slots
pub mod Ledger
pub mod Invariant
pub mod Setup
pub mod Surrender
pub mod Release
pub mod Renewal
pub mod Sweep
pub mod Quarantine
pub mod ProviderLoss
pub mod Granting
pub mod Requests
pub mod Charging
pub mod Balances
mod Tests
use project_zero.Base.{
  ℕ, ◌+◌, ◌-◌, ◌%◌, Bool, true, false, not, ◌&&◌, List, [], ◌∷◌, Option, none, some, Outcome, ok,
  err, panic, ltb, leb, ◌==◌, if◌then◌else◌, replicate,
}
use project_zero.Base.Results
use project_zero.Base.Method.{Method, ◌>>=◌, ◌>>◌, lift, fail, pure}
use project_zero.Base.Loops.{ignore}
use project_zero.Base.Words.{checked_add_u64, wrapping_add_u32}
use project_zero.Libzero.Error.{
  ZeroError, permission_denied, deadline_exhaustion, not_found, object_table_full,
  generation_mismatch, invalid_request,
}
use project_zero.Libzero.Resource.{DistributedId, DimensionCapacityVector, id_eq, or_err}
use project_zero.Libzero.Lease.{
  LeaseState, active, time_authority_lost, provider_lost, released, ResourceLease,
  CouplingConstraintMatrix, max_leases_per_node,
}
use project_zero.Libzero.Accounting.Domain.{
  DomainMethod, admit_allocation, release_allocation, quarantine_allocation,
  quarantine_on_provider_lost, confirm_physical_release,
}
use project_zero.Libzero.Accounting.{
  AccountingManager, with_domain, check_and_charge_quota, release_quota, record_quarantine,
}

pub record LeaseEngine : Type 0 where
  pub leases : List (Option ResourceLease)  -- [Option<ResourceLease>; 256]
  pub lease_count : ℕ
  pub accounting : AccountingManager

abbrev pub EngineMethod : Type 0 → Type 0
EngineMethod A = Method LeaseEngine ZeroError A

-- `LeaseEngine::new` beside a manager.
unfoldable pub new : AccountingManager → LeaseEngine
new accounting = record {
  leases = replicate max_leases_per_node none;
  lease_count = 0;
  accounting = accounting;
}

abbrev pub is_active : LeaseState → Bool
is_active active = true
is_active _ = false

abbrev pub on_accounting : {A : Type 0} → Method AccountingManager ZeroError A → EngineMethod A
on_accounting call s = ((call s.accounting).0, record s { accounting = (call s.accounting).1 })

-- `let _ = accounting.call(..)`.
abbrev pub try_accounting : Method AccountingManager ZeroError (Unit {0}) → EngineMethod (Unit {0})
try_accounting call = on_accounting (λ m. (ignore (call m).0, (call m).1))

-- `if let Some(domain) = find_domain_mut(id) { let _ = domain.call(..); }`.
abbrev pub try_domain : DistributedId → DomainMethod → Method AccountingManager ZeroError (Unit {0})
try_domain id call m =
    let found = with_domain id call m in
    (elim found.0 [ none ↦ ok tt | some outcome ↦ ignore outcome ], found.1)

-- Step 4 of `request_lease`: a refused admission gives the quota back; a missing domain does not.
pub admit_result :
    ℕ
    → DimensionCapacityVector
    → Option (Outcome ZeroError (Unit {0})) × AccountingManager
    → EngineMethod (Unit {0})
admit_result entity_id amount (none, m) s = (err not_found, record s { accounting = m })
admit_result entity_id amount (some (ok _), m) s = (ok tt, record s { accounting = m })
admit_result entity_id amount (some (err e), m) s =
    (try_accounting (release_quota entity_id amount) >> fail e) (record s { accounting = m })
admit_result entity_id amount (some panic, m) s = (panic, record s { accounting = m })

pub admit :
    DistributedId
    → ℕ
    → DimensionCapacityVector
    → Option CouplingConstraintMatrix
    → EngineMethod (Unit {0})
admit resource_id entity_id amount coupling s =
    admit_result entity_id amount
      (with_domain resource_id (admit_allocation amount coupling) s.accounting) s

-- The slot loop of `request_lease`.
pub place : ResourceLease → List (Option ResourceLease) → Bool × List (Option ResourceLease)
place lease [] = (false, [])
place lease (none ∷ slots) = (true, some lease ∷ slots)
place lease (some l ∷ slots) = let rest = place lease slots in (rest.0, some l ∷ rest.1)

-- The rollback of `request_lease` on a full table.
pub undo_admission : ResourceLease → EngineMethod ResourceLease
undo_admission lease = do
  on_accounting (try_domain lease.resource_id (release_allocation lease.allocated_capacity))
  try_accounting (release_quota lease.holder_entity_id lease.allocated_capacity)
  fail object_table_full

pub store_lease : ResourceLease → EngineMethod ResourceLease
store_lease lease s =
    if (place lease s.leases).0
    then (ok lease, record s { leases = (place lease s.leases).1; lease_count = s.lease_count + 1 })
    else undo_admission lease s

-- The arguments of `request_lease`, less the tables that it borrows.
pub record Request : Type 0 where
  pub lease_id : DistributedId
  pub resource_id : DistributedId
  pub entity_id : ℕ
  pub client_channel_handle : ℕ
  pub requested_amount : DimensionCapacityVector
  pub duration_ticks : ℕ
  pub current_tick : ℕ
  pub caller_has_coverage : Bool
  pub coupling : Option CouplingConstraintMatrix

-- The lease that a granted request gives.
abbrev pub granted : Request → ℕ → ResourceLease
granted r expiration_tick = record {
  lease_id = r.lease_id;
  resource_id = r.resource_id;
  generation = 1;
  state = active;
  allocated_capacity = r.requested_amount;
  granted_tick = r.current_tick;
  expiration_tick = expiration_tick;
  holder_entity_id = r.entity_id;
  client_channel_handle = r.client_channel_handle;
}

pub request_lease : Request → EngineMethod ResourceLease
unfolding admit admit_result store_lease place undo_admission
request_lease r = do
  lift (Results.guard r.caller_has_coverage permission_denied)
  expiration_tick ←
      lift (or_err (checked_add_u64 r.current_tick r.duration_ticks) deadline_exhaustion)
  on_accounting (check_and_charge_quota r.entity_id r.requested_amount)
  admit r.resource_id r.entity_id r.requested_amount r.coupling
  store_lease (granted r expiration_tick)

-- The loops `for slot in leases { if let Some(l) = slot { if test(l) { return body(l) } } }
-- Err(NotFound)`, whose body may clear the slot and borrows the manager.
module _ {B : Type 0} (test : ResourceLease → Bool)
    (body : ResourceLease
      → AccountingManager
      → Outcome ZeroError B × Option ResourceLease × AccountingManager) where
  pub find_slot :
      List (Option ResourceLease)
      → AccountingManager
      → Outcome ZeroError B × List (Option ResourceLease) × AccountingManager
  find_slot [] m = (err not_found, [], m)
  find_slot (none ∷ slots) m = let rest = find_slot slots m in (rest.0, none ∷ rest.1, rest.2)
  find_slot (some l ∷ slots) m =
      let rest = find_slot slots m in
      if test l
      then ((body l m).0, (body l m).1 ∷ slots, (body l m).2)
      else (rest.0, some l ∷ rest.1, rest.2)

-- The guards that `release_lease` and `renew_lease` begin with.
abbrev pub check_lease : ℕ → ResourceLease → Outcome ZeroError (Unit {0})
check_lease presented_gen l =
    Results.◌>>◌ (Results.guard (l.generation == presented_gen) generation_mismatch)
      (Results.guard (is_active l.state) invalid_request)

-- The part of `release_lease` behind its guards.
pub surrender :
    ResourceLease
    → AccountingManager
    → Outcome ZeroError (Unit {0}) × Option ResourceLease × AccountingManager
surrender l m =
    let found = with_domain l.resource_id (release_allocation l.allocated_capacity) m in
    let freed = release_quota l.holder_entity_id l.allocated_capacity found.1 in
    elim found.0 [
      | none ↦ (ignore freed.0, none, freed.1)
      | some outcome ↦ elim outcome [
        | ok _ ↦ (ignore freed.0, none, freed.1)
        | err e ↦ (err e, some (record l { state = released }), found.1)
        | panic ↦ (panic, some (record l { state = released }), found.1)
      ]
    ]

release_slot :
    ℕ
    → ResourceLease
    → AccountingManager
    → Outcome ZeroError (Unit {0}) × Option ResourceLease × AccountingManager
unfolding surrender
release_slot presented_gen l m = elim (check_lease presented_gen l) [
  | ok _ ↦ surrender l m
  | err e ↦ (err e, some l, m)
  | panic ↦ (panic, some l, m)
]

pub release_lease : DistributedId → ℕ → EngineMethod (Unit {0})
unfolding release_slot find_slot
release_lease lease_id presented_gen s =
    let r =
      find_slot (λ l. id_eq l.lease_id lease_id) (release_slot presented_gen) s.leases
        s.accounting in
    elim r.0 [
      | ok _ ↦ (ok tt, record { leases = r.1; lease_count = s.lease_count - 1; accounting = r.2 })
      | err e ↦ (err e, record s { leases = r.1; accounting = r.2 })
      | panic ↦ (panic, record s { leases = r.1; accounting = r.2 })
    ]

renew_slot :
    ℕ
    → ℕ
    → ℕ
    → ResourceLease
    → AccountingManager
    → Outcome ZeroError ℕ × Option ResourceLease × AccountingManager
renew_slot presented_gen additional_duration current_tick l m =
    elim (Results.◌>>◌ (check_lease presented_gen l)
      (or_err (checked_add_u64 current_tick additional_duration) deadline_exhaustion)) [
        | ok new_exp ↦ (
          ok new_exp,
          some (record l {
            expiration_tick = new_exp;
            generation = wrapping_add_u32 l.generation 1;
          }),
          m,
        )
        | err e ↦ (err e, some l, m)
        | panic ↦ (panic, some l, m)
      ]

pub renew_lease : DistributedId → ℕ → ℕ → ℕ → EngineMethod ℕ
unfolding renew_slot find_slot
renew_lease lease_id presented_gen additional_duration current_tick s =
    let r =
      find_slot (λ l. id_eq l.lease_id lease_id)
        (renew_slot presented_gen additional_duration current_tick) s.leases s.accounting in
    (r.0, record s { leases = r.1; accounting = r.2 })

-- The loops that change every lease that passes a test, and go on; `body` borrows the manager.
module _ (test : ResourceLease → Bool)
    (body : ResourceLease
      → AccountingManager
      → Outcome ZeroError (Unit {0}) × ResourceLease × AccountingManager) where
  abbrev pub sweep_slot :
      ResourceLease
      → AccountingManager
      → Outcome ZeroError (Unit {0}) × ResourceLease × AccountingManager
  sweep_slot l m = if test l then body l m else (ok tt, l, m)

  pub sweep_slots :
      List (Option ResourceLease)
      → AccountingManager
      → Outcome ZeroError (Unit {0}) × List (Option ResourceLease) × AccountingManager
  sweep_slots [] m = (ok tt, [], m)
  sweep_slots (none ∷ slots) m = let rest = sweep_slots slots m in (rest.0, none ∷ rest.1, rest.2)
  sweep_slots (some l ∷ slots) m =
      let swept = sweep_slot l m in
      let rest = sweep_slots slots swept.2 in
      elim swept.0 [
        | ok _ ↦ (rest.0, some swept.1 ∷ rest.1, rest.2)
        | err e ↦ (err e, some swept.1 ∷ slots, swept.2)
        | panic ↦ (panic, some swept.1 ∷ slots, swept.2)
      ]

-- `let _ = record_quarantine(..)` for a lease.
abbrev pub note_quarantine : ResourceLease → ℕ → Method AccountingManager ZeroError (Unit {0})
note_quarantine l reason m =
    let noted =
      record_quarantine l.resource_id l.lease_id l.holder_entity_id l.allocated_capacity reason m in
    (ignore noted.0, noted.1)

-- The body of the loops on authority loss and on a closed peer.
quarantine_lease :
    LeaseState
    → ℕ
    → ResourceLease
    → AccountingManager
    → Outcome ZeroError (Unit {0}) × ResourceLease × AccountingManager
quarantine_lease next reason l m =
    let done =
      (do
        try_domain l.resource_id (quarantine_allocation l.allocated_capacity)
        note_quarantine l reason)
        m in
    (done.0, record l { state = next }, done.1)

abbrev pub on_slots :
    (List (Option ResourceLease)
      → AccountingManager
      → Outcome ZeroError (Unit {0}) × List (Option ResourceLease) × AccountingManager)
    → EngineMethod (Unit {0})
on_slots loop s =
    let r = loop s.leases s.accounting in (r.0, record s { leases = r.1; accounting = r.2 })

pub handle_time_authority_loss : EngineMethod (Unit {0})
unfolding quarantine_lease sweep_slots
handle_time_authority_loss =
    on_slots (sweep_slots (λ l. is_active l.state) (quarantine_lease time_authority_lost 1))

pub handle_peer_closed : ℕ → EngineMethod (Unit {0})
unfolding quarantine_lease sweep_slots
handle_peer_closed client_channel_handle = on_slots (
    sweep_slots (λ l. l.client_channel_handle == client_channel_handle && is_active l.state)
      (quarantine_lease released 3))

-- The body of the loop on the loss of a provider: the domain was swept as a whole before it.
lose_lease :
    ResourceLease
    → AccountingManager
    → Outcome ZeroError (Unit {0}) × ResourceLease × AccountingManager
lose_lease l m =
    let noted = note_quarantine l 2 m in (noted.0, record l { state = provider_lost }, noted.1)

pub handle_provider_loss : DistributedId → EngineMethod (Unit {0})
unfolding lose_lease sweep_slots
handle_provider_loss res_id = do
  on_accounting (try_domain res_id quarantine_on_provider_lost)
  on_slots (sweep_slots (λ l. id_eq l.resource_id res_id && is_active l.state) lose_lease)

pub confirm_driver_release : DistributedId → DimensionCapacityVector → EngineMethod (Unit {0})
confirm_driver_release res_id amount s =
    let found = with_domain res_id (confirm_physical_release amount) s.accounting in
    (
      elim found.0 [ none ↦ err not_found | some outcome ↦ outcome ],
      record s { accounting = found.1 },
    )

reconcile_slot :
    ℕ
    → ℕ
    → ResourceLease
    → AccountingManager
    → Outcome ZeroError ℕ × Option ResourceLease × AccountingManager
reconcile_slot current_tick policy_max_window l m =
    if leb l.expiration_tick current_tick then (err permission_denied, some l, m) else (
      ok (
          if ltb (l.expiration_tick - current_tick) policy_max_window
          then l.expiration_tick - current_tick
          else policy_max_window),
      some (record l { generation = wrapping_add_u32 l.generation 1 }),
      m,
    )

pub reconcile_surviving_lease : DistributedId → ℕ → ℕ → EngineMethod ℕ
unfolding reconcile_slot find_slot
reconcile_surviving_lease lease_id current_tick policy_max_window s =
    let r =
      find_slot (λ l. id_eq l.lease_id lease_id) (reconcile_slot current_tick policy_max_window)
        s.leases s.accounting in
    (r.0, record s { leases = r.1; accounting = r.2 })
