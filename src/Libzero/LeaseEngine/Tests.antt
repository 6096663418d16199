-- ===== src/Libzero/LeaseEngine/Tests.antt =====
-- Runs of libzero/src/lease_engine.rs on an engine with one domain and one lease.
use project_zero.Base.{◌≢◌, panic, some, [], ◌∷◌, ◌≡◌, refl, true, ok, none, All, ◌&&◌, ◌==◌}
use project_zero.Libzero.Resource.{DistributedId, id_eq}
use project_zero.Libzero.Accounting
use project_zero.Libzero.Accounting.{register_domain, check_and_charge_quota}
use project_zero.Libzero.Accounting.Domain.{check_coupling}
use project_zero.Libzero.LeaseEngine.{
  LeaseEngine, Request, new, request_lease, reconcile_surviving_lease, handle_time_authority_loss,
  handle_peer_closed, handle_provider_loss, confirm_driver_release, is_active,
}
use project_zero.Libzero.LeaseEngine.Slots.{zeros8, first_lease}
use project_zero.Libzero.LeaseEngine.Ledger.{alloc_of}
use project_zero.Libzero.LeaseEngine.Invariant.{IsConsistent, quotas-IsLedger}
use project_zero.Libzero.LeaseEngine.Setup.{start-IsConsistent, register_domain-IsConsistent}
use project_zero.Libzero.LeaseEngine.Renewal.{
  with_lease, reconcile_surviving_lease_lem, reconcile_answer, reconciled,
}
use project_zero.Libzero.LeaseEngine.Quarantine.{
  handle_time_authority_loss_lem, handle_peer_closed_lem,
}
use project_zero.Libzero.LeaseEngine.Sweep.{Unheld}
use project_zero.Libzero.LeaseEngine.ProviderLoss.{
  handle_provider_loss_lem, confirm_driver_release_lem, confirm_answer,
}
use project_zero.Libzero.LeaseEngine.Requests.{request_lease_lem, Answered, IsEvaluable}
use project_zero.Libzero.LeaseEngine.Charging.{used_of}
use project_zero.Libzero.LeaseEngine.Balances.{request_lease-Charges, Charges}
use project_zero.Libzero.Samples.{pair, pair-IsShaped, disk, limited, limited-ShapedQuota}

abbrev start : LeaseEngine
start = new Accounting.new

-- An engine with one domain.
abbrev idle : LeaseEngine
idle = record start { accounting = (register_domain disk (pair 10 20) start.accounting).1 }

idle-IsConsistent : IsConsistent idle
idle-IsConsistent =
    (register_domain-IsConsistent start start-IsConsistent disk (pair 10 20) (pair-IsShaped 10 20)
      refl).0

abbrev lease_name : DistributedId
lease_name = record { node_id = 1; local_seq = 1 }

abbrev ask : Request
ask = record {
  lease_id = lease_name;
  resource_id = disk;
  entity_id = 5;
  client_channel_handle = 9;
  requested_amount = pair 3 4;
  duration_ticks = 100;
  current_tick = 50;
  caller_has_coverage = true;
  coupling = none;
}

no_coupling : IsEvaluable none
unfolding check_coupling
no_coupling cap s h = cc

request_lease_example :
    IsConsistent (request_lease ask idle).1
    × Answered idle idle-IsConsistent ask (request_lease ask idle)
request_lease_example = request_lease_lem idle idle-IsConsistent ask (pair-IsShaped 3 4) no_coupling

-- The engine with one lease.
abbrev held : LeaseEngine
held = (request_lease ask idle).1

held-IsConsistent : IsConsistent held
held-IsConsistent = (request_lease_lem idle idle-IsConsistent ask (pair-IsShaped 3 4) no_coupling).0

reconcile_surviving_lease_example :
    IsConsistent (reconcile_surviving_lease lease_name 60 20 held).1
    × ((reconcile_surviving_lease lease_name 60 20 held).0
        ≡ reconcile_answer 60 20 (first_lease (λ l. id_eq l.lease_id lease_name) held.leases))
    × ((reconcile_surviving_lease lease_name 60 20 held).1
        ≡ with_lease lease_name (reconciled 60) held)
reconcile_surviving_lease_example =
    reconcile_surviving_lease_lem held held-IsConsistent lease_name 60 20

handle_time_authority_loss_example :
    ((handle_time_authority_loss held).0 ≡ ok tt)
    × IsConsistent (handle_time_authority_loss held).1
    × All (Unheld (λ l. is_active l.state)) (handle_time_authority_loss held).1.leases
    × ((id : DistributedId) → alloc_of id (handle_time_authority_loss held).1.accounting ≡ zeros8)
handle_time_authority_loss_example = handle_time_authority_loss_lem held held-IsConsistent

handle_peer_closed_example :
    ((handle_peer_closed 9 held).0 ≡ ok tt)
    × IsConsistent (handle_peer_closed 9 held).1
    × All
        (Unheld (λ l. l.client_channel_handle == 9 && is_active l.state))
        (handle_peer_closed 9 held).1.leases
handle_peer_closed_example = handle_peer_closed_lem held held-IsConsistent 9

handle_provider_loss_example :
    ((handle_provider_loss disk held).0 ≡ ok tt)
    × IsConsistent (handle_provider_loss disk held).1
    × All
        (Unheld (λ l. id_eq l.resource_id disk && is_active l.state))
        (handle_provider_loss disk held).1.leases
    × (alloc_of disk (handle_provider_loss disk held).1.accounting ≡ zeros8)
handle_provider_loss_example = handle_provider_loss_lem held held-IsConsistent disk

confirm_driver_release_example :
    IsConsistent (confirm_driver_release disk (pair 1 1) held).1
    × ((confirm_driver_release disk (pair 1 1) held).0
        ≡ confirm_answer held held-IsConsistent disk (pair 1 1))
confirm_driver_release_example =
    confirm_driver_release_lem held held-IsConsistent disk (pair 1 1) (pair-IsShaped 1 1)

-- The engine with one domain, and a quota for the entity that asks.
abbrev metered : LeaseEngine
metered = record idle { accounting = record idle.accounting { quotas = limited ∷ [] } }

metered-IsConsistent : IsConsistent metered
metered-IsConsistent = record {
  ledger =
      quotas-IsLedger idle.leases idle.accounting idle-IsConsistent.ledger (limited ∷ [])
        (limited-ShapedQuota, tt);
  counted = idle-IsConsistent.counted;
}

used_before : used_of 5 metered.accounting.quotas ≡ some (pair 3 2).dimensions
unfolding used_of
used_before = refl

request_lease-Charges_example :
    ((request_lease ask metered).0 ≢ panic)
    × Charges metered metered-IsConsistent ask
        (pair-IsShaped 3 4)
        (pair 3 2).dimensions
        used_before
        (request_lease ask metered)
request_lease-Charges_example =
    request_lease-Charges metered metered-IsConsistent ask (pair-IsShaped 3 4) (pair 3 2).dimensions
      used_before no_coupling
