-- ===== src/Libzero/LeaseEngine/Quarantine.antt =====
-- The handlers of libzero/src/lease_engine.rs that end many leases at once: loss of the time
-- authority, a closed peer, the loss of a provider.
use project_zero.Base.{
  ℕ, ◌≡◌, ◌≢◌, refl, sym, ◌∙◌, true, false, ◌&&◌, ◌==◌, List, [], ◌∷◌, ◌++◌, Option, some, arith,
  All, &&_true, inl, inr, not, ok, err, panic,
}
use project_zero.Base.Method.{>>-eq_of_ok}
use project_zero.Base.Loops.{on_first-outcome, All-trivial}
use project_zero.Libzero.Error.{ZeroError, object_table_full}
use project_zero.Libzero.Resource.{DistributedId, DimensionCapacityVector}
use project_zero.Libzero.Lease.{LeaseState, ResourceLease, time_authority_lost, released}
use project_zero.Libzero.Accounting.{
  AccountingManager, QuarantineRecord, with_domain, record_quarantine,
}
use project_zero.Libzero.Accounting.Domain.{quarantine_allocation}
use project_zero.Libzero.LeaseEngine.{
  LeaseEngine, is_active, quarantine_lease, try_domain, note_quarantine, handle_time_authority_loss,
  handle_peer_closed,
}
use project_zero.Libzero.LeaseEngine.Slots.{slot_sum, zeros8, ShapedSlot, All-append}
use project_zero.Libzero.LeaseEngine.Sweep.{
  sweep_from, sweep_slots-Unheld, Unheld, active_sum-Unheld, weaken,
}
use project_zero.Libzero.LeaseEngine.Ledger.{IsLedger, alloc_of, drain}
use project_zero.Libzero.LeaseEngine.Invariant.{
  IsConsistent, occupied, occupied-middle, quarantine-TakesOut, record_quarantine-IsLedger,
}

pub record_quarantine-ne-panic :
    (r i : DistributedId) (e : ℕ) (q : DimensionCapacityVector) (why : ℕ) (m : AccountingManager)
    → (record_quarantine r i e q why m).0 ≢ panic
unfolding record_quarantine
record_quarantine-ne-panic r i e q why m =
    on_first-outcome {A = QuarantineRecord} {E = ZeroError} {B = Unit {0}} (λ x. not x.active) _
      (err object_table_full) (λ x. Unit {0}) (λ o. o ≢ panic) (λ h. cc) (λ x _ h. cc)
      m.quarantine_ledger (All-trivial m.quarantine_ledger)

-- Writing a record cannot panic.
pub note_quarantine-ok :
    (l : ResourceLease) (reason : ℕ) (m : AccountingManager)
    → (note_quarantine l reason m).0 ≡ ok tt
note_quarantine-ok l reason m = ground (
  arith,
  record_quarantine-ne-panic l.resource_id l.lease_id l.holder_entity_id l.allocated_capacity reason
      m,
)

-- The ledger with the number of slots in use.
abbrev Counted : ℕ → List (Option ResourceLease) → AccountingManager → Type 0
Counted n slots m = IsLedger slots m × (n ≡ occupied slots)

module _ (n : ℕ) (next : LeaseState) (reason : ℕ) (ended : is_active next ≡ false)
    (xs ys : List (Option ResourceLease)) (l : ResourceLease) (m : AccountingManager)
    (live : is_active l.state ≡ true) (v : Counted n (xs ++ (some l ∷ ys)) m) where
  -- One lease goes to quarantine with its capacity.
  quarantine_lease-Counted :
      ((quarantine_lease next reason l m).0 ≡ ok tt)
      × Counted n
          (xs ++ (some (quarantine_lease next reason l m).1 ∷ ys))
          (quarantine_lease next reason l m).2
  unfolding quarantine_lease slot_sum
  quarantine_lease-Counted =
      let s : ShapedSlot (some l) = ((All-append ShapedSlot xs (some l ∷ ys)).0 v.0.shaped).1.0 in
      let (found, kept) =
        drain xs ys l (some (record l { state = next })) m v.0 live s (λ id. ground arith)
          (quarantine_allocation l.allocated_capacity)
          (quarantine-TakesOut l.allocated_capacity s) in
      let tried : (try_domain l.resource_id (quarantine_allocation l.allocated_capacity) m).0
          ≡ ok tt =
        elim found [ inl e ↦ rw (e, try_domain) | inr e ↦ rw (e, try_domain) ] in
      let after = (with_domain l.resource_id (quarantine_allocation l.allocated_capacity) m).1 in
      rw
        (>>-eq_of_ok (try_domain l.resource_id (quarantine_allocation l.allocated_capacity))
          (note_quarantine l reason) m tried)
        (
          note_quarantine-ok l reason after,
          (
            record_quarantine-IsLedger (xs ++ (some (record l { state = next }) ∷ ys)) after kept
                l.resource_id l.lease_id l.holder_entity_id l.allocated_capacity reason,
            v.1 ∙ occupied-middle xs ys l ∙ sym (occupied-middle xs ys (record l { state = next })),
          ),
        )

module _ (s : LeaseEngine) (v : IsConsistent s) where
  -- On the loss of the time authority every active lease ends, the engine stays consistent, and no
  -- capacity of any resource is left allocated.
  pub handle_time_authority_loss_lem :
      ((handle_time_authority_loss s).0 ≡ ok tt)
      × IsConsistent (handle_time_authority_loss s).1
      × All (Unheld (λ l. is_active l.state)) (handle_time_authority_loss s).1.leases
      × ((id : DistributedId) → alloc_of id (handle_time_authority_loss s).1.accounting ≡ zeros8)
  unfolding handle_time_authority_loss quarantine_lease
  handle_time_authority_loss_lem =
      let (done, kept) =
        sweep_from (λ l. is_active l.state) (quarantine_lease time_authority_lost 1)
          (Counted s.lease_count)
          (λ xs ys l m t c.
            quarantine_lease-Counted s.lease_count time_authority_lost 1 refl xs ys l m t c)
          [] s.leases s.accounting (v.ledger, v.counted) in
      let idle =
        sweep_slots-Unheld (λ l. is_active l.state) (quarantine_lease time_authority_lost 1)
          (λ l m. refl) s.leases s.accounting done in
      (
        done,
        record { ledger = kept.0; counted = kept.1 },
        idle,
        λ id. kept.0.matched id ∙ active_sum-Unheld id _ (weaken id _ idle),
      )

  -- When a peer closes, its active leases end, and the engine stays consistent.
  pub handle_peer_closed_lem :
      (handle : ℕ)
      → ((handle_peer_closed handle s).0 ≡ ok tt)
        × IsConsistent (handle_peer_closed handle s).1
        × All
            (Unheld (λ l. l.client_channel_handle == handle && is_active l.state))
            (handle_peer_closed handle s).1.leases
  unfolding handle_peer_closed quarantine_lease
  handle_peer_closed_lem handle =
      let (done, kept) =
        sweep_from (λ l. l.client_channel_handle == handle && is_active l.state)
          (quarantine_lease released 3) (Counted s.lease_count)
          (λ xs ys l m t c.
            quarantine_lease-Counted s.lease_count released 3 refl xs ys l m
              (&&_true (l.client_channel_handle == handle) (is_active l.state) t).1 c)
          [] s.leases s.accounting (v.ledger, v.counted) in
      (
        done,
        record { ledger = kept.0; counted = kept.1 },
        sweep_slots-Unheld (λ l. l.client_channel_handle == handle && is_active l.state)
            (quarantine_lease released 3) (λ l m. ground arith) s.leases s.accounting done,
      )
