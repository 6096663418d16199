-- ===== src/Libzero/LeaseEngine/Renewal.antt =====
-- `renew_lease` and `reconcile_surviving_lease` of libzero/src/lease_engine.rs.
use project_zero.Base.{
  ℕ, ◌+◌, ◌-◌, ◌%◌, ◌^◌, ◌&&◌, ◌≡◌, refl, sym, ap, subst, Bool, ◌==◌, List, ◌∷◌, ◌++◌, Option, none,
  some, arith, if◌then◌else◌, ltb, leb, inl, inr, Outcome, ok, err,
}
use project_zero.Libzero.Error.{
  ZeroError, not_found, permission_denied, deadline_exhaustion, invalid_request,
  generation_mismatch,
}
use project_zero.Libzero.Resource.{DistributedId, id_eq}
use project_zero.Libzero.Lease.{ResourceLease}
use project_zero.Libzero.Accounting.{AccountingManager}
use project_zero.Libzero.LeaseEngine.{
  LeaseEngine, is_active, find_slot, reconcile_slot, reconcile_surviving_lease,
}
use project_zero.Libzero.LeaseEngine.Slots.{
  slot_sum, active_sum-middle, ShapedSlot, Split, find_slot-Split, first_lease, change_first,
  All-append,
}
use project_zero.Libzero.LeaseEngine.Ledger.{IsLedger}
use project_zero.Libzero.LeaseEngine.Invariant.{IsConsistent, occupied, occupied-middle}

-- A lease may change in all that the ledger does not read.
module _ (xs ys : List (Option ResourceLease)) (l l' : ResourceLease) (m : AccountingManager)
    (same_id : l'.resource_id ≡ l.resource_id) (same_state : l'.state ≡ l.state)
    (same_cap : l'.allocated_capacity ≡ l.allocated_capacity) where
  retouch-IsLedger : IsLedger (xs ++ (some l ∷ ys)) m → IsLedger (xs ++ (some l' ∷ ys)) m
  unfolding slot_sum
  retouch-IsLedger v = record {
    sound = v.sound;
    shaped =
        let (p, q) = (All-append ShapedSlot xs (some l ∷ ys)).0 v.shaped in
        (All-append ShapedSlot xs (some l' ∷ ys)).1 (p, (rw same_cap q.0, q.1));
    matched = λ id. ground (
      arith,
      v.matched id,
      active_sum-middle id xs (some l) ys,
      active_sum-middle id xs (some l') ys,
    );
  }

abbrev has_id : DistributedId → ResourceLease → Bool
has_id lease_id l = id_eq l.lease_id lease_id

-- The engine with its first lease with an identifier changed.
abbrev pub with_lease : DistributedId → (ResourceLease → ResourceLease) → LeaseEngine → LeaseEngine
with_lease lease_id change s = record s {
  leases = change_first (has_id lease_id) (λ l. some (change l)) s.leases;
}

-- What `renew_lease` answers, by the first lease with the identifier.
abbrev pub renew_answer : ℕ → ℕ → Option ResourceLease → Outcome ZeroError ℕ
renew_answer gen deadline none = err not_found
renew_answer gen deadline (some l) =
    if l.generation == gen
    then (if is_active l.state
        then (if ltb deadline (2 ^ 64) then ok deadline else err deadline_exhaustion)
        else err invalid_request)
    else err generation_mismatch

-- What it makes of that lease: the new deadline and the next generation, where all guards hold.
abbrev pub renewed : ℕ → ℕ → ResourceLease → ResourceLease
renewed gen deadline l =
    if l.generation == gen && is_active l.state && ltb deadline (2 ^ 64)
    then record l { expiration_tick = deadline; generation = (l.generation + 1) % 2 ^ 32 }
    else l

-- What `reconcile_surviving_lease` answers, and what it makes of the lease.
abbrev pub reconcile_answer : ℕ → ℕ → Option ResourceLease → Outcome ZeroError ℕ
reconcile_answer now window none = err not_found
reconcile_answer now window (some l) =
    if leb l.expiration_tick now
    then err permission_denied
    else ok (if ltb (l.expiration_tick - now) window then l.expiration_tick - now else window)

abbrev pub reconciled : ℕ → ResourceLease → ResourceLease
reconciled now l =
    if leb l.expiration_tick now then l else record l { generation = (l.generation + 1) % 2 ^ 32 }

reconcile_slot_lem :
    (now window : ℕ) (l : ResourceLease) (m : AccountingManager)
    → reconcile_slot now window l m
      ≡ (reconcile_answer now window (some l), some (reconciled now l), m)
unfolding reconcile_slot
reconcile_slot_lem now window l m = ground arith

-- A change of a lease that the ledger does not read.
abbrev Retouches : (ResourceLease → ResourceLease) → Type 0
Retouches change =
    (l : ResourceLease)
    → ((change l).resource_id ≡ l.resource_id)
      × ((change l).state ≡ l.state)
      × ((change l).allocated_capacity ≡ l.allocated_capacity)

reconciled-Retouches : (now : ℕ) → Retouches (reconciled now)
reconciled-Retouches now l = ground arith

module _ (s : LeaseEngine) (v : IsConsistent s) (lease_id : DistributedId) where
  retouch-IsConsistent :
      (change : ResourceLease → ResourceLease)
      → Retouches change
      → (p : Split s.leases)
      → IsConsistent (record s { leases = p.before ++ (some (change p.lease) ∷ p.after) })
  retouch-IsConsistent change touch p =
      let (a, b, c) = touch p.lease in
      record {
        ledger =
            retouch-IsLedger p.before p.after p.lease (change p.lease) s.accounting a b c
              (subst (λ w. IsLedger w s.accounting) p.whole v.ledger);
        counted = omega (
          arith,
          v.counted,
          ap occupied p.whole,
          occupied-middle p.before p.after p.lease,
          occupied-middle p.before p.after (change p.lease),
        );
      }

  -- A loop whose body answers by the lease, and only touches it up, keeps the engine consistent.
  module _
      (body : ResourceLease
        → AccountingManager
        → Outcome ZeroError ℕ × Option ResourceLease × AccountingManager)
      (answer : Option ResourceLease → Outcome ZeroError ℕ) (change : ResourceLease → ResourceLease)
      (calls : (l : ResourceLease) (m : AccountingManager)
        → body l m ≡ (answer (some l), some (change l), m))
      (missing : answer none ≡ err not_found) (touch : Retouches change) where
    abbrev looked : Outcome ZeroError ℕ × List (Option ResourceLease) × AccountingManager
    looked = find_slot (has_id lease_id) body s.leases s.accounting

    loop_lem :
        IsConsistent (record s { leases = looked.1; accounting = looked.2 })
        × (looked.0 ≡ answer (first_lease (has_id lease_id) s.leases))
        × (record s { leases = looked.1; accounting = looked.2 } ≡ with_lease lease_id change s)
    loop_lem = elim (find_slot-Split (has_id lease_id) body s.leases s.accounting) [
      | inl (f, e, u) ↦ (rw e v, rw (e, f) (sym missing), rw (e, u (λ l. some (change l))) refl)
      | inr (p, f, e, u) ↦
          let r = calls p.lease s.accounting in
          (
            rw (e, r) (retouch-IsConsistent change touch p),
            rw (e, r, f) refl,
            rw (e, r, u (λ l. some (change l))) refl,
          )
    ]

  -- A reconciliation keeps the engine consistent; it refuses an expired lease, and else grants the
  -- shorter of the remaining time and the window, whatever the state of the lease, and counts its
  -- generation on, which is all that changes.
  pub reconcile_surviving_lease_lem :
      (now window : ℕ)
      → IsConsistent (reconcile_surviving_lease lease_id now window s).1
        × ((reconcile_surviving_lease lease_id now window s).0
            ≡ reconcile_answer now window (first_lease (has_id lease_id) s.leases))
        × ((reconcile_surviving_lease lease_id now window s).1
            ≡ with_lease lease_id (reconciled now) s)
  unfolding reconcile_surviving_lease
  reconcile_surviving_lease_lem now window =
      loop_lem (reconcile_slot now window) (reconcile_answer now window) (reconciled now)
        (reconcile_slot_lem now window) refl (reconciled-Retouches now)
