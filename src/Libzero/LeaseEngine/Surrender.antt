-- ===== src/Libzero/LeaseEngine/Surrender.antt =====
-- What `release_lease` of libzero/src/lease_engine.rs does behind its guards, to the accounts and to
-- the ledger.
use project_zero.Base.{
  ◌≡◌, refl, ◌∙◌, ap, true, Option-cases, List, ◌∷◌, ◌++◌, Option, none, some, arith, inl, inr, ◌⊎◌,
  Outcome, ok,
}
use project_zero.Libzero.Error.{ZeroError}
use project_zero.Libzero.Lease.{ResourceLease}
use project_zero.Libzero.Accounting.{AccountingManager, with_domain, release_quota}
use project_zero.Libzero.Accounting.Domain.{release_allocation}
use project_zero.Libzero.Accounting.Domain.Moves.{released, release_allocation_lem}
use project_zero.Libzero.Accounting.Lookup.{
  find_domain, replace_domain, find_domain-Ready, with_domain_lem,
}
use project_zero.Libzero.Accounting.Quota.{discharged, release_quota_lem}
use project_zero.Libzero.LeaseEngine.{is_active, surrender}
use project_zero.Libzero.LeaseEngine.Slots.{slot_sum, ShapedSlot}
use project_zero.Libzero.LeaseEngine.Ledger.{IsLedger, drain, held}
use project_zero.Libzero.LeaseEngine.Invariant.{release-TakesOut, release_quota-IsLedger}

-- The accounts after the release of a lease: its amount is available again at the domain of its
-- resource, if there is one, and no longer used by its holder.
abbrev pub given_back : ResourceLease → AccountingManager → AccountingManager
given_back l m =
    let freed : AccountingManager = elim (find_domain l.resource_id m) [
      | none ↦ m
      | some d ↦ replace_domain l.resource_id (released d l.allocated_capacity) m
    ] in
    record freed { quotas = discharged l.holder_entity_id l.allocated_capacity m.quotas }

surrender-quota :
    (l : ResourceLease) (m m' : AccountingManager) (found : Option (Outcome ZeroError (Unit {0})))
    → with_domain l.resource_id (release_allocation l.allocated_capacity) m ≡ (found, m')
    → (found ≡ none) ⊎ (found ≡ some (ok tt))
    → (surrender l m).2 ≡ (release_quota l.holder_entity_id l.allocated_capacity m').1
unfolding surrender
surrender-quota l m m' found e ends =
    let after : (release_quota l.holder_entity_id l.allocated_capacity
          (with_domain l.resource_id (release_allocation l.allocated_capacity) m).1).1
        ≡ (release_quota l.holder_entity_id l.allocated_capacity m').1 =
      ap (λ r. (release_quota l.holder_entity_id l.allocated_capacity r.1).1) e in
    elim ends [ inl f ↦ rw (surrender, e, f) after | inr f ↦ rw (surrender, e, f) after ]

pub surrendered_lem :
    (xs ys : List (Option ResourceLease)) (l : ResourceLease) (m : AccountingManager)
    → IsLedger (xs ++ (some l ∷ ys)) m
    → is_active l.state ≡ true
    → ShapedSlot (some l)
    → (surrender l m).2 ≡ given_back l m
unfolding slot_sum
surrendered_lem xs ys l m v live s =
    let quotas = release_quota_lem l.allocated_capacity s l.holder_entity_id in
    elim (Option-cases (find_domain l.resource_id m)) [
      | inl e ↦
          let gone : with_domain l.resource_id (release_allocation l.allocated_capacity) m
              ≡ (none, m) =
            ground (
              arith,
              with_domain_lem l.resource_id (release_allocation l.allocated_capacity) m v.sound,
            ) in
          surrender-quota l m m none gone (inl refl) ∙ rw e (quotas m v.sound.quotas_shaped)
      | inr (d, e) ↦
          let (r, same) = find_domain-Ready l.resource_id m d v.sound e in
          let there = held xs ys l none m v live tt (λ id. refl) d e in
          let went : with_domain l.resource_id (release_allocation l.allocated_capacity) m
              ≡ (some (ok tt), replace_domain l.resource_id (released d l.allocated_capacity) m) =
            ground (
              arith,
              with_domain_lem l.resource_id (release_allocation l.allocated_capacity) m v.sound,
              release_allocation_lem d r.0 l.allocated_capacity s,
            ) in
          let m' = replace_domain l.resource_id (released d l.allocated_capacity) m in
          surrender-quota l m m' (some (ok tt)) went (inr refl)
          ∙ rw e (quotas m' v.sound.quotas_shaped)
    ]

-- Behind the guards the release succeeds, clears the slot and keeps the ledger.
pub surrender_lem :
    (xs ys : List (Option ResourceLease)) (l : ResourceLease) (m : AccountingManager)
    → IsLedger (xs ++ (some l ∷ ys)) m
    → is_active l.state ≡ true
    → ShapedSlot (some l)
    → ((surrender l m).1 ≡ none)
      × ((surrender l m).0 ≡ ok tt)
      × IsLedger (xs ++ (none ∷ ys)) (surrender l m).2
unfolding surrender slot_sum
surrender_lem xs ys l m v live s =
    let (found, kept) =
      drain xs ys l none m v live tt (λ id. refl) (release_allocation l.allocated_capacity)
        (release-TakesOut l.allocated_capacity s) in
    let after = with_domain l.resource_id (release_allocation l.allocated_capacity) m in
    let (ledger, sure) =
      release_quota-IsLedger (xs ++ (none ∷ ys)) after.1 kept l.holder_entity_id
        l.allocated_capacity s in
    elim found [
      | inl e ↦ (ground arith, ground arith, rw (e, surrender) ledger)
      | inr e ↦ (ground arith, ground arith, rw (e, surrender) ledger)
    ]
