-- ===== src/Libzero/LeaseEngine/Requests.antt =====
-- `request_lease` of libzero/src/lease_engine.rs: what it answers, and that it keeps the engine
-- consistent on every path, the rollbacks included.
use project_zero.Base.{
  ℕ, ◌+◌, ◌≡◌, ◌≢◌, refl, true, false, Option, none, some, arith, ltb, Bool-cases, Option-cases,
  inl, inr, ◌⊎◌, Outcome, ok, err, panic,
}
use project_zero.Base.Words.{u64_mod}
use project_zero.Base.Method.{◌>>◌, fail}
use project_zero.Base.Loops.{ignore}
use project_zero.Libzero.Error.{
  ZeroError, not_found, permission_denied, deadline_exhaustion, object_table_full, invalid_request,
}
use project_zero.Libzero.Resource.{DistributedId, DimensionCapacityVector}
use project_zero.Libzero.Resource.Vectors.{IsShaped, plus, plus-IsShaped, all_le}
use project_zero.Libzero.Lease.{ResourceLease, CouplingConstraintMatrix}
use project_zero.Libzero.Accounting.{with_domain, check_and_charge_quota, release_quota}
use project_zero.Libzero.Accounting.Domain.{AccountingDomain, admit_allocation, check_coupling}
use project_zero.Libzero.Accounting.Domain.Moves.{admitted, admit_allocation_lem}
use project_zero.Libzero.Accounting.Lookup.{
  Ready, find_domain, replace_domain, with_domain_lem, find_domain-Ready,
}
use project_zero.Libzero.LeaseEngine.{
  LeaseEngine, Request, granted, admit, admit_result, store_lease, request_lease, try_accounting,
}
use project_zero.Libzero.LeaseEngine.Invariant.{
  IsConsistent, replaced, release_quota-IsLedger, check_and_charge_quota-IsLedger,
}
use project_zero.Libzero.LeaseEngine.Granting.{store_lease_lem, with_admission}

-- Constraints that can be evaluated on every vector of the right shape.
abbrev pub IsEvaluable : Option CouplingConstraintMatrix → Type 0
IsEvaluable coupling =
    (cap : DimensionCapacityVector) → IsShaped cap → check_coupling coupling cap ≢ panic

-- An outcome that is an error, beside a consistent engine with the same leases.
abbrev Declined : {A : Type 0} → LeaseEngine → Outcome ZeroError A × LeaseEngine → Type 0
Declined s r = ((x : ZeroError) × (r.0 ≡ err x)) × IsConsistent r.1 × (r.1.leases ≡ s.leases)

outcome-cases :
    {A : Type 0} (o : Outcome ZeroError A)
    → o ≢ panic
    → ((a : A) × (o ≡ ok a)) ⊎ ((x : ZeroError) × (o ≡ err x))
outcome-cases (ok a) h = inl (a, refl)
outcome-cases (err x) h = inr (x, refl)
outcome-cases panic h = absurd (h refl)

module _ (s : LeaseEngine) (v : IsConsistent s) where
  refused :
      (id : DistributedId) (e : ℕ) (q : DimensionCapacityVector)
      → IsShaped q
      → (d : AccountingDomain) → find_domain id s.accounting ≡ some d
      → d.resource_id ≡ id
      → Ready d
      → (x : ZeroError)
      → Declined {A = Unit {0}} s (
          (try_accounting (release_quota e q) >> fail x)
            (record s { accounting = replace_domain id d s.accounting }))
  refused id e q k d f named r x =
      let kept = replaced s v id d d f named r refl in
      let (ledger, sure) =
        release_quota-IsLedger s.leases (replace_domain id d s.accounting) kept.ledger e q k in
      let tried : ignore (release_quota e q (replace_domain id d s.accounting)).0 ≡ ok tt =
        ground arith in
      rw tried ((x, refl), record { ledger = ledger; counted = v.counted }, refl)

  -- The admission is refused with the quota given back, or the domain exists and grants it.
  pub admit_lem :
      (id : DistributedId) (e : ℕ) (q : DimensionCapacityVector)
      (c : Option CouplingConstraintMatrix)
      → IsShaped q
      → IsEvaluable c
      → Declined s (admit id e q c s)
        ⊎ ((d : AccountingDomain) × (find_domain id s.accounting ≡ some d)
            × (all_le q.dimensions d.avail_capacity.dimensions ≡ true)
            × (admit id e q c s ≡ (
              ok tt,
              record s { accounting = replace_domain id (admitted d q false) s.accounting },
            )))
  unfolding admit admit_result
  admit_lem id e q c k safe = elim (Option-cases (find_domain id s.accounting)) [
    | inl n ↦
        let same : with_domain id (admit_allocation q c) s.accounting ≡ (none, s.accounting) =
          ground (arith, with_domain_lem id (admit_allocation q c) s.accounting v.ledger.sound) in
        inl (rw (same) ((not_found, refl), v, refl))
    | inr (d, f) ↦
        let (r, named) = find_domain-Ready id s.accounting d v.ledger.sound f in
        let went = with_domain_lem id (admit_allocation q c) s.accounting v.ledger.sound in
        let call = admit_allocation_lem d r.0 q k c r.1 in
        let refuse : (x : ZeroError)
            → with_domain id (admit_allocation q c) s.accounting
              ≡ (some (err x), replace_domain id d s.accounting)
            → Declined s (admit id e q c s) =
          λ x there. rw (there) (refused id e q k d f named r x) in
        elim (Bool-cases (all_le q.dimensions d.avail_capacity.dimensions)) [
          | inr h ↦ inl (refuse invalid_request (ground arith))
          | inl h ↦
              elim (outcome-cases (check_coupling c (plus d.alloc_capacity q)) (
                safe (plus d.alloc_capacity q)
                  (plus-IsShaped d.alloc_capacity q r.0.alloc_shaped k))) [
                    | inr (x, b) ↦ inl (refuse x (ground arith))
                    | inl (u, b) ↦
                        let there : with_domain id (admit_allocation q c) s.accounting
                            ≡ (some (ok tt), replace_domain id (admitted d q false) s.accounting) =
                          ground arith in
                        inr (d, f, h, rw there)
                  ]
        ]
  ]

module _ (s : LeaseEngine) (v : IsConsistent s) (r : Request) where
  abbrev pub deadline : ℕ
  deadline = r.current_tick + r.duration_ticks

  abbrev pub charged : LeaseEngine
  charged = record s {
    accounting = (check_and_charge_quota r.entity_id r.requested_amount s.accounting).1;
  }

  -- The three ways in which a request ends before its admission, and the way on.
  pub request_lease-refused :
      r.caller_has_coverage ≡ false → request_lease r s ≡ (err permission_denied, s)
  unfolding request_lease
  request_lease-refused h = ground arith

  pub request_lease-overflow :
      r.caller_has_coverage ≡ true
      → ltb deadline u64_mod ≡ false
      → request_lease r s ≡ (err deadline_exhaustion, s)
  unfolding request_lease
  request_lease-overflow h k = ground arith

  pub request_lease-over_quota :
      (x : ZeroError)
      → r.caller_has_coverage ≡ true
      → ltb deadline u64_mod ≡ true
      → (check_and_charge_quota r.entity_id r.requested_amount s.accounting).0 ≡ err x
      → request_lease r s ≡ (err x, charged)
  unfolding request_lease
  request_lease-over_quota x h k e = ground arith

  -- How a request answers: with the lease, if the caller has coverage and the deadline is a u64, and
  -- one lease more; or with an error and the leases as they were.
  abbrev pub Answered : Outcome ZeroError ResourceLease × LeaseEngine → Type 0
  Answered result =
      ((result.0 ≡ ok (granted r deadline))
        × (result.1.lease_count ≡ s.lease_count + 1)
        × (r.caller_has_coverage ≡ true)
        × (ltb deadline u64_mod ≡ true))
      ⊎ ((x : ZeroError) × (result.0 ≡ err x) × (result.1.leases ≡ s.leases))

  module _ (k : IsShaped r.requested_amount) (safe : IsEvaluable r.coupling)
      (covered : r.caller_has_coverage ≡ true) (short : ltb deadline u64_mod ≡ true) where
    pub charged-IsConsistent : IsConsistent charged
    charged-IsConsistent = record {
      ledger =
          (check_and_charge_quota-IsLedger s.leases s.accounting v.ledger r.entity_id
            r.requested_amount k).0;
      counted = v.counted;
    }

    -- Behind a charge that succeeds.
    request_lease-charged :
        (check_and_charge_quota r.entity_id r.requested_amount s.accounting).0 ≡ ok tt
        → IsConsistent (request_lease r s).1 × Answered (request_lease r s)
    unfolding request_lease
    request_lease-charged paid =
        let c = charged-IsConsistent in
        elim (admit_lem charged c r.resource_id r.entity_id r.requested_amount r.coupling k safe) [
          | inl ((x, e), kept, same) ↦
              let ends : request_lease r s ≡ (
                err x,
                (admit r.resource_id r.entity_id r.requested_amount r.coupling charged).1,
              ) =
                ground arith in
              rw ends (kept, inr (x, refl, same))
          | inr (d, f, h, e) ↦
              let stored = store_lease_lem charged c (granted r deadline) d refl k f h in
              let goes : request_lease r s
                  ≡ store_lease (granted r deadline)
                      (with_admission charged c (granted r deadline) d refl k f h) =
                ground arith in
              rw goes (
                stored.0,
                elim stored.1 [
                  | inl (o, n) ↦ inl (o, n, covered, short)
                  | inr (o, n) ↦ inr (object_table_full, o, n)
                ],
              )
        ]

  -- A request of the right shape, whose constraints can be evaluated, keeps the engine consistent on
  -- every path and does not panic: it gives the lease asked for, with one lease more in the table, or
  -- an error, with the leases as they were.
  pub request_lease_lem :
      IsShaped r.requested_amount
      → IsEvaluable r.coupling
      → IsConsistent (request_lease r s).1 × Answered (request_lease r s)
  request_lease_lem k safe = elim (Bool-cases r.caller_has_coverage) [
    | inr h ↦ rw (request_lease-refused h) (v, inr (permission_denied, refl, refl))
    | inl covered ↦ elim (Bool-cases (ltb deadline u64_mod)) [
      | inr h ↦ rw (request_lease-overflow covered h) (v, inr (deadline_exhaustion, refl, refl))
      | inl short ↦
          let (ledger, sure) =
            check_and_charge_quota-IsLedger s.leases s.accounting v.ledger r.entity_id
              r.requested_amount k in
          elim (outcome-cases (check_and_charge_quota r.entity_id r.requested_amount s.accounting).0
            sure) [
              | inl (u, paid) ↦ request_lease-charged k safe covered short paid
              | inr (x, e) ↦
                  rw (request_lease-over_quota x covered short e)
                    (record { ledger = ledger; counted = v.counted }, inr (x, refl, refl))
            ]
    ]
  ]
