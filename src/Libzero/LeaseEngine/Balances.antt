-- ===== src/Libzero/LeaseEngine/Balances.antt =====
-- `request_lease` of libzero/src/lease_engine.rs: what each way out leaves of the charge.
use project_zero.Base.{
  ℕ, ◌≡◌, ◌≢◌, refl, sym, ◌∙◌, true, false, List, none, some, arith, ltb, length, All, Bool-cases,
  Option-cases, inl, inr, ◌⊎◌, Outcome, ok, err, panic,
}
use project_zero.Base.Results.{Outcome-cases}
use project_zero.Base.Words.{u64_mod}
use project_zero.Libzero.Error.{ZeroError, not_found, object_table_full}
use project_zero.Libzero.Resource.{DistributedId}
use project_zero.Libzero.Resource.Vectors.{IsShaped, add_all}
use project_zero.Libzero.Lease.{ResourceLease}
use project_zero.Libzero.Accounting.{AccountingManager, check_and_charge_quota, with_domain}
use project_zero.Libzero.Accounting.Quota.{ShapedQuota, check_and_charge_quota-ShapedQuota}
use project_zero.Libzero.Accounting.Domain.{DomainMethod, admit_allocation, release_allocation}
use project_zero.Libzero.Accounting.Domain.Moves.{admitted}
use project_zero.Libzero.Accounting.Lookup.{IsSound, find_domain, replace_domain, with_domain_lem}
use project_zero.Libzero.LeaseEngine.{
  LeaseEngine, Request, granted, admit, admit_result, place, store_lease, undo_admission,
  request_lease, try_domain,
}
use project_zero.Libzero.LeaseEngine.Invariant.{IsConsistent}
use project_zero.Libzero.LeaseEngine.Requests.{
  IsEvaluable, admit_lem, request_lease_lem, request_lease-refused, request_lease-overflow,
  request_lease-over_quota, charged, deadline, charged-IsConsistent,
}
use project_zero.Libzero.LeaseEngine.Charging.{
  used_of, length-used_of, used_of-charge, used_of-refused, undone, with_domain-quotas,
}

-- A call whose error is ignored gives none.
try_domain-cases :
    (id : DistributedId) (call : DomainMethod) (m : AccountingManager)
    → ((try_domain id call m).0 ≡ ok tt) ⊎ ((try_domain id call m).0 ≡ panic)
try_domain-cases id call m = elim (Option-cases (with_domain id call m).0) [
  | inl n ↦ inl (rw (try_domain, n) refl)
  | inr (o, f) ↦ elim (Outcome-cases o) [
    | inl (u, e) ↦ inl (rw (try_domain, f, e) refl)
    | inr (inl (x, e)) ↦ inl (rw (try_domain, f, e) refl)
    | inr (inr e) ↦ inr (rw (try_domain, f, e) refl)
  ]
]

module _ (s : LeaseEngine) (v : IsConsistent s) (r : Request) (k : IsShaped r.requested_amount)
    (d : List ℕ) (held : used_of r.entity_id s.accounting.quotas ≡ some d) where
  abbrev IsUsed : List ℕ → LeaseEngine → Type 0
  IsUsed amount c = used_of r.entity_id c.accounting.quotas ≡ some amount

  abbrev more : List ℕ
  more = add_all d r.requested_amount.dimensions

  -- The answer of a request for a resource without a domain, and the other errors.
  abbrev IsMissing : ZeroError → Type 0
  IsMissing x = (x ≡ not_found) × (find_domain r.resource_id s.accounting ≡ none)

  -- A success adds the amount to the use; an error leaves the use, unless it is the one of a resource
  -- without a domain, which adds the amount too.
  abbrev pub Charges : {A : Type 0} → Outcome ZeroError A × LeaseEngine → Type 0
  Charges (ok _, c) = IsUsed more c
  Charges (err x, c) = (IsUsed d c × ¬ IsMissing x) ⊎ (IsUsed more c × IsMissing x)
  Charges (panic, c) = Unit

  error-Charges :
      {A : Type 0} (x : ZeroError) (result : Outcome ZeroError A × LeaseEngine)
      → result.0 ≡ err x
      → ¬ IsMissing x
      → IsUsed d result.1
      → Charges result
  error-Charges x (ok a, c) e g u = absurd cc
  error-Charges x (err y, c) e g u = inl (u, λ m. g (ground arith, m.1))
  error-Charges x (panic, c) e g u = tt

  long : length d ≡ 8
  long = length-used_of r.entity_id s.accounting.quotas d v.ledger.sound.quotas_shaped held

  admit-Charges :
      (c : LeaseEngine)
      → IsSound c.accounting
      → find_domain r.resource_id c.accounting ≡ find_domain r.resource_id s.accounting
      → IsUsed more c
      → Charges (admit r.resource_id r.entity_id r.requested_amount r.coupling c)
  unfolding admit admit_result
  admit-Charges c sound same u =
      let id = r.resource_id in
      let call = admit_allocation r.requested_amount r.coupling in
      elim (Option-cases (find_domain id c.accounting)) [
        | inl n ↦
            let gone : with_domain id call c.accounting ≡ (none, c.accounting) =
              ground (arith, with_domain_lem id call c.accounting sound) in
            rw gone (inr (u, (refl, sym same ∙ n)))
        | inr (dom, f) ↦
            let m = replace_domain id (call dom).1 c.accounting in
            let went : with_domain id call c.accounting ≡ (some (call dom).0, m) =
              ground (arith, with_domain_lem id call c.accounting sound) in
            elim (Outcome-cases (call dom).0) [
              | inl (_, e) ↦ rw (went, e) u
              | inr (inl (x, e)) ↦
                  let (ends, now) =
                    undone r.entity_id r.requested_amount k d {A = Unit {0}} x
                      (record c { accounting = m }) sound.quotas_shaped long u in
                  rw (went, e)
                    (error-Charges x _ ends (λ g. absurd (ground (arith, same, f, g.1))) now)
              | inr (inr e) ↦ rw (went, e) tt
            ]
      ]

  store_lease-Charges :
      (t : ℕ) (c : LeaseEngine)
      → All ShapedQuota c.accounting.quotas
      → IsUsed more c
      → Charges (store_lease (granted r t) c)
  unfolding store_lease undo_admission
  store_lease-Charges t c h u =
      let call = release_allocation r.requested_amount in
      elim (Bool-cases (place (granted r t) c.leases).0) [
        | inl q ↦ rw q u
        | inr q ↦ elim (try_domain-cases r.resource_id call c.accounting) [
          | inl e ↦
              let m = (try_domain r.resource_id call c.accounting).1 in
              let kept = with_domain-quotas r.resource_id call c.accounting in
              let (ends, now) =
                undone r.entity_id r.requested_amount k d {A = ResourceLease} object_table_full
                  (record c { accounting = m }) (rw kept h) long (rw kept u) in
              rw (q, e) (error-Charges object_table_full _ ends (λ g. absurd cc) now)
          | inr e ↦ rw (q, e) tt
        ]
      ]

  as_answer :
      (x : ZeroError) (result : Outcome ZeroError (Unit {0}) × LeaseEngine)
      → result.0 ≡ err x
      → Charges result
      → Charges {A = ResourceLease} (err x, result.1)
  as_answer x (ok a, c) e w = absurd cc
  as_answer x (err y, c) e (inl (u, g)) = inl (u, λ m. g (ground arith, m.1))
  as_answer x (err y, c) e (inr (u, m)) = inr (u, (ground arith, m.1))
  as_answer x (panic, c) e w = absurd cc

  module _ (safe : IsEvaluable r.coupling) (covered : r.caller_has_coverage ≡ true)
      (short : ltb (deadline s v r) u64_mod ≡ true)
      (paid : (check_and_charge_quota r.entity_id r.requested_amount s.accounting).0 ≡ ok tt) where
    abbrev c : LeaseEngine
    c = charged s v r

    IsUsed-more : IsUsed more c
    unfolding check_and_charge_quota
    IsUsed-more =
        used_of-charge r.entity_id r.requested_amount k d s.accounting.quotas
          v.ledger.sound.quotas_shaped held paid

    same_domain : find_domain r.resource_id c.accounting ≡ find_domain r.resource_id s.accounting
    unfolding check_and_charge_quota
    same_domain = refl

    charged-Charges : Charges (request_lease r s)
    unfolding request_lease
    charged-Charges =
        let w = charged-IsConsistent s v r k safe covered short in
        let tried = admit-Charges c w.ledger.sound same_domain IsUsed-more in
        let asked = admit r.resource_id r.entity_id r.requested_amount r.coupling c in
        elim (admit_lem c w r.resource_id r.entity_id r.requested_amount r.coupling k safe) [
          | inl ((x, e), kept, same) ↦
              let ends : request_lease r s ≡ (err x, asked.1) = ground arith in
              rw ends (as_answer x asked e tried)
          | inr (dom, f, h, e) ↦
              let ends : request_lease r s ≡ store_lease (granted r (deadline s v r)) asked.1 =
                ground arith in
              let m =
                replace_domain r.resource_id (admitted dom r.requested_amount false) c.accounting in
              rw (ends, e)
                (store_lease-Charges (deadline s v r) (record c { accounting = m })
                  w.ledger.sound.quotas_shaped IsUsed-more)
        ]

  -- A request of the right shape, whose constraints can be evaluated, by an entity with a quota does
  -- not panic. Where it succeeds, the use of the entity has grown by the amount; where it fails, the
  -- use is as before, the rollbacks included, with one exception: where the answer is `not_found` for
  -- a resource that has no domain, the use has grown too.
  pub request_lease-Charges :
      IsEvaluable r.coupling → ((request_lease r s).0 ≢ panic) × Charges (request_lease r s)
  unfolding check_and_charge_quota
  request_lease-Charges safe = (
    λ e. elim (request_lease_lem s v r k safe).1 [
      | inl (o, n, covered, short) ↦ absurd cc
      | inr (x, o, n) ↦ absurd cc
    ],
    elim (Bool-cases r.caller_has_coverage) [
      | inr h ↦ rw (request_lease-refused s v r h) (inl (held, λ g. absurd cc))
      | inl covered ↦ elim (Bool-cases (ltb (deadline s v r) u64_mod)) [
        | inr h ↦ rw (request_lease-overflow s v r covered h) (inl (held, λ g. absurd cc))
        | inl short ↦
            elim (Outcome-cases
              (check_and_charge_quota r.entity_id r.requested_amount s.accounting).0) [
                | inl (_, paid) ↦ charged-Charges safe covered short paid
                | inr (inl (x, e)) ↦
                    let kept =
                      used_of-refused r.entity_id r.requested_amount k d x s.accounting.quotas
                        v.ledger.sound.quotas_shaped e in
                    rw (request_lease-over_quota s v r x covered short e)
                      (inl (rw kept.0 held, λ g. kept.1 g.0))
                | inr (inr e) ↦ absurd (
                    (check_and_charge_quota-ShapedQuota r.requested_amount k r.entity_id
                        s.accounting v.ledger.sound.quotas_shaped).1
                      e)
              ]
      ]
    ],
  )
