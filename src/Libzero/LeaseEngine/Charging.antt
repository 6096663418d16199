-- ===== src/Libzero/LeaseEngine/Charging.antt =====
-- What `request_lease` of libzero/src/lease_engine.rs does to the quota of the entity.
use project_zero.Base.{
  ◌≢◌, ℕ, ◌≡◌, refl, ap, ◌∙◌, ◌&&◌, ◌==◌, if◌then◌else◌, List, [], ◌∷◌, Option, none, some, arith,
  length, All, Bool-cases, inl, inr, Outcome, ok, err,
}
use project_zero.Base.Method.{◌>>◌, fail}
use project_zero.Base.Loops.{on_first, ignore}
use project_zero.Libzero.Error.{ZeroError, not_found}
use project_zero.Libzero.Resource.{DistributedId, DimensionCapacityVector}
use project_zero.Libzero.Resource.Vectors.{IsShaped, add_all}
use project_zero.Libzero.Accounting.{
  AccountingManager, EntityQuota, has_entity, charge, with_domain, release_quota,
}
use project_zero.Libzero.Accounting.Domain.{DomainMethod}
use project_zero.Libzero.Accounting.Quota.{
  ShapedQuota, charge_lem, discharged, release_quota_lem, release_quota-ShapedQuota,
}
use project_zero.Libzero.LeaseEngine.{LeaseEngine, try_accounting}
use project_zero.Libzero.LeaseEngine.Slots.{sub_all-add_all, all_le-add_all, add_all_comm}

-- The capacity that the first active quota of an entity counts as used.
unfoldable pub used_of : ℕ → List EntityQuota → Option (List ℕ)
used_of e [] = none
used_of e (q ∷ qs) =
    let rest = used_of e qs in
    if q.active && q.entity_id == e then some q.used_capacity.dimensions else rest

pub length-used_of :
    (e : ℕ) (qs : List EntityQuota) (d : List ℕ)
    → All ShapedQuota qs
    → used_of e qs ≡ some d
    → length d ≡ 8
unfolding used_of
length-used_of e [] d h u = absurd cc
length-used_of e (q ∷ qs) d h u = elim (Bool-cases (q.active && q.entity_id == e)) [
  | inl t ↦ ground (arith, h.0.used_shaped.long)
  | inr t ↦ length-used_of e qs d h.1 (ground arith)
]

module _ (e : ℕ) (a : DimensionCapacityVector) (k : IsShaped a) (d : List ℕ) where
  -- A charge adds its amount, or is refused and changes nothing.
  pub used_of-charge :
      (qs : List EntityQuota)
      → All ShapedQuota qs
      → used_of e qs ≡ some d
      → (on_first (has_entity e) (charge a) (ok tt) qs).0 ≡ ok tt
      → used_of e (on_first (has_entity e) (charge a) (ok tt) qs).1 ≡ some (add_all d a.dimensions)
  unfolding used_of on_first
  used_of-charge [] h u c = absurd cc
  used_of-charge (q ∷ qs) h u c = elim (Bool-cases (q.active && q.entity_id == e)) [
    | inl t ↦ ground (arith, charge_lem a k q h.0)
    | inr t ↦ ground (arith, used_of-charge qs h.1)
  ]

  pub used_of-refused :
      (x : ZeroError) (qs : List EntityQuota)
      → All ShapedQuota qs
      → (on_first (has_entity e) (charge a) (ok tt) qs).0 ≡ err x
      → ((on_first (has_entity e) (charge a) (ok tt) qs).1 ≡ qs) × (x ≢ not_found)
  unfolding on_first
  used_of-refused x [] h c = absurd cc
  used_of-refused x (q ∷ qs) h c = elim (Bool-cases (q.active && q.entity_id == e)) [
    | inl t ↦ (ground (arith, charge_lem a k q h.0), λ n. ground (arith, charge_lem a k q h.0))
    | inr t ↦
        let (same, other) = used_of-refused x qs h.1 (ground arith) in (ground (arith, same), other)
  ]

  -- A discharge of what was charged takes it back.
  used_of-discharged :
      (qs : List EntityQuota)
      → length d ≡ 8
      → used_of e qs ≡ some (add_all d a.dimensions)
      → used_of e (discharged e a qs) ≡ some d
  unfolding used_of discharged
  used_of-discharged [] l u = absurd cc
  used_of-discharged (q ∷ qs) l u =
      let turned = add_all_comm d a.dimensions in
      let back = sub_all-add_all a.dimensions d (omega (arith, k.long)) in
      let fits = all_le-add_all a.dimensions d in
      elim (Bool-cases (q.active && q.entity_id == e)) [
        | inl h ↦ ground (arith, turned, back, fits)
        | inr h ↦ ground (arith, used_of-discharged qs l)
      ]

  given_back :
      (m : AccountingManager)
      → All ShapedQuota m.quotas
      → length d ≡ 8
      → used_of e m.quotas ≡ some (add_all d a.dimensions)
      → used_of e (release_quota e a m).1.quotas ≡ some d
  given_back m h l u =
      ap (λ (n : AccountingManager). used_of e n.quotas) (release_quota_lem a k e m h)
      ∙ used_of-discharged m.quotas l u

  -- A quota that is given back for an error: the error, and the use before the charge.
  pub undone :
      {A : Type 0} (x : ZeroError) (c : LeaseEngine)
      → All ShapedQuota c.accounting.quotas
      → length d ≡ 8
      → used_of e c.accounting.quotas ≡ some (add_all d a.dimensions)
      → let result : Outcome ZeroError A × LeaseEngine =
          (try_accounting (release_quota e a) >> fail x) c in
        (result.0 ≡ err x) × (used_of e result.1.accounting.quotas ≡ some d)
  undone x c h l u =
      let sure = (release_quota-ShapedQuota a k e c.accounting h).1 in
      let tried : ignore (release_quota e a c.accounting).0 ≡ ok tt = ground arith in
      rw tried (refl, given_back c.accounting h l u)

pub with_domain-quotas :
    (id : DistributedId) (call : DomainMethod) (m : AccountingManager)
    → (with_domain id call m).1.quotas ≡ m.quotas
unfolding with_domain
with_domain-quotas id call m = refl
