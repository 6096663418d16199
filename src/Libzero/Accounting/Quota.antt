-- ===== src/Libzero/Accounting/Quota.antt =====
-- Quotas of libzero/src/accounting.rs: charging and releasing an amount of the right shape.
use project_zero.Base.{
  ℕ, ◌≡◌, ◌≢◌, refl, ap, List, [], ◌∷◌, ◌&&◌, ◌==◌, arith, All, ok, err, panic, if◌then◌else◌, inl,
  inr, Bool-cases,
}
use project_zero.Base.Loops.{on_first, on_first-All, on_first-outcome}
use project_zero.Libzero.Error.{quota_exceeded, deadline_exhaustion, vector_conservation_violated}
use project_zero.Libzero.Resource.{DimensionCapacityVector}
use project_zero.Libzero.Resource.Vectors.{
  IsShaped, plus, minus, all_fit, all_le, checked_add_lem, checked_sub_lem, le_lem, plus-IsShaped,
  minus-IsShaped,
}
use project_zero.Libzero.Accounting.{
  EntityQuota, AccountingManager, has_entity, charge, discharge, check_and_charge_quota,
  release_quota,
}

pub record ShapedQuota (q : EntityQuota) : Type 0 where
  pub max_shaped : IsShaped q.max_capacity
  pub used_shaped : IsShaped q.used_capacity

-- The quotas with an amount taken off what the first active quota of an entity uses, if it uses as
-- much.
unfoldable pub discharged : ℕ → DimensionCapacityVector → List EntityQuota → List EntityQuota
discharged entity_id amount [] = []
discharged entity_id amount (q ∷ qs) =
    let rest = discharged entity_id amount qs in
    if q.active && q.entity_id == entity_id
    then (if all_le amount.dimensions q.used_capacity.dimensions
        then record q { used_capacity = minus q.used_capacity amount } ∷ qs
        else q ∷ qs)
    else q ∷ rest

module _ (amount : DimensionCapacityVector) (s : IsShaped amount) where
  -- A charge of a shaped quota is made where the sum fits a u64 and stays within the limit in every
  -- place; else the quota is left as it was.
  pub charge_lem :
      (q : EntityQuota)
      → ShapedQuota q
      → charge amount q ≡ (
          if all_fit (plus q.used_capacity amount).dimensions
          then (if all_le (plus q.used_capacity amount).dimensions q.max_capacity.dimensions
              then (ok tt, record q { used_capacity = plus q.used_capacity amount })
              else (err quota_exceeded, q))
          else (err deadline_exhaustion, q))
  unfolding charge
  charge_lem q v = ground (
    arith,
    checked_add_lem q.used_capacity amount v.used_shaped s,
    le_lem (plus q.used_capacity amount) q.max_capacity
        (plus-IsShaped q.used_capacity amount v.used_shaped s) v.max_shaped,
  )

  -- A discharge of a shaped quota takes the amount off the used capacity where it is held in every
  -- place; else the quota is left as it was.
  pub discharge_lem :
      (q : EntityQuota)
      → ShapedQuota q
      → discharge amount q ≡ (
          if all_le amount.dimensions q.used_capacity.dimensions
          then (ok tt, record q { used_capacity = minus q.used_capacity amount })
          else (err vector_conservation_violated, q))
  unfolding discharge
  discharge_lem q v = ground (arith, checked_sub_lem q.used_capacity amount v.used_shaped s)

  charge-ShapedQuota : (q : EntityQuota) → ShapedQuota q → ShapedQuota (charge amount q).1
  charge-ShapedQuota q v = elim (Bool-cases (all_fit (plus q.used_capacity amount).dimensions)) [
    | inl f ↦
        elim (Bool-cases
          (all_le (plus q.used_capacity amount).dimensions q.max_capacity.dimensions)) [
            | inl g ↦
                rw (charge_lem q v, f, g)
                  (record {
                    max_shaped = v.max_shaped;
                    used_shaped = plus-IsShaped q.used_capacity amount v.used_shaped s;
                  })
            | inr g ↦ rw (charge_lem q v, f, g) v
          ]
    | inr f ↦ rw (charge_lem q v, f) v
  ]

  discharge-ShapedQuota : (q : EntityQuota) → ShapedQuota q → ShapedQuota (discharge amount q).1
  discharge-ShapedQuota q v =
      elim (Bool-cases (all_le amount.dimensions q.used_capacity.dimensions)) [
        | inl f ↦
            rw (discharge_lem q v, f)
              (record {
                max_shaped = v.max_shaped;
                used_shaped = minus-IsShaped q.used_capacity amount v.used_shaped s;
              })
        | inr f ↦ rw (discharge_lem q v, f) v
      ]

  charge-ne-panic : (q : EntityQuota) → ShapedQuota q → (charge amount q).0 ≢ panic
  charge-ne-panic q v = ground (arith, charge_lem q v)

  discharge-ne-panic : (q : EntityQuota) → ShapedQuota q → (discharge amount q).0 ≢ panic
  discharge-ne-panic q v = ground (arith, discharge_lem q v)

  module _ (e : ℕ) (m : AccountingManager) (v : All ShapedQuota m.quotas) where
    -- Neither charging nor releasing panics, and both keep the quotas in shape.
    pub check_and_charge_quota-ShapedQuota :
        All ShapedQuota (check_and_charge_quota e amount m).1.quotas
        × ((check_and_charge_quota e amount m).0 ≢ panic)
    unfolding check_and_charge_quota
    check_and_charge_quota-ShapedQuota = (
      on_first-All (has_entity e) (charge amount) (ok tt) ShapedQuota (λ q _. charge-ShapedQuota q)
          m.quotas v,
      on_first-outcome (has_entity e) (charge amount) (ok tt) ShapedQuota (λ o. o ≢ panic) (λ h. cc)
          charge-ne-panic m.quotas v,
    )

    pub release_quota-ShapedQuota :
        All ShapedQuota (release_quota e amount m).1.quotas × ((release_quota e amount m).0 ≢ panic)
    unfolding release_quota
    release_quota-ShapedQuota = (
      on_first-All (has_entity e) (discharge amount) (ok tt) ShapedQuota
          (λ q _. discharge-ShapedQuota q) m.quotas v,
      on_first-outcome (has_entity e) (discharge amount) (ok tt) ShapedQuota (λ o. o ≢ panic)
          (λ h. cc) discharge-ne-panic m.quotas v,
    )

  discharge_first :
      (entity_id : ℕ) (qs : List EntityQuota)
      → All ShapedQuota qs
      → (on_first (has_entity entity_id) (discharge amount) (ok tt) qs).1
        ≡ discharged entity_id amount qs
  unfolding on_first discharged
  discharge_first entity_id [] h = refl
  discharge_first entity_id (q ∷ qs) h =
      ground (arith, discharge_lem q h.0, discharge_first entity_id qs h.1)

  -- `release_quota` changes the quotas only.
  pub release_quota_lem :
      (entity_id : ℕ) (m : AccountingManager)
      → All ShapedQuota m.quotas
      → (release_quota entity_id amount m).1
        ≡ record m { quotas = discharged entity_id amount m.quotas }
  unfolding release_quota
  release_quota_lem entity_id m v =
      ap (λ qs. record m { quotas = qs }) (discharge_first entity_id m.quotas v)
