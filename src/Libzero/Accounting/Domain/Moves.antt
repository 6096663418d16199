-- ===== src/Libzero/Accounting/Domain/Moves.antt =====
-- `AccountingDomain` of libzero/src/accounting.rs: what the operations that move an amount from one
-- share to another do to a domain in balance.
use project_zero.Base.{
  ◌≡◌, ◌∙◌, Bool, true, false, Option, arith, ok, err, panic, if◌then◌else◌, Bool-cases, inl, inr,
}
use project_zero.Libzero.Error.{invalid_request, vector_conservation_violated}
use project_zero.Libzero.Resource.{DimensionCapacityVector}
use project_zero.Libzero.Resource.Vectors.{
  IsShaped, plus, minus, all_le, checked_add_lem, checked_sub_lem, le_lem, plus-IsShaped,
  minus-IsShaped,
}
use project_zero.Libzero.Lease.{CouplingConstraintMatrix}
use project_zero.Libzero.Accounting.Domain.{
  AccountingDomain, check_coupling, admit_allocation, release_allocation, quarantine_allocation,
  confirm_physical_release, reserve_capacity,
}
use project_zero.Libzero.Accounting.Domain.Invariant.{
  IsBalanced, all_fit_shares, assert_conservation-ok,
}
use project_zero.Libzero.Accounting.Domain.Balance.{
  total-admit, total-release, total-quarantine, total-confirm, total-reserve,
}

module _ (d : AccountingDomain) (q : DimensionCapacityVector) where
  -- The domain with the capacity moved from one share to another.
  abbrev pub admitted : Bool → AccountingDomain
  admitted locked = record d {
    avail_capacity = minus d.avail_capacity q;
    alloc_capacity = plus d.alloc_capacity q;
    writer_locked = locked;
  }

  abbrev pub released : AccountingDomain
  released = record d {
    alloc_capacity = minus d.alloc_capacity q;
    avail_capacity = plus d.avail_capacity q;
  }

  abbrev pub quarantined : AccountingDomain
  quarantined = record d {
    alloc_capacity = minus d.alloc_capacity q;
    unavail_capacity = plus d.unavail_capacity q;
  }

  abbrev pub confirmed : AccountingDomain
  confirmed = record d {
    unavail_capacity = minus d.unavail_capacity q;
    avail_capacity = plus d.avail_capacity q;
  }

  abbrev pub reserved : AccountingDomain
  reserved = record d {
    avail_capacity = minus d.avail_capacity q;
    resv_capacity = plus d.resv_capacity q;
  }

module _ (d : AccountingDomain) (v : IsBalanced d) (q : DimensionCapacityVector)
    (s : IsShaped q) where
  module _ (h : all_le q.dimensions d.avail_capacity.dimensions ≡ true) where
    pub admitted-IsBalanced : (locked : Bool) → IsBalanced (admitted d q locked)
    admitted-IsBalanced locked = record {
      phys_shaped = v.phys_shaped;
      avail_shaped = minus-IsShaped d.avail_capacity q v.avail_shaped s;
      resv_shaped = v.resv_shaped;
      alloc_shaped = plus-IsShaped d.alloc_capacity q v.alloc_shaped s;
      unavail_shaped = v.unavail_shaped;
      balanced =
          total-admit d.avail_capacity.dimensions d.resv_capacity.dimensions
            d.alloc_capacity.dimensions d.unavail_capacity.dimensions q.dimensions (omega arith) h
          ∙ v.balanced;
      fits = v.fits;
    }

  -- Admission grants a request to an unlocked domain in balance where it fits the available capacity
  -- and the constraints hold, and otherwise leaves the domain as it was.
  pub admit_allocation_lem :
      (coupling : Option CouplingConstraintMatrix)
      → d.writer_locked ≡ false
      → admit_allocation q coupling d ≡ (
          if all_le q.dimensions d.avail_capacity.dimensions
          then elim (check_coupling coupling (plus d.alloc_capacity q)) [
            | ok _ ↦ (ok tt, admitted d q false)
            | err e ↦ (err e, d)
            | panic ↦ (panic, d)
          ]
          else (err invalid_request, d))
  unfolding admit_allocation
  admit_allocation_lem coupling u =
      elim (Bool-cases (all_le q.dimensions d.avail_capacity.dimensions)) [
        | inl h ↦ ground (
          arith,
          le_lem q d.avail_capacity s v.avail_shaped,
          checked_add_lem d.alloc_capacity q v.alloc_shaped s,
          checked_sub_lem d.avail_capacity q v.avail_shaped s,
          all_fit_shares (admitted d q true) (admitted-IsBalanced h true),
          assert_conservation-ok (admitted d q true) (admitted-IsBalanced h true),
        )
        | inr h ↦ ground (arith, le_lem q d.avail_capacity s v.avail_shaped)
      ]

  pub released-IsBalanced :
      all_le q.dimensions d.alloc_capacity.dimensions ≡ true → IsBalanced (released d q)
  released-IsBalanced h = record {
    phys_shaped = v.phys_shaped;
    avail_shaped = plus-IsShaped d.avail_capacity q v.avail_shaped s;
    resv_shaped = v.resv_shaped;
    alloc_shaped = minus-IsShaped d.alloc_capacity q v.alloc_shaped s;
    unavail_shaped = v.unavail_shaped;
    balanced =
        total-release d.avail_capacity.dimensions d.resv_capacity.dimensions
          d.alloc_capacity.dimensions d.unavail_capacity.dimensions q.dimensions (omega arith) h
        ∙ v.balanced;
    fits = v.fits;
  }

  -- A voluntary release moves the amount from the allocated to the available share of a balanced domain where
  -- the first holds it, and otherwise reports a violation and changes nothing.
  pub release_allocation_lem : release_allocation q d ≡ (
      if all_le q.dimensions d.alloc_capacity.dimensions
      then (ok tt, released d q)
      else (err vector_conservation_violated, d))
  unfolding release_allocation
  release_allocation_lem = elim (Bool-cases (all_le q.dimensions d.alloc_capacity.dimensions)) [
    | inl h ↦ ground (
      arith,
      checked_add_lem d.avail_capacity q v.avail_shaped s,
      checked_sub_lem d.alloc_capacity q v.alloc_shaped s,
      all_fit_shares (released d q) (released-IsBalanced h),
      assert_conservation-ok (released d q) (released-IsBalanced h),
    )
    | inr h ↦ ground (arith, checked_sub_lem d.alloc_capacity q v.alloc_shaped s)
  ]

  pub quarantined-IsBalanced :
      all_le q.dimensions d.alloc_capacity.dimensions ≡ true → IsBalanced (quarantined d q)
  quarantined-IsBalanced h = record {
    phys_shaped = v.phys_shaped;
    avail_shaped = v.avail_shaped;
    resv_shaped = v.resv_shaped;
    alloc_shaped = minus-IsShaped d.alloc_capacity q v.alloc_shaped s;
    unavail_shaped = plus-IsShaped d.unavail_capacity q v.unavail_shaped s;
    balanced =
        total-quarantine d.avail_capacity.dimensions d.resv_capacity.dimensions
          d.alloc_capacity.dimensions d.unavail_capacity.dimensions q.dimensions (omega arith) h
        ∙ v.balanced;
    fits = v.fits;
  }

  -- Quarantine moves the amount from the allocated to the unavailable share of a balanced domain where
  -- the first holds it, and otherwise reports a violation and changes nothing.
  pub quarantine_allocation_lem : quarantine_allocation q d ≡ (
      if all_le q.dimensions d.alloc_capacity.dimensions
      then (ok tt, quarantined d q)
      else (err vector_conservation_violated, d))
  unfolding quarantine_allocation
  quarantine_allocation_lem = elim (Bool-cases (all_le q.dimensions d.alloc_capacity.dimensions)) [
    | inl h ↦ ground (
      arith,
      checked_add_lem d.unavail_capacity q v.unavail_shaped s,
      checked_sub_lem d.alloc_capacity q v.alloc_shaped s,
      all_fit_shares (quarantined d q) (quarantined-IsBalanced h),
      assert_conservation-ok (quarantined d q) (quarantined-IsBalanced h),
    )
    | inr h ↦ ground (arith, checked_sub_lem d.alloc_capacity q v.alloc_shaped s)
  ]

  pub confirmed-IsBalanced :
      all_le q.dimensions d.unavail_capacity.dimensions ≡ true → IsBalanced (confirmed d q)
  confirmed-IsBalanced h = record {
    phys_shaped = v.phys_shaped;
    avail_shaped = plus-IsShaped d.avail_capacity q v.avail_shaped s;
    resv_shaped = v.resv_shaped;
    alloc_shaped = v.alloc_shaped;
    unavail_shaped = minus-IsShaped d.unavail_capacity q v.unavail_shaped s;
    balanced =
        total-confirm d.avail_capacity.dimensions d.resv_capacity.dimensions
          d.alloc_capacity.dimensions d.unavail_capacity.dimensions q.dimensions (omega arith) h
        ∙ v.balanced;
    fits = v.fits;
  }

  -- A driver confirmation moves the amount from the unavailable to the available share of a balanced domain where
  -- the first holds it, and otherwise reports a violation and changes nothing.
  pub confirm_physical_release_lem : confirm_physical_release q d ≡ (
      if all_le q.dimensions d.unavail_capacity.dimensions
      then (ok tt, confirmed d q)
      else (err vector_conservation_violated, d))
  unfolding confirm_physical_release
  confirm_physical_release_lem =
      elim (Bool-cases (all_le q.dimensions d.unavail_capacity.dimensions)) [
        | inl h ↦ ground (
          arith,
          checked_add_lem d.avail_capacity q v.avail_shaped s,
          checked_sub_lem d.unavail_capacity q v.unavail_shaped s,
          all_fit_shares (confirmed d q) (confirmed-IsBalanced h),
          assert_conservation-ok (confirmed d q) (confirmed-IsBalanced h),
        )
        | inr h ↦ ground (arith, checked_sub_lem d.unavail_capacity q v.unavail_shaped s)
      ]

  pub reserved-IsBalanced :
      all_le q.dimensions d.avail_capacity.dimensions ≡ true → IsBalanced (reserved d q)
  reserved-IsBalanced h = record {
    phys_shaped = v.phys_shaped;
    avail_shaped = minus-IsShaped d.avail_capacity q v.avail_shaped s;
    resv_shaped = plus-IsShaped d.resv_capacity q v.resv_shaped s;
    alloc_shaped = v.alloc_shaped;
    unavail_shaped = v.unavail_shaped;
    balanced =
        total-reserve d.avail_capacity.dimensions d.resv_capacity.dimensions
          d.alloc_capacity.dimensions d.unavail_capacity.dimensions q.dimensions (omega arith) h
        ∙ v.balanced;
    fits = v.fits;
  }

  -- A reservation moves the amount from the available to the reserved share of a balanced domain where
  -- the first holds it, and otherwise reports a violation and changes nothing.
  pub reserve_capacity_lem : reserve_capacity q d ≡ (
      if all_le q.dimensions d.avail_capacity.dimensions
      then (ok tt, reserved d q)
      else (err vector_conservation_violated, d))
  unfolding reserve_capacity
  reserve_capacity_lem = elim (Bool-cases (all_le q.dimensions d.avail_capacity.dimensions)) [
    | inl h ↦ ground (
      arith,
      checked_add_lem d.resv_capacity q v.resv_shaped s,
      checked_sub_lem d.avail_capacity q v.avail_shaped s,
      all_fit_shares (reserved d q) (reserved-IsBalanced h),
      assert_conservation-ok (reserved d q) (reserved-IsBalanced h),
    )
    | inr h ↦ ground (arith, checked_sub_lem d.avail_capacity q v.avail_shaped s)
  ]
