-- ===== src/Libzero/LeaseEngine/ProviderLoss.antt =====
-- `handle_provider_loss` and `confirm_driver_release` of libzero/src/lease_engine.rs.
use project_zero.Base.{
  ℕ, ◌≡◌, refl, sym, subst, ◌∙◌, true, false, ◌&&◌, List, [], ◌∷◌, ◌++◌, Option, none, some, arith,
  All, if◌then◌else◌, Bool-cases, Option-cases, inl, inr, Outcome, ok, err,
}
use project_zero.Base.Method.{>>-eq_of_ok}
use project_zero.Libzero.Error.{ZeroError, not_found, vector_conservation_violated}
use project_zero.Libzero.Resource.{DistributedId, DimensionCapacityVector, id_eq}
use project_zero.Libzero.Resource.Vectors.{IsShaped, all_le}
use project_zero.Libzero.Lease.{ResourceLease, provider_lost}
use project_zero.Libzero.Accounting.{AccountingManager, with_domain, record_quarantine}
use project_zero.Libzero.Accounting.Domain.{quarantine_on_provider_lost, confirm_physical_release}
use project_zero.Libzero.Accounting.Domain.Invariant.{
  lost, lost-IsBalanced, quarantine_on_provider_lost_lem,
}
use project_zero.Libzero.Accounting.Domain.Moves.{
  confirmed, confirmed-IsBalanced, confirm_physical_release_lem,
}
use project_zero.Libzero.Accounting.Lookup.{
  IsSound, find_domain, replace_domain, with_domain_lem, find_domain-Ready, replace_domain-IsSound,
  id_eq_sound, id_eq_refl,
}
use project_zero.Libzero.LeaseEngine.{
  LeaseEngine, is_active, sweep_slots, lose_lease, on_accounting, try_domain, handle_provider_loss,
  confirm_driver_release, on_slots,
}
use project_zero.Libzero.LeaseEngine.Slots.{
  slot_sum, active_sum, active_sum-middle, zeros8, ShapedSlot, All-append,
}
use project_zero.Libzero.LeaseEngine.Ledger.{IsLedger, alloc_of, alloc_of-replace_domain}
use project_zero.Libzero.LeaseEngine.Invariant.{IsConsistent, replaced, occupied, occupied-middle}
use project_zero.Libzero.LeaseEngine.Sweep.{
  sweep_from, sweep_slots-Unheld, Unheld, active_sum-Unheld,
}
use project_zero.Libzero.LeaseEngine.Quarantine.{note_quarantine-ok}

-- While the loop runs: nothing is allocated of the lost resource, and all others are in order.
record IsLosing (lost_id : DistributedId) (n : ℕ) (slots : List (Option ResourceLease))
    (m : AccountingManager) : Type 0 where
  sound : IsSound m
  shaped : All ShapedSlot slots
  others : (id : DistributedId) → id_eq lost_id id ≡ false → alloc_of id m ≡ active_sum id slots
  gone : alloc_of lost_id m ≡ zeros8
  counted : n ≡ occupied slots

module _ (id : DistributedId) (n : ℕ) where
  -- The domain is swept first.
  domain-IsLosing :
      (slots : List (Option ResourceLease)) (m : AccountingManager)
      → IsLedger slots m
      → n ≡ occupied slots
      → ((try_domain id quarantine_on_provider_lost m).0 ≡ ok tt)
        × IsLosing id n slots (try_domain id quarantine_on_provider_lost m).1
  domain-IsLosing slots m v c = elim (Option-cases (find_domain id m)) [
    | inl e ↦
        let same : with_domain id quarantine_on_provider_lost m ≡ (none, m) =
          ground (arith, with_domain_lem id quarantine_on_provider_lost m v.sound) in
        rw (same, try_domain)
          (
            refl,
            record {
              sound = v.sound;
              shaped = v.shaped;
              others = λ j _. v.matched j;
              gone = ground arith;
              counted = c;
            },
          )
    | inr (d, e) ↦
        let (r, named) = find_domain-Ready id m d v.sound e in
        let went : with_domain id quarantine_on_provider_lost m
            ≡ (some (ok tt), replace_domain id (lost d) m) =
          ground (
            arith,
            with_domain_lem id quarantine_on_provider_lost m v.sound,
            quarantine_on_provider_lost_lem d r.0,
          ) in
        rw (went, try_domain)
          (
            refl,
            record {
              sound = replace_domain-IsSound id (lost d) m v.sound (lost-IsBalanced d r.0, r.1);
              shaped = v.shaped;
              others = λ j h.
                  ground (arith, alloc_of-replace_domain id j d (lost d) m named e, v.matched j);
              gone =
                  ground (arith, alloc_of-replace_domain id id d (lost d) m named e, id_eq_refl id);
              counted = c;
            },
          )
  ]

  -- Each lease on it is marked as lost.
  lose_lease-IsLosing :
      (xs ys : List (Option ResourceLease)) (l : ResourceLease) (m : AccountingManager)
      → (id_eq l.resource_id id && is_active l.state) ≡ true
      → IsLosing id n (xs ++ (some l ∷ ys)) m
      → ((lose_lease l m).0 ≡ ok tt)
        × IsLosing id n (xs ++ (some (lose_lease l m).1 ∷ ys)) (lose_lease l m).2
  unfolding lose_lease record_quarantine slot_sum
  lose_lease-IsLosing xs ys l m t v = (
    note_quarantine-ok l 2 m,
    record {
      sound = record {
        counted = v.sound.counted;
        ready = v.sound.ready;
        quotas_shaped = v.sound.quotas_shaped;
      };
      shaped =
          let (p, q) = (All-append ShapedSlot xs (some l ∷ ys)).0 v.shaped in
          (All-append ShapedSlot xs (some (record l { state = provider_lost }) ∷ ys)).1 (p, q);
      others = λ j h. ground (
        arith,
        v.others j h,
        id_eq_sound l.resource_id id,
        active_sum-middle j xs (some l) ys,
        active_sum-middle j xs (some (record l { state = provider_lost })) ys,
      );
      gone = v.gone;
      counted =
          v.counted
          ∙ occupied-middle xs ys l
          ∙ sym (occupied-middle xs ys (record l { state = provider_lost }));
    },
  )

module _ (s : LeaseEngine) (v : IsConsistent s) (id : DistributedId) where
  -- On the loss of a provider every active lease on its resource ends, the engine stays consistent,
  -- and nothing of the resource is left allocated.
  pub handle_provider_loss_lem :
      ((handle_provider_loss id s).0 ≡ ok tt)
      × IsConsistent (handle_provider_loss id s).1
      × All
          (Unheld (λ l. id_eq l.resource_id id && is_active l.state))
          (handle_provider_loss id s).1.leases
      × (alloc_of id (handle_provider_loss id s).1.accounting ≡ zeros8)
  unfolding handle_provider_loss lose_lease
  handle_provider_loss_lem =
      let first = domain-IsLosing id s.lease_count s.leases s.accounting v.ledger v.counted in
      let mid = (try_domain id quarantine_on_provider_lost s.accounting).1 in
      let (done, kept) =
        sweep_from (λ l. id_eq l.resource_id id && is_active l.state) lose_lease
          (IsLosing id s.lease_count) (lose_lease-IsLosing id s.lease_count) [] s.leases mid
          first.1 in
      let idle =
        sweep_slots-Unheld (λ l. id_eq l.resource_id id && is_active l.state) lose_lease
          (λ l m. ground arith) s.leases mid done in
      let after =
        (sweep_slots (λ l. id_eq l.resource_id id && is_active l.state) lose_lease s.leases mid) in
      let ledger : IsLedger after.1 after.2 = record {
        sound = kept.sound;
        shaped = kept.shaped;
        matched = λ j. elim (Bool-cases (id_eq id j)) [
          | inl e ↦
              subst (λ k. alloc_of k after.2 ≡ active_sum k after.1) (id_eq_sound id j e)
                (kept.gone ∙ sym (active_sum-Unheld id after.1 idle))
          | inr e ↦ kept.others j e
        ];
      } in
      rw
        (>>-eq_of_ok (on_accounting (try_domain id quarantine_on_provider_lost))
          (on_slots (sweep_slots (λ l. id_eq l.resource_id id && is_active l.state) lose_lease)) s
          first.0)
        (done, record { ledger = ledger; counted = kept.counted }, idle, kept.gone)

  -- What `confirm_driver_release` answers: whether the resource has a domain, and whether the amount
  -- is unavailable there.
  abbrev pub confirm_answer : DimensionCapacityVector → Outcome ZeroError (Unit {0})
  confirm_answer amount = elim (find_domain id s.accounting) [
    | none ↦ err not_found
    | some d ↦
        if all_le amount.dimensions d.unavail_capacity.dimensions
        then ok tt
        else err vector_conservation_violated
  ]

  -- A confirmation by the driver keeps the engine consistent, and succeeds exactly where the domain
  -- exists and holds the amount as unavailable.
  pub confirm_driver_release_lem :
      (amount : DimensionCapacityVector)
      → IsShaped amount
      → IsConsistent (confirm_driver_release id amount s).1
        × ((confirm_driver_release id amount s).0 ≡ confirm_answer amount)
  unfolding confirm_driver_release
  confirm_driver_release_lem amount q = elim (Option-cases (find_domain id s.accounting)) [
    | inl e ↦
        let same : with_domain id (confirm_physical_release amount) s.accounting
            ≡ (none, s.accounting) =
          ground (
            arith,
            with_domain_lem id (confirm_physical_release amount) s.accounting v.ledger.sound,
          ) in
        rw (same, confirm_driver_release) (v, ground arith)
    | inr (d, e) ↦
        let (r, named) = find_domain-Ready id s.accounting d v.ledger.sound e in
        let went =
          with_domain_lem id (confirm_physical_release amount) s.accounting v.ledger.sound in
        let call = confirm_physical_release_lem d r.0 amount q in
        elim (Bool-cases (all_le amount.dimensions d.unavail_capacity.dimensions)) [
          | inl h ↦
              let there : with_domain id (confirm_physical_release amount) s.accounting
                  ≡ (some (ok tt), replace_domain id (confirmed d amount) s.accounting) =
                ground arith in
              rw (there, confirm_driver_release)
                (
                  replaced s v id d (confirmed d amount) e named
                      (confirmed-IsBalanced d r.0 amount q h, r.1) refl,
                  ground arith,
                )
          | inr h ↦
              let there : with_domain id (confirm_physical_release amount) s.accounting
                  ≡ (some (err vector_conservation_violated), replace_domain id d s.accounting) =
                ground arith in
              rw (there, confirm_driver_release) (replaced s v id d d e named r refl, ground arith)
        ]
  ]
