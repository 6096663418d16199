-- ===== src/Libzero/LeaseEngine/Sweep.antt =====
-- The loops of libzero/src/lease_engine.rs that go over every slot: an invariant rule, and what they
-- leave of the leases that they test for.
use project_zero.Base.{
  ◌≡◌, refl, sym, subst, Bool, true, false, ◌&&◌, List, [], ◌∷◌, ◌++◌, Option, none, some, arith,
  All, Bool-cases, inl, inr, Outcome, ok,
}
use mathlib.Core.List.{append_assoc}
use project_zero.Libzero.Error.{ZeroError}
use project_zero.Libzero.Resource.{DistributedId, id_eq}
use project_zero.Libzero.Lease.{ResourceLease}
use project_zero.Libzero.Accounting.{AccountingManager}
use project_zero.Libzero.LeaseEngine.{is_active, sweep_slot, sweep_slots}
use project_zero.Libzero.LeaseEngine.Slots.{slot_sum, active_sum, zeros8}

-- The loop over the slots keeps what its body keeps, at any place in the table, and then succeeds.
module _ (test : ResourceLease → Bool)
    (body : ResourceLease
      → AccountingManager
      → Outcome ZeroError (Unit {0}) × ResourceLease × AccountingManager)
    (Inv : List (Option ResourceLease) → AccountingManager → Type 0)
    (keep : (xs ys : List (Option ResourceLease)) (l : ResourceLease) (m : AccountingManager)
      → test l ≡ true
      → Inv (xs ++ (some l ∷ ys)) m
      → ((body l m).0 ≡ ok tt) × Inv (xs ++ (some (body l m).1 ∷ ys)) (body l m).2) where
  pub sweep_from :
      (xs slots : List (Option ResourceLease)) (m : AccountingManager)
      → Inv (xs ++ slots) m
      → ((sweep_slots test body slots m).0 ≡ ok tt)
        × Inv (xs ++ (sweep_slots test body slots m).1) (sweep_slots test body slots m).2
  unfolding sweep_slots
  sweep_from xs [] m v = (refl, v)
  sweep_from xs (none ∷ slots) m v =
      let (done, kept) =
        sweep_from (xs ++ (none ∷ [])) slots m
          (subst (λ w. Inv w m) (sym (append_assoc xs (none ∷ []) slots)) v) in
      (
        done,
        subst (λ w. Inv w (sweep_slots test body slots m).2)
            (append_assoc xs (none ∷ []) (sweep_slots test body slots m).1) kept,
      )
  sweep_from xs (some l ∷ slots) m v =
      let (fine, kept) = one in
      let l' = (sweep_slot test body l m).1 in
      let m' = (sweep_slot test body l m).2 in
      let (done, all) =
        sweep_from (xs ++ (some l' ∷ [])) slots m'
          (subst (λ w. Inv w m') (sym (append_assoc xs (some l' ∷ []) slots)) kept) in
      (
        rw (fine, sweep_slots) done,
        rw (fine, sweep_slots)
            (subst (λ w. Inv w (sweep_slots test body slots m').2)
              (append_assoc xs (some l' ∷ []) (sweep_slots test body slots m').1) all),
      )
    where
      one :
          ((sweep_slot test body l m).0 ≡ ok tt)
          × Inv (xs ++ (some (sweep_slot test body l m).1 ∷ slots)) (sweep_slot test body l m).2
      one = elim (Bool-cases (test l)) [
        | inl t ↦ rw t (keep xs slots l m t v)
        | inr t ↦ rw t (refl, v)
      ]

-- A slot with no active lease, or none that passes a test.
abbrev pub Unheld : (ResourceLease → Bool) → Option ResourceLease → Type 0
Unheld test none = Unit
Unheld test (some l) = test l ≡ false

-- After the loop no lease passes the test, if its body makes each fail it.
pub sweep_slots-Unheld :
    (test : ResourceLease → Bool)
    (body : ResourceLease
      → AccountingManager
      → Outcome ZeroError (Unit {0}) × ResourceLease × AccountingManager)
    → ((l : ResourceLease) (m : AccountingManager) → test (body l m).1 ≡ false)
    → (slots : List (Option ResourceLease)) (m : AccountingManager)
    → (sweep_slots test body slots m).0 ≡ ok tt
    → All (Unheld test) (sweep_slots test body slots m).1
unfolding sweep_slots
sweep_slots-Unheld test body fails [] m h = tt
sweep_slots-Unheld test body fails (none ∷ slots) m h =
    (tt, sweep_slots-Unheld test body fails slots m h)
sweep_slots-Unheld test body fails (some l ∷ slots) m h =
    ground (arith, fails l m, sweep_slots-Unheld test body fails slots (sweep_slot test body l m).2)

-- With no active lease on a resource the table holds nothing of it.
pub active_sum-Unheld :
    (id : DistributedId) (slots : List (Option ResourceLease))
    → All (Unheld (λ l. id_eq l.resource_id id && is_active l.state)) slots
    → active_sum id slots ≡ zeros8
unfolding active_sum slot_sum
active_sum-Unheld id [] h = refl
active_sum-Unheld id (none ∷ slots) h = rw (active_sum-Unheld id slots h.1)
active_sum-Unheld id (some l ∷ slots) h = rw (h.0, active_sum-Unheld id slots h.1)

pub weaken :
    (id : DistributedId) (slots : List (Option ResourceLease))
    → All (Unheld (λ l. is_active l.state)) slots
    → All (Unheld (λ l. id_eq l.resource_id id && is_active l.state)) slots
weaken id [] h = tt
weaken id (none ∷ slots) h = (tt, weaken id slots h.1)
weaken id (some l ∷ slots) h = (ground (arith, h.0), weaken id slots h.1)
