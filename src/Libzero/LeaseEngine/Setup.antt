-- ===== src/Libzero/LeaseEngine/Setup.antt =====
-- The start of libzero/src/lease_engine.rs and accounting.rs: the empty tables, and the call that
-- registers a domain.
use project_zero.Base.{
  ℕ, zero, suc, ◌≡◌, refl, sym, ◌∙◌, true, List, [], ◌∷◌, none, arith, All, if◌then◌else◌, leb,
  length, set, length-set, replicate, Bool-cases, inl, inr, ok, err,
}
use project_zero.Libzero.Error.{object_table_full}
use project_zero.Libzero.Resource.{DistributedId, DimensionCapacityVector, empty}
use project_zero.Libzero.Resource.Vectors.{IsShaped, all_fit}
use project_zero.Libzero.Accounting.{AccountingManager, register_domain}
use project_zero.Libzero.Accounting
use project_zero.Libzero.Accounting.Domain.Invariant.{
  fresh, fresh-IsBalanced, new-IsBalanced, nothing-IsShaped,
}
use project_zero.Libzero.Accounting.Quota.{ShapedQuota}
use project_zero.Libzero.Accounting.Lookup.{IsSound, Ready, find-set_first, find_first}
use project_zero.Libzero.LeaseEngine.{LeaseEngine, new}
use project_zero.Libzero.LeaseEngine.Slots.{zeros8, ShapedSlot, active_sum-idle}
use project_zero.Libzero.LeaseEngine.Ledger.{alloc_of}
use project_zero.Libzero.LeaseEngine.Invariant.{IsConsistent, occupied-idle}

All-replicate {κ} : {A : Type 0} (P : A → Type κ) (n : ℕ) (a : A) → P a → All P (replicate n a)
All-replicate P zero a p = tt
All-replicate P (suc n) a p = (p, All-replicate P n a p)

All-set {κ} :
    {A : Type 0} (P : A → Type κ) (xs : List A) (i : ℕ) (a : A)
    → P a
    → All P xs
    → All P (set xs i a)
All-set P [] i a p h = h
All-set P (x ∷ xs) zero a p h = (p, h.1)
All-set P (x ∷ xs) (suc i) a p h = (h.0, All-set P xs i a p h.1)

-- Every slot of the tables of a new manager is balanced and unlocked.
pub new_manager-IsSound : IsSound Accounting.new
unfolding Accounting.new empty
new_manager-IsSound = record {
  counted = ground arith;
  ready =
      All-replicate Ready 64 _
        (fresh-IsBalanced _ _ (nothing-IsShaped 0 (ground arith)) refl, refl);
  quotas_shaped = All-replicate ShapedQuota 32 _ (record {
    max_shaped = nothing-IsShaped 0 (ground arith);
    used_shaped = nothing-IsShaped 0 (ground arith);
  });
}

-- A new engine over a sound manager that has allocated nothing is consistent.
new-IsConsistent :
    (m : AccountingManager)
    → IsSound m
    → ((id : DistributedId) → alloc_of id m ≡ zeros8)
    → IsConsistent (new m)
unfolding new
new-IsConsistent m v h = record {
  ledger = record {
    sound = v;
    shaped = All-replicate ShapedSlot 256 none tt;
    matched = λ id. h id ∙ sym (active_sum-idle id 256);
  };
  counted = sym (occupied-idle 256);
}

-- A new engine over a new manager is consistent.
pub start-IsConsistent : IsConsistent (new Accounting.new)
unfolding Accounting.new find_first
start-IsConsistent = new-IsConsistent Accounting.new new_manager-IsSound (λ id. refl)

module _ (s : LeaseEngine) (v : IsConsistent s) where
  pub register_domain-IsConsistent :
      (id : DistributedId) (phys : DimensionCapacityVector)
      → IsShaped phys
      → all_fit phys.dimensions ≡ true
      → IsConsistent (record s { accounting = (register_domain id phys s.accounting).1 })
        × ((register_domain id phys s.accounting).0 ≡ (
            if leb (length s.accounting.domains) s.accounting.domain_count
            then err object_table_full
            else ok s.accounting.domain_count))
  unfolding register_domain
  register_domain-IsConsistent id phys q f =
      elim (Bool-cases (leb (length s.accounting.domains) s.accounting.domain_count)) [
        | inl full ↦ rw (full) (v, refl)
        | inr room ↦
            let (made, balanced) = new-IsBalanced id phys q f in
            rw (room, made)
              (
                record {
                  ledger = record {
                    sound = record {
                      counted = ground (
                        arith,
                        length-set s.accounting.domains s.accounting.domain_count (fresh id phys),
                      );
                      ready =
                          All-set Ready s.accounting.domains s.accounting.domain_count
                            (fresh id phys) (balanced, refl) v.ledger.sound.ready;
                      quotas_shaped = v.ledger.sound.quotas_shaped;
                    };
                    shaped = v.ledger.shaped;
                    matched = λ j. ground (
                      arith,
                      v.ledger.matched j,
                      find-set_first s.accounting.domain_count j (fresh id phys)
                          s.accounting.domains (ground arith),
                    );
                  };
                  counted = v.counted;
                },
                refl,
              )
      ]
