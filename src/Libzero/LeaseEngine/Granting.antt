-- ===== src/Libzero/LeaseEngine/Granting.antt =====
-- `request_lease` of libzero/src/lease_engine.rs.
use project_zero.Base.{
  ◌+◌, ◌≡◌, ◌≢◌, refl, sym, ap, subst, ◌∙◌, true, false, List, [], ◌∷◌, ◌++◌, Option, none, some,
  arith, All, inl, inr, ◌⊎◌, ok, err, panic,
}
use mathlib.Core.List.{append-nil}
use project_zero.Libzero.Error.{object_table_full}
use project_zero.Libzero.Resource.{DistributedId}
use project_zero.Libzero.Resource.Vectors.{IsShaped, add_all, all_le}
use project_zero.Libzero.Lease.{ResourceLease}
use project_zero.Libzero.Accounting.{AccountingManager, with_domain, release_quota}
use project_zero.Libzero.Accounting.Domain.{AccountingDomain, release_allocation}
use project_zero.Libzero.Accounting.Domain.Moves.{admitted, admitted-IsBalanced}
use project_zero.Libzero.Accounting.Lookup.{
  find_domain, replace_domain, find_domain-Ready, replace_domain-IsSound, id_eq_sound,
}
use project_zero.Libzero.LeaseEngine.{
  LeaseEngine, is_active, place, store_lease, undo_admission, try_domain,
}
use project_zero.Libzero.LeaseEngine.Slots.{
  slot_sum, active_sum, active_sum-middle, zeros8, ShapedSlot, All-append, add_all_comm,
  length-active_sum,
}
use project_zero.Libzero.LeaseEngine.Ledger.{IsLedger, alloc_of-replace_domain, drain, zero-add}
use project_zero.Libzero.LeaseEngine.Invariant.{
  IsConsistent, occupied, occupied-middle, occupied-gap, release-TakesOut, release_quota-IsLedger,
}

-- An admitted amount and the lease that holds it enter the ledger together.
grow :
    (xs ys : List (Option ResourceLease)) (l : ResourceLease) (m : AccountingManager)
    (d : AccountingDomain)
    → IsLedger (xs ++ (none ∷ ys)) m
    → is_active l.state ≡ true
    → IsShaped l.allocated_capacity
    → find_domain l.resource_id m ≡ some d
    → all_le l.allocated_capacity.dimensions d.avail_capacity.dimensions ≡ true
    → IsLedger
        (xs ++ (some l ∷ ys))
        (replace_domain l.resource_id (admitted d l.allocated_capacity false) m)
unfolding slot_sum
grow xs ys l m d v live s e h =
    let (r, named) = find_domain-Ready l.resource_id m d v.sound e in
    let (p, q) = (All-append ShapedSlot xs (none ∷ ys)).0 v.shaped in
    record {
      sound =
          replace_domain-IsSound l.resource_id (admitted d l.allocated_capacity false) m v.sound
            (admitted-IsBalanced d r.0 l.allocated_capacity s h false, refl);
      shaped = (All-append ShapedSlot xs (some l ∷ ys)).1 (p, (s, q.1));
      matched = λ j. ground (
        arith,
        alloc_of-replace_domain l.resource_id j d (admitted d l.allocated_capacity false) m named e,
        v.matched j,
        id_eq_sound l.resource_id j,
        active_sum-middle j xs none ys,
        active_sum-middle j xs (some l) ys,
        add_all_comm d.alloc_capacity.dimensions l.allocated_capacity.dimensions,
        zero-add (active_sum j (xs ++ ys))
            (length-active_sum j (xs ++ ys) ((All-append ShapedSlot xs ys).1 (p, q.1))),
      );
    }

-- The slot loop: the table is full, or the lease goes to a free slot.
record Gap (slots : List (Option ResourceLease)) : Type 0 where
  before : List (Option ResourceLease)
  after : List (Option ResourceLease)
  whole : slots ≡ before ++ (none ∷ after)

place-cases :
    (l : ResourceLease) (slots : List (Option ResourceLease))
    → ((place l slots).0 ≡ false)
      ⊎ ((g : Gap slots) × (place l slots ≡ (true, g.before ++ (some l ∷ g.after))))
unfolding place
place-cases l [] = inl refl
place-cases l (none ∷ slots) = inr (record { before = []; after = slots; whole = refl }, refl)
place-cases l (some k ∷ slots) = elim (place-cases l slots) [
  | inl e ↦ inl e
  | inr (g, e) ↦ inr (
    record { before = some k ∷ g.before; after = g.after; whole = ap (◌∷◌ (some k)) g.whole },
    rw e,
  )
]

-- A free slot more or less behind the table makes no difference.
active_sum-gap :
    (j : DistributedId) (slots : List (Option ResourceLease))
    → All ShapedSlot slots
    → active_sum j (slots ++ (none ∷ [])) ≡ active_sum j slots
unfolding slot_sum
active_sum-gap j slots h =
    active_sum-middle j slots none []
    ∙ ap (λ w. add_all zeros8 (active_sum j w)) (append-nil slots)
    ∙ zero-add (active_sum j slots) (length-active_sum j slots h)

add_gap :
    (slots : List (Option ResourceLease)) (m : AccountingManager)
    → IsLedger slots m
    → IsLedger (slots ++ (none ∷ [])) m
add_gap slots m v = record {
  sound = v.sound;
  shaped = (All-append ShapedSlot slots (none ∷ [])).1 (v.shaped, (tt, tt));
  matched = λ j. v.matched j ∙ sym (active_sum-gap j slots v.shaped);
}

drop_gap :
    (slots : List (Option ResourceLease)) (m : AccountingManager)
    → IsLedger (slots ++ (none ∷ [])) m
    → IsLedger slots m
drop_gap slots m v =
    let h = ((All-append ShapedSlot slots (none ∷ [])).0 v.shaped).0 in
    record { sound = v.sound; shaped = h; matched = λ j. v.matched j ∙ active_sum-gap j slots h }

undo_admission_lem :
    (l : ResourceLease) (s : LeaseEngine)
    → let m = (try_domain l.resource_id (release_allocation l.allocated_capacity) s.accounting).1 in
      (try_domain l.resource_id (release_allocation l.allocated_capacity) s.accounting).0 ≡ ok tt
      → (release_quota l.holder_entity_id l.allocated_capacity m).0 ≢ panic
      → undo_admission l s ≡ (
        err object_table_full,
        record s { accounting = (release_quota l.holder_entity_id l.allocated_capacity m).1 },
      )
unfolding undo_admission
undo_admission_lem l s tried sure = ground arith

module _ (s : LeaseEngine) (v : IsConsistent s) (l : ResourceLease) (d : AccountingDomain)
    (live : is_active l.state ≡ true) (q : IsShaped l.allocated_capacity)
    (e : find_domain l.resource_id s.accounting ≡ some d)
    (h : all_le l.allocated_capacity.dimensions d.avail_capacity.dimensions ≡ true) where
  abbrev pub with_admission : LeaseEngine
  with_admission = record s {
    accounting = replace_domain l.resource_id (admitted d l.allocated_capacity false) s.accounting;
  }

  -- The lease is stored, or the admission is undone; the engine is consistent again.
  pub store_lease_lem :
      IsConsistent (store_lease l with_admission).1
      × ((((store_lease l with_admission).0 ≡ ok l)
            × ((store_lease l with_admission).1.lease_count ≡ s.lease_count + 1))
          ⊎ (((store_lease l with_admission).0 ≡ err object_table_full)
              × ((store_lease l with_admission).1.leases ≡ s.leases)))
  unfolding store_lease
  store_lease_lem = elim (place-cases l s.leases) [
    | inr (g, p) ↦
        rw (p, store_lease)
          (
            record {
              ledger =
                  grow g.before g.after l s.accounting d
                    (subst (λ w. IsLedger w s.accounting) g.whole v.ledger) live q e h;
              counted = omega (
                arith,
                v.counted,
                ap occupied g.whole,
                occupied-middle g.before g.after l,
                occupied-gap g.before g.after,
              );
            },
            inl (refl, refl),
          )
    | inl full ↦
        let mid = with_admission.accounting in
        let call = release_allocation l.allocated_capacity in
        let grown =
          grow s.leases [] l s.accounting d (add_gap s.leases s.accounting v.ledger) live q e h in
        let (found, kept) =
          drain s.leases [] l none mid grown live tt (λ j. unfold slot_sum in refl) call
            (release-TakesOut l.allocated_capacity q) in
        let freed = (with_domain l.resource_id call mid).1 in
        let (ledger, sure) =
          release_quota-IsLedger s.leases freed (drop_gap s.leases freed kept) l.holder_entity_id
            l.allocated_capacity q in
        let tried : (try_domain l.resource_id call mid).0 ≡ ok tt = elim found [
          | inl n ↦ rw (n, try_domain)
          | inr n ↦ rw (n, try_domain)
        ] in
        let undone = undo_admission_lem l with_admission tried sure in
        rw (full, store_lease)
          (rw undone (record { ledger = ledger; counted = v.counted }, inr (refl, refl)))
  ]
