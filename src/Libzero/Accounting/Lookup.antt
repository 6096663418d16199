-- ===== src/Libzero/Accounting/Lookup.antt =====
-- `find_domain_mut` of libzero/src/accounting.rs and the call on the domain that it finds, against a
-- plain lookup of the first domain with an identifier.
use project_zero.Base.{
  ℕ, zero, suc, ◌≤◌, ◌≡◌, refl, true, false, List, [], ◌∷◌, Option, none, some, arith, All, length,
  set, ◌+◌, ◌<◌, if◌then◌else◌,
}
use project_zero.Libzero.Resource.{DistributedId, id_eq}
use project_zero.Libzero.Accounting.Domain.{AccountingDomain, DomainMethod}
use project_zero.Libzero.Accounting.Domain.Invariant.{IsBalanced}
use project_zero.Libzero.Accounting.Quota.{ShapedQuota}
use project_zero.Libzero.Accounting.{AccountingManager, with_first, with_domain}

pub id_eq_sound : (a b : DistributedId) → id_eq a b ≡ true → a ≡ b
id_eq_sound a b h = ground arith

pub id_eq_refl : (a : DistributedId) → id_eq a a ≡ true
id_eq_refl a = ground arith

-- The first domain with the identifier, and the table with that domain replaced.
unfoldable pub find_first : ℕ → DistributedId → List AccountingDomain → Option AccountingDomain
find_first zero id ds = none
find_first (suc n) id [] = none
find_first (suc n) id (d ∷ ds) =
    let rest = find_first n id ds in if id_eq d.resource_id id then some d else rest

pub replace_first :
    ℕ → DistributedId → AccountingDomain → List AccountingDomain → List AccountingDomain
replace_first zero id e ds = ds
replace_first (suc n) id e [] = []
replace_first (suc n) id e (d ∷ ds) =
    let rest = replace_first n id e ds in if id_eq d.resource_id id then e ∷ ds else d ∷ rest

abbrev pub find_domain : DistributedId → AccountingManager → Option AccountingDomain
find_domain id m = find_first m.domain_count id m.domains

abbrev pub replace_domain : DistributedId → AccountingDomain → AccountingManager → AccountingManager
replace_domain id e m = record m { domains = replace_first m.domain_count id e m.domains }

with_first_lem :
    (n : ℕ) (id : DistributedId) (call : DomainMethod) (ds : List AccountingDomain)
    → n ≤ length ds
    → with_first n id call ds ≡ elim (find_first n id ds) [
      | none ↦ (none, ds)
      | some d ↦ (some (call d).0, replace_first n id (call d).1 ds)
    ]
unfolding with_first find_first replace_first
with_first_lem zero id call ds h = refl
with_first_lem (suc n) id call [] h = absurd (omega arith)
with_first_lem (suc n) id call (d ∷ ds) h = ground (arith, with_first_lem n id call ds)

-- The found domain has the identifier and every property that all domains have.
find_first-All {κ} :
    (P : AccountingDomain → Type κ) (n : ℕ) (id : DistributedId) (ds : List AccountingDomain)
    (d : AccountingDomain)
    → All P ds
    → find_first n id ds ≡ some d
    → P d × (d.resource_id ≡ id)
unfolding find_first
find_first-All P zero id ds d h e = absurd (cc)
find_first-All P (suc n) id [] d h e = absurd (cc)
find_first-All P (suc n) id (x ∷ ds) d h e = ground (arith, find_first-All P n id ds d)

replace_first-All {κ} :
    (P : AccountingDomain → Type κ) (n : ℕ) (id : DistributedId) (e : AccountingDomain)
    (ds : List AccountingDomain)
    → P e
    → All P ds
    → All P (replace_first n id e ds)
unfolding replace_first
replace_first-All P zero id e ds p h = h
replace_first-All P (suc n) id e [] p h = h
replace_first-All P (suc n) id e (d ∷ ds) p h = ground (arith, replace_first-All P n id e ds p)

length-replace_first :
    (n : ℕ) (id : DistributedId) (e : AccountingDomain) (ds : List AccountingDomain)
    → length (replace_first n id e ds) ≡ length ds
unfolding replace_first
length-replace_first zero id e ds = refl
length-replace_first (suc n) id e [] = refl
length-replace_first (suc n) id e (d ∷ ds) = ground (arith, length-replace_first n id e ds)

-- After a replacement a lookup finds the new domain, and any other as before.
find-replace_first :
    (n : ℕ) (id other : DistributedId) (d e : AccountingDomain) (ds : List AccountingDomain)
    → e.resource_id ≡ id
    → find_first n id ds ≡ some d
    → find_first n other (replace_first n id e ds)
      ≡ (if id_eq id other then some e else find_first n other ds)
unfolding find_first replace_first
find-replace_first zero id other d e ds p h = absurd (cc)
find-replace_first (suc n) id other d e [] p h = absurd (cc)
find-replace_first (suc n) id other d e (x ∷ ds) p h = ground (
  arith,
  find-replace_first n id other d e ds p,
  id_eq_sound x.resource_id id,
  id_eq_sound x.resource_id other,
  id_eq_sound id other,
)

abbrev pub Ready : AccountingDomain → Type 0
Ready d = IsBalanced d × (d.writer_locked ≡ false)

-- Every domain of the manager is in balance and not locked, the count stays in the table, and the
-- quotas have the right shape.
pub record IsSound (m : AccountingManager) : Type 0 where
  pub counted : m.domain_count ≤ length m.domains
  pub ready : All Ready m.domains
  pub quotas_shaped : All ShapedQuota m.quotas

-- In a sound manager, `find_domain_mut` and the call on the domain that it finds run the call on the
-- first domain with the identifier and replace it, or change nothing.
pub with_domain_lem :
    (id : DistributedId) (call : DomainMethod) (m : AccountingManager)
    → IsSound m
    → with_domain id call m ≡ elim (find_domain id m) [
      | none ↦ (none, m)
      | some d ↦ (some (call d).0, replace_domain id (call d).1 m)
    ]
unfolding with_domain
with_domain_lem id call m v =
    ground (arith, with_first_lem m.domain_count id call m.domains v.counted)

pub find_domain-Ready :
    (id : DistributedId) (m : AccountingManager) (d : AccountingDomain)
    → IsSound m
    → find_domain id m ≡ some d
    → Ready d × (d.resource_id ≡ id)
find_domain-Ready id m d v e = find_first-All Ready m.domain_count id m.domains d v.ready e

pub replace_domain-IsSound :
    (id : DistributedId) (e : AccountingDomain) (m : AccountingManager)
    → IsSound m
    → Ready e
    → IsSound (replace_domain id e m)
replace_domain-IsSound id e m v r = record {
  counted = omega (arith, v.counted, length-replace_first m.domain_count id e m.domains);
  ready = replace_first-All Ready m.domain_count id e m.domains r v.ready;
  quotas_shaped = v.quotas_shaped;
}

pub find-replace_domain :
    (id other : DistributedId) (d e : AccountingDomain) (m : AccountingManager)
    → e.resource_id ≡ id
    → find_domain id m ≡ some d
    → find_domain other (replace_domain id e m)
      ≡ (if id_eq id other then some e else find_domain other m)
find-replace_domain id other d e m p h =
    find-replace_first m.domain_count id other d e m.domains p h

-- A domain registered behind the first ones is found where none of those is.
pub find-set_first :
    (n : ℕ) (id : DistributedId) (e : AccountingDomain) (ds : List AccountingDomain)
    → n < length ds
    → find_first (n + 1) id (set ds n e) ≡ elim (find_first n id ds) [
      | none ↦ if id_eq e.resource_id id then some e else none
      | some d ↦ some d
    ]
unfolding find_first
find-set_first n id e ds h = let next : n + 1 ≡ suc n = omega arith in rw next (go n ds h)
  where
    go :
        (k : ℕ) (xs : List AccountingDomain)
        → k < length xs
        → find_first (suc k) id (set xs k e) ≡ elim (find_first k id xs) [
          | none ↦ if id_eq e.resource_id id then some e else none
          | some d ↦ some d
        ]
    go k [] b = absurd (omega arith)
    go zero (x ∷ xs) b = ground arith
    go (suc k) (x ∷ xs) b = ground (arith, go k xs)
