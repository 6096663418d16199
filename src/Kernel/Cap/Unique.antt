-- ===== src/Kernel/Cap/Unique.antt =====
-- Identifiers of capabilities in kernel/src/cap are never given out twice, so that a look-up by
-- identifier is exact.
use project_zero.Base.{
  ℕ, ◌+◌, ◌≤◌, ◌<◌, ◌≡◌, ◌⊎◌, refl, sym, ap, ◌∙◌, subst, inl, inr, Bool, true, ◌&&◌, arith,
  Bool-cases,
}
use project_zero.Kernel.Ipc.{Link, link_eq, write_at}
use project_zero.Kernel.Cap.{Nodes, Tables, in_table}
use project_zero.Kernel.Cap.Ops.{count_handle}
use project_zero.Kernel.Cap.Leave.{drop_reference}
use project_zero.Kernel.Cap.Derivation.{derived_node, derived_tables}
use project_zero.Kernel.Cap.Identity.{derived_id}

abbrev pub id_at : Tables → Link → ℕ
id_at t l = (t.nodes l).capability_id

abbrev pub holds : Tables → Link → Bool
holds t l = in_table l && (t.entries l).occupied

pub record IsIdentified (t : Tables) : Type 0 where
  pub first : 1 ≤ t.next_capability_id
  pub given : (l : Link) → holds t l ≡ true → (1 ≤ id_at t l) × (id_at t l < t.next_capability_id)
  pub unique :
      (j k : Link)
      → holds t j ≡ true
      → holds t k ≡ true
      → id_at t j ≡ id_at t k
      → link_eq j k ≡ true

-- No capability appears, and each one keeps its identifier.
pub fewer-IsIdentified :
    (t s : Tables)
    → IsIdentified t
    → t.next_capability_id ≤ s.next_capability_id
    → ((l : Link) → holds s l ≡ true → (holds t l ≡ true) × (id_at s l ≡ id_at t l))
    → IsIdentified s
fewer-IsIdentified t s v grows kept = record {
  first = omega (arith, v.first);
  given = λ l h. let (h', e) = kept l h in let (a, b) = v.given l h' in (omega arith, omega arith);
  unique = λ j k h i e.
      let (h', a) = kept j h in let (i', b) = kept k i in v.unique j k h' i' (sym a ∙ e ∙ b);
}

-- One capability appears, with the next identifier.
module _ (t s : Tables) (v : IsIdentified t) (dst : Link)
    (grows : s.next_capability_id ≡ t.next_capability_id + 1)
    (kept : (l : Link)
      → holds s l ≡ true
      → ((link_eq dst l ≡ true) × (id_at s l ≡ t.next_capability_id))
        ⊎ ((holds t l ≡ true) × (id_at s l ≡ id_at t l))) where
  fresh_given : (l : Link) → holds s l ≡ true → (1 ≤ id_at s l) × (id_at s l < s.next_capability_id)
  fresh_given l h = elim (kept l h) [
    | inl (q, e) ↦ (omega (arith, v.first), omega (arith, grows))
    | inr (h', e) ↦ let (a, b) = v.given l h' in (omega arith, omega (arith, grows))
  ]

  both_new : (j k : Link) → link_eq dst j ≡ true → link_eq dst k ≡ true → link_eq j k ≡ true
  both_new j k a b = ground arith

  fresh_unique :
      (j k : Link)
      → holds s j ≡ true
      → holds s k ≡ true
      → id_at s j ≡ id_at s k
      → link_eq j k ≡ true
  fresh_unique j k h i e = elim (kept j h) [
    | inl (q, a) ↦ elim (kept k i) [
      | inl (r, b) ↦ both_new j k q r
      | inr (i', b) ↦ let below = (v.given k i').1 in absurd (omega arith)
    ]
    | inr (h', a) ↦ elim (kept k i) [
      | inl (r, b) ↦ let below = (v.given j h').1 in absurd (omega arith)
      | inr (i', b) ↦ v.unique j k h' i' (sym a ∙ e ∙ b)
    ]
  ]

  pub one-IsIdentified : IsIdentified s
  one-IsIdentified = record {
    first = omega (arith, grows);
    given = fresh_given;
    unique = fresh_unique;
  }

module _ (l : Link) (i g : ℕ) (t : Tables) where
  pub counted_keeps :
      ((count_handle l i g t).1.entries ≡ t.entries)
      × ((count_handle l i g t).1.nodes ≡ t.nodes)
      × ((count_handle l i g t).1.next_capability_id ≡ t.next_capability_id)
  unfolding count_handle
  counted_keeps = (ground arith, ground arith, ground arith)

pub dropped_keeps :
    (i : ℕ) (t : Tables)
    → ((drop_reference i t).entries ≡ t.entries)
      × ((drop_reference i t).nodes ≡ t.nodes)
      × ((drop_reference i t).next_capability_id ≡ t.next_capability_id)
unfolding drop_reference
dropped_keeps i t = (ground arith, ground arith, ground arith)

module _ (t : Tables) (v : IsIdentified t) where
  derived_kept :
      (dst parent : Link) (r : ℕ) (l : Link)
      → holds (derived_tables dst parent r t) l ≡ true
      → ((link_eq dst l ≡ true) × (id_at (derived_tables dst parent r t) l ≡ t.next_capability_id))
        ⊎ ((holds t l ≡ true) × (id_at (derived_tables dst parent r t) l ≡ id_at t l))
  derived_kept dst parent r l h =
      let id = derived_id parent dst t.nodes (derived_node parent t) l in
      elim (Bool-cases (link_eq dst l)) [
        | inl q ↦ inl (q, ground (arith, id))
        | inr q ↦ inr (unfold write_at in ground arith, ground (arith, id))
      ]

  pub derived-IsIdentified :
      (dst parent : Link) (r : ℕ) → IsIdentified (derived_tables dst parent r t)
  derived-IsIdentified dst parent r =
      one-IsIdentified t (derived_tables dst parent r t) v dst refl (derived_kept dst parent r)

  -- Tables with the same entries, nodes and counter are as good.
  pub alike :
      (s : Tables)
      → (s.entries ≡ t.entries)
        × (s.nodes ≡ t.nodes)
        × (t.next_capability_id ≤ s.next_capability_id)
      → IsIdentified s
  alike s (e, n, g) = fewer-IsIdentified t s v g (λ l h. (
    subst (λ f. (in_table l && (f l).occupied) ≡ true) e h,
    ap (λ (f : Nodes). (f l).capability_id) n,
  ))
