-- ===== src/Kernel/Cap/Confinement.antt =====
-- No call of kernel/src/cap amplifies rights: each capability after it was covered by one before.
use project_zero.Base.{ℕ, ◌≤◌, ◌≡◌, refl, sym, ◌∙◌, ap, inl, inr, true, arith, Bool-cases, subst}
use project_zero.Base.Bits.{Within, Within-refl, Within-trans, bit_and-Within_of}
use project_zero.Kernel.Ipc.{HandleEntry, Link, link_eq, write_at}
use project_zero.Kernel.Cap.{Tables}
use project_zero.Kernel.Cap.Ops.{count_handle, install_derived_capability_locked}
use project_zero.Kernel.Cap.Leave.{
  install_moved_capability_locked, vacate, capability_close_locked, drop_reference,
}
use project_zero.Kernel.Cap.Endings.{
  copied, Moves, moved, install_moved_capability_locked-Moves, Closes, closed,
  capability_close_locked-Closes,
}
use project_zero.Kernel.Cap.Derivation.{
  Installs, installed, install_derived_capability_locked-Installs, derived_entry, derived_tables,
}

-- The first entry's capability allows all that the second one's does, on the same object.
pub record Covers (whole part : HandleEntry) : Type 0 where
  pub object_index : part.object_index ≡ whole.object_index
  pub object_generation : part.object_generation ≡ whole.object_generation
  pub endpoint : part.endpoint ≡ whole.endpoint
  pub rights : Within 16 part.rights whole.rights

-- Rights are 16 bits.
abbrev pub IsNarrow : Tables → Type 0
IsNarrow t = (l : Link) → (t.entries l).rights ≤ 65535

-- Each capability that is there afterwards was covered by one that was there before.
abbrev pub IsBacked : Tables → Tables → Type 0
IsBacked t s =
    (l : Link)
    → (s.entries l).occupied ≡ true
    → (k : Link) × ((t.entries k).occupied ≡ true) × Covers (t.entries k) (s.entries l)

abbrev pub IsConfined : Tables → Tables → Type 0
IsConfined t s = IsNarrow s × IsBacked t s

Covers-refl : (e : HandleEntry) → Covers e e
Covers-refl e = record {
  object_index = refl;
  object_generation = refl;
  endpoint = refl;
  rights = Within-refl 16 e.rights;
}

Covers-trans : (a b c : HandleEntry) → Covers a b → Covers b c → Covers a c
Covers-trans a b c v w = record {
  object_index = w.object_index ∙ v.object_index;
  object_generation = w.object_generation ∙ v.object_generation;
  endpoint = w.endpoint ∙ v.endpoint;
  rights = Within-trans 16 c.rights b.rights a.rights w.rights v.rights;
}

pub IsBacked-trans : (t s r : Tables) → IsBacked t s → IsBacked s r → IsBacked t r
IsBacked-trans t s r first second l o =
    let (k, held, cover) = second l o in
    let (j, held', cover') = first k held in
    (j, held', Covers-trans (t.entries j) (s.entries k) (r.entries l) cover' cover)

module _ (t : Tables) (narrow : IsNarrow t) where
  same-IsConfined : (s : Tables) → s.entries ≡ t.entries → IsConfined t s
  same-IsConfined s e = (
    λ l. subst (λ f. (f l).rights ≤ 65535) (sym e) (narrow l),
    λ l o. (
      l,
      subst (λ f. (f l).occupied ≡ true) e o,
      subst (λ f. Covers (t.entries l) (f l)) (sym e) (Covers-refl (t.entries l)),
    ),
  )

  -- One entry is written, which an occupied one covers.
  covered-IsConfined :
      (s : Tables) (l k : Link) (e : HandleEntry)
      → (t.entries k).occupied ≡ true
      → e.rights ≤ 65535
      → Covers (t.entries k) e
      → s.entries ≡ write_at l e t.entries
      → IsConfined t s
  unfolding write_at
  covered-IsConfined s l k e held bound cover same = rw same (
    λ j. elim (Bool-cases (link_eq l j)) [ inl q ↦ rw q bound | inr q ↦ rw q (narrow j) ],
    λ j. elim (Bool-cases (link_eq l j)) [
      | inl q ↦ rw q (λ o. (k, held, cover))
      | inr q ↦ rw q (λ o. (j, o, Covers-refl (t.entries j)))
    ],
  )

  count_handle-entries :
      (l : Link) (i g : ℕ) (s : Tables) → (count_handle l i g s).1.entries ≡ s.entries
  unfolding count_handle
  count_handle-entries l i g s = ground arith

  Installs-IsConfined :
      (dst parent : Link) (requested : ℕ)
      → requested ≤ 65535
      → Installs dst parent requested t
      → IsConfined t (install_derived_capability_locked dst parent requested t).1
  Installs-IsConfined dst parent requested bound (Installs.refused same failed) =
      same-IsConfined (install_derived_capability_locked dst parent requested t).1 same.entries
  Installs-IsConfined dst parent requested bound (installed may vacant running went) =
      covered-IsConfined (install_derived_capability_locked dst parent requested t).1 dst parent
        (derived_entry dst parent requested t) may.held bound
        (record {
          object_index = refl;
          object_generation = refl;
          endpoint = refl;
          rights =
              bit_and-Within_of 16 requested (t.entries parent).rights (narrow parent)
                (ground (arith, may.narrowed));
        })
        (ap (λ r. r.1.entries) went
          ∙ count_handle-entries dst (t.entries parent).object_index
              (t.entries dst).handle_generation (derived_tables dst parent requested t))

  vacate-IsConfined : (l : Link) → IsConfined t (vacate l t)
  unfolding vacate write_at
  vacate-IsConfined l = (
    λ j. elim (Bool-cases (link_eq l j)) [ inl q ↦ rw q (narrow l) | inr q ↦ rw q (narrow j) ],
    λ j. elim (Bool-cases (link_eq l j)) [
      | inl q ↦ rw q (λ o. absurd cc)
      | inr q ↦ rw q (λ o. (j, o, Covers-refl (t.entries j)))
    ],
  )

drop_reference-entries : (i : ℕ) (t : Tables) → (drop_reference i t).entries ≡ t.entries
unfolding drop_reference
drop_reference-entries i t = ground arith

IsConfined-trans : (t s r : Tables) → IsConfined t s → IsConfined s r → IsConfined t r
IsConfined-trans t s r first second = (second.0, IsBacked-trans t s r first.1 second.1)

module _ (t : Tables) (narrow : IsNarrow t) where
  Moves-IsConfined :
      (dst src : Link) (id : ℕ)
      → Moves dst src id t
      → IsConfined t (install_moved_capability_locked dst src id t).1
  Moves-IsConfined dst src id (Moves.refused same failed) =
      same-IsConfined t narrow (install_moved_capability_locked dst src id t).1
        (ap (λ s. s.entries) same)
  Moves-IsConfined dst src id (moved nodes there from held live vacant done went) =
      let there : IsConfined t (copied dst src t) =
        covered-IsConfined t narrow (copied dst src t) dst src
          (record (t.entries src) { handle_generation = (t.entries dst).handle_generation }) held
          (narrow src)
          (record {
            object_index = refl;
            object_generation = refl;
            endpoint = refl;
            rights = Within-refl 16 (t.entries src).rights;
          })
          refl in
      let gone = vacate-IsConfined (copied dst src t) there.0 src in
      let both = IsConfined-trans t (copied dst src t) (vacate src (copied dst src t)) there gone in
      IsConfined-trans t (vacate src (copied dst src t))
        (install_moved_capability_locked dst src id t).1 both
        (same-IsConfined (vacate src (copied dst src t)) both.0
          (install_moved_capability_locked dst src id t).1 (ap (λ r. r.1.entries) went))

  Closes-IsConfined : (l : Link) → Closes l t → IsConfined t (capability_close_locked l t).1
  Closes-IsConfined l (Closes.refused same failed) =
      same-IsConfined t narrow (capability_close_locked l t).1 (ap (λ s. s.entries) same)
  Closes-IsConfined l (closed nodes there held done went) =
      let gone = vacate-IsConfined t narrow l in
      IsConfined-trans t (vacate l t) (capability_close_locked l t).1 gone (
        same-IsConfined (vacate l t) gone.0 (capability_close_locked l t).1 (
          ap (λ r. r.1.entries) went
          ∙ drop_reference-entries (t.entries l).object_index
              (record (vacate l t) { nodes = nodes })))

  pub derived-IsConfined :
      (dst parent : Link) (requested : ℕ)
      → requested ≤ 65535
      → IsConfined t (install_derived_capability_locked dst parent requested t).1
  derived-IsConfined dst parent requested bound =
      Installs-IsConfined t narrow dst parent requested bound
        (install_derived_capability_locked-Installs dst parent requested t)

  pub moved-IsConfined :
      (dst src : Link) (id : ℕ) → IsConfined t (install_moved_capability_locked dst src id t).1
  moved-IsConfined dst src id =
      Moves-IsConfined dst src id (install_moved_capability_locked-Moves dst src id t)

  pub closed-IsConfined : (l : Link) → IsConfined t (capability_close_locked l t).1
  closed-IsConfined l = Closes-IsConfined l (capability_close_locked-Closes l t)

  pub unchanged-IsConfined : (s : Tables) → s.entries ≡ t.entries → IsConfined t s
  unchanged-IsConfined s e = same-IsConfined t narrow s e
