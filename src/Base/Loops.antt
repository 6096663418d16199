-- ===== src/Base/Loops.antt =====
-- The loop `for slot in table.iter_mut() { if test(slot) { return body(slot) } } otherwise`.
use mathlib.Core.Path.{◌≡◌, refl}
use mathlib.Core.Bool.{Bool, true}
use mathlib.Core.List.{List, [], ◌∷◌}
use native.Mathlib.Omega.{arith}
use project_zero.Base.Tests.{if◌then◌else◌}
use project_zero.Base.Lists.{length, All}
use project_zero.Base.Results.{Outcome, ok, err, panic}

module _ {A E B : Type 0} (test : A → Bool) (body : A → Outcome E B × A)
    (otherwise : Outcome E B) where
  unfoldable pub on_first : List A → Outcome E B × List A
  on_first [] = (otherwise, [])
  on_first (x ∷ xs) =
      let rest = on_first xs in
      if test x then ((body x).0, (body x).1 ∷ xs) else (rest.0, x ∷ rest.1)

  -- The loop changes no element but the one that it returns from.
  pub on_first-All {κ} :
      (P : A → Type κ)
      → ((x : A) → test x ≡ true → P x → P (body x).1)
      → (xs : List A) → All P xs
      → All P (on_first xs).1
  unfolding on_first
  on_first-All P keep [] h = h
  on_first-All P keep (x ∷ xs) h = ground (arith, keep x, on_first-All P keep xs)

  pub length-on_first : (xs : List A) → length (on_first xs).1 ≡ length xs
  unfolding on_first
  length-on_first [] = refl
  length-on_first (x ∷ xs) = ground (arith, length-on_first xs)

-- What `let _ = call` leaves of an outcome: a panic goes through.
abbrev pub ignore : {E A : Type 0} → Outcome E A → Outcome E (Unit {0})
ignore (ok a) = ok tt
ignore (err e) = ok tt
ignore panic = panic

module _ {A E B : Type 0} (test : A → Bool) (body : A → Outcome E B × A)
    (otherwise : Outcome E B) where
  -- Its outcome is that of its body, or the one behind the loop.
  pub on_first-outcome {κ μ} :
      (P : A → Type κ) (Q : Outcome E B → Type μ)
      → Q otherwise
      → ((x : A) → P x → Q (body x).0)
      → (xs : List A) → All P xs
      → Q (on_first test body otherwise xs).0
  unfolding on_first
  on_first-outcome P Q z step [] h = z
  on_first-outcome P Q z step (x ∷ xs) h =
      ground (arith, step x h.0, on_first-outcome P Q z step xs h.1)

pub All-trivial : {A : Type 0} (xs : List A) → All (λ x. Unit {0}) xs
All-trivial [] = tt
All-trivial (x ∷ xs) = (tt, All-trivial xs)
