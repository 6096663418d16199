-- ===== src/Base/Sums.antt =====
-- Sums of a function's values below a number.
use Prim.Native.Nat.{ℕ, zero, suc, ◌+◌, ◌*◌, ◌≤◌, ◌<◌}
use mathlib.Core.Path.{◌≡◌, refl, sym, subst}
use mathlib.Core.Logic.{◌≢◌, inl, inr}
use native.Mathlib.Omega.{arith}
use project_zero.Base.Tests.{eq_or_ne}

pub sum_to : ℕ → (ℕ → ℕ) → ℕ
sum_to zero f = 0
sum_to (suc n) f = sum_to n f + f n

pub sum_to_same : (n : ℕ) (f g : ℕ → ℕ) → ((j : ℕ) → j < n → f j ≡ g j) → sum_to n f ≡ sum_to n g
unfolding sum_to
sum_to_same zero f g h = refl
sum_to_same (suc n) f g h =
    rw (sum_to_same n f g (λ j l. h j (omega arith)), h n (omega arith)) refl

-- Where one value changes, the old and the new one make up for each other.
pub sum_to_change :
    (n i : ℕ) (f g : ℕ → ℕ)
    → i < n
    → ((j : ℕ) → j ≢ i → g j ≡ f j)
    → sum_to n g + f i ≡ sum_to n f + g i
unfolding sum_to
sum_to_change zero i f g l h = absurd (omega arith)
sum_to_change (suc n) i f g l h = elim (eq_or_ne i n) [
  | inl e ↦
      let below = sum_to_same n g f (λ j k. h j (λ q. omega arith)) in
      subst (λ k. sum_to n g + g n + f k ≡ sum_to n f + f n + g k) (sym e) (omega (arith, below))
  | inr e ↦ omega (arith, sum_to_change n i f g (omega arith) h, h n (λ q. e (sym q)))
]

pub sum_to_bound : (n b : ℕ) (f : ℕ → ℕ) → ((j : ℕ) → f j ≤ b) → sum_to n f ≤ n * b
unfolding sum_to
sum_to_bound zero b f h = omega arith
sum_to_bound (suc n) b f h = omega (arith, sum_to_bound n b f h, h n)

pub sum_to_add : (n : ℕ) (f g : ℕ → ℕ) → sum_to n (λ j. f j + g j) ≡ sum_to n f + sum_to n g
unfolding sum_to
sum_to_add zero f g = refl
sum_to_add (suc n) f g = omega (arith, sum_to_add n f g)

pub sum_to-zero : (n : ℕ) → sum_to n (λ j. 0) ≡ 0
unfolding sum_to
sum_to-zero zero = refl
sum_to-zero (suc n) = omega (arith, sum_to-zero n)

-- Only one value is not zero.
pub sum_to_single : (n i : ℕ) (f : ℕ → ℕ) → i < n → ((j : ℕ) → j ≢ i → f j ≡ 0) → sum_to n f ≡ f i
sum_to_single n i f l h = omega (arith, sum_to_change n i (λ j. 0) f l h, sum_to-zero n)
