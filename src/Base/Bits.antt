-- ===== src/Base/Bits.antt =====
-- Masks of a machine word: the bits of one number among those of another.
use Prim.Native.Nat.{
  ℕ, zero, suc, ◌+◌, ◌-◌, ◌*◌, ◌/◌, ◌%◌, ◌≤◌, min, bit_and, digits, bit_and-bitwise,
}
use mathlib.Core.Path.{◌≡◌, refl, ap}
use mathlib.Core.Logic.{◌↔◌}
use native.Mathlib.Omega.{arith}

-- The word of that many ones.
abbrev pub ones : ℕ → ℕ
ones zero = 0
ones (suc n) = 2 * ones n + 1

-- Among the lowest bits, each one of the first number is one of the second.
pub Within : ℕ → ℕ → ℕ → Type 0
Within zero a b = Unit
Within (suc n) a b = (a % 2 ≤ b % 2) × Within n (a / 2) (b / 2)

abbrev conjunction : ℕ → ℕ → ℕ → ℕ
conjunction n a b = digits (λ b. zero) min n a b

zero-bit_and : (b : ℕ) → bit_and 0 b ≡ 0
zero-bit_and b = bit_and-bitwise 0 b

-- More steps than digits change nothing.
steps_eq : (k l a b : ℕ) → a ≤ k → a ≤ l → conjunction k a b ≡ conjunction l a b
steps_eq zero zero zero b h i = refl
steps_eq zero (suc l) zero b h i = refl
steps_eq (suc k) zero zero b h i = refl
steps_eq (suc k) (suc l) zero b h i = refl
steps_eq zero l (suc a) b h i = absurd (omega arith)
steps_eq (suc k) zero (suc a) b h i = absurd (omega arith)
steps_eq (suc k) (suc l) (suc a) b h i =
    omega (arith, steps_eq k l (suc a / 2) (b / 2) (omega arith) (omega arith))

-- The lowest bit apart.
bit_and_halves : (a b : ℕ) → bit_and a b ≡ bit_and (a / 2) (b / 2) * 2 + min (a % 2) (b % 2)
bit_and_halves zero b = omega (arith, zero-bit_and b, zero-bit_and (b / 2))
bit_and_halves (suc a) b = omega (
  arith,
  bit_and-bitwise (suc a) b,
  bit_and-bitwise (suc a / 2) (b / 2),
  steps_eq a (suc a / 2) (suc a / 2) (b / 2) (omega arith) (omega arith),
)

pub bit_and-zero : (k a : ℕ) → a ≤ k → bit_and a 0 ≡ 0
bit_and-zero zero a h = let z : a ≡ 0 = omega arith in rw z (zero-bit_and 0)
bit_and-zero (suc k) a h = omega (arith, bit_and_halves a 0, bit_and-zero k (a / 2) (omega arith))

and_not_halves :
    (n a b : ℕ)
    → b ≤ 2 * ones n + 1
    → bit_and a (2 * ones n + 1 - b)
      ≡ bit_and (a / 2) (ones n - b / 2) * 2 + min (a % 2) (1 - b % 2)
and_not_halves n a b k =
    let half : (2 * ones n + 1 - b) / 2 ≡ ones n - b / 2 = omega arith in
    let low : (2 * ones n + 1 - b) % 2 ≡ 1 - b % 2 = omega arith in
    omega (
      arith,
      bit_and_halves a (2 * ones n + 1 - b),
      ap (λ k. bit_and (a / 2) k) half,
      ap (λ k. min (a % 2) k) low,
    )

-- The ones of `a` that are none of `b`: there are none exactly where `a` lies within `b`.
pub bit_and-Within :
    (n a b : ℕ) → a ≤ ones n → b ≤ ones n → (bit_and a (ones n - b) ≡ 0) ↔ Within n a b
unfolding Within
bit_and-Within zero a b h k =
    let z : a ≡ 0 = omega arith in (λ e. tt, λ w. rw z (zero-bit_and (0 - b)))
bit_and-Within (suc n) a b h k =
    let (down, up) = bit_and-Within n (a / 2) (b / 2) (omega arith) (omega arith) in
    let split = and_not_halves n a b k in
    (
      λ e. (omega (arith, split, e), down (omega (arith, split, e))),
      λ w. omega (arith, split, up w.1, w.0),
    )

-- A mask is there in full exactly where it lies within the word.
-- For this direction the first number may have more bits.
pub bit_and-Within_of : (n a b : ℕ) → b ≤ ones n → bit_and a (ones n - b) ≡ 0 → Within n a b
unfolding Within
bit_and-Within_of zero a b k e = tt
bit_and-Within_of (suc n) a b k e =
    let split = and_not_halves n a b k in
    (
      omega (arith, split, e),
      bit_and-Within_of n (a / 2) (b / 2) (omega arith) (omega (arith, split, e)),
    )

pub bit_and_mask-Within : (n m r : ℕ) → m ≤ ones n → (bit_and r m ≡ m) ↔ Within n m r
unfolding Within
bit_and_mask-Within zero m r h =
    let z : m ≡ 0 = omega arith in (λ e. tt, λ w. rw z (bit_and-zero r r (omega arith)))
bit_and_mask-Within (suc n) m r h =
    let (down, up) = bit_and_mask-Within n (m / 2) (r / 2) (omega arith) in
    let split = bit_and_halves r m in
    (
      λ e. (omega (arith, split, e), down (omega (arith, split, e))),
      λ w. omega (arith, split, up w.1, w.0),
    )

pub Within-refl : (n a : ℕ) → Within n a a
unfolding Within
Within-refl zero a = tt
Within-refl (suc n) a = (omega arith, Within-refl n (a / 2))

pub Within-trans : (n a b c : ℕ) → Within n a b → Within n b c → Within n a c
unfolding Within
Within-trans zero a b c v w = tt
Within-trans (suc n) a b c v w =
    (omega (arith, v.0, w.0), Within-trans n (a / 2) (b / 2) (c / 2) v.1 w.1)
