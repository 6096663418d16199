-- ===== src/Libzero/Resource/Vectors.antt =====
-- Capacity vectors as eight plain numbers: what the dimension loops of libzero/src/resource.rs
-- compute on vectors of the right shape.
use project_zero.Base.{
  ℕ, zero, suc, ◌+◌, ◌-◌, ◌≤◌, ◌≡◌, refl, sym, Bool, true, ◌&&◌, List, [], ◌∷◌, arith, ok, err,
  length, leb, ltb, replicate, if◌then◌else◌,
}
use project_zero.Base.Words.{u64_mod}
use project_zero.Libzero.Error.{deadline_exhaustion, vector_conservation_violated}
use project_zero.Libzero.Resource.{
  DimensionCapacityVector, max_accounting_dimensions, joint_count, add_dims, sub_dims, le_dims,
  checked_add, checked_sub, le,
}

-- Sums and differences in each place, and the two tests on them.
abbrev pub add_all : List ℕ → List ℕ → List ℕ
add_all (x ∷ xs) (y ∷ ys) = (x + y) ∷ add_all xs ys
add_all _ _ = []

abbrev pub sub_all : List ℕ → List ℕ → List ℕ
sub_all (x ∷ xs) (y ∷ ys) = (x - y) ∷ sub_all xs ys
sub_all _ _ = []

abbrev pub all_fit : List ℕ → Bool
all_fit [] = true
all_fit (x ∷ xs) = ltb x u64_mod && all_fit xs

abbrev pub all_le : List ℕ → List ℕ → Bool
all_le (x ∷ xs) (y ∷ ys) = leb x y && all_le xs ys
all_le _ _ = true

-- Nothing but zeros from place `n` on.
abbrev pub ZeroFrom : ℕ → List ℕ → Type 0
ZeroFrom n [] = Unit
ZeroFrom zero (x ∷ xs) = (x ≡ 0) × ZeroFrom zero xs
ZeroFrom (suc n) (x ∷ xs) = ZeroFrom n xs

-- What the constructors `empty`, `single` and `new` make, and the checked operations keep.
pub record IsShaped (v : DimensionCapacityVector) : Type 0 where
  pub long : length v.dimensions ≡ max_accounting_dimensions
  pub counted : v.dimension_count ≤ max_accounting_dimensions
  pub clear : ZeroFrom v.dimension_count v.dimensions

add_dims_zero :
    (xs ys : List ℕ)
    → length xs ≡ length ys
    → ZeroFrom 0 xs
    → ZeroFrom 0 ys
    → (add_all xs ys ≡ replicate (length xs) 0) × (all_fit (add_all xs ys) ≡ true)
add_dims_zero [] ys l p q = (refl, refl)
add_dims_zero (x ∷ xs) [] l p q = absurd (omega arith)
add_dims_zero (x ∷ xs) (y ∷ ys) l p q = ground (arith, add_dims_zero xs ys)

-- The loop of `checked_add`: all places at once.
add_dims_lem :
    (n : ℕ) (xs ys : List ℕ)
    → length xs ≡ length ys
    → n ≤ length xs
    → ZeroFrom n xs
    → ZeroFrom n ys
    → add_dims n xs ys
      ≡ (if all_fit (add_all xs ys) then ok (add_all xs ys) else err deadline_exhaustion)
unfolding add_dims
add_dims_lem zero xs ys l h p q = ground (arith, add_dims_zero xs ys l p q)
add_dims_lem (suc n) [] ys l h p q = absurd (omega arith)
add_dims_lem (suc n) (x ∷ xs) [] l h p q = absurd (omega arith)
add_dims_lem (suc n) (x ∷ xs) (y ∷ ys) l h p q = ground (arith, add_dims_lem n xs ys)

-- The loop of `checked_sub`.
sub_dims_zero :
    (xs ys : List ℕ)
    → length xs ≡ length ys
    → ZeroFrom 0 xs
    → ZeroFrom 0 ys
    → (sub_all xs ys ≡ replicate (length xs) 0) × (all_le ys xs ≡ true)
sub_dims_zero [] [] l p q = (refl, refl)
sub_dims_zero [] (y ∷ ys) l p q = absurd (omega arith)
sub_dims_zero (x ∷ xs) [] l p q = absurd (omega arith)
sub_dims_zero (x ∷ xs) (y ∷ ys) l p q = ground (arith, sub_dims_zero xs ys)

sub_dims_lem :
    (n : ℕ) (xs ys : List ℕ)
    → length xs ≡ length ys
    → n ≤ length xs
    → ZeroFrom n xs
    → ZeroFrom n ys
    → sub_dims n xs ys
      ≡ (if all_le ys xs then ok (sub_all xs ys) else err vector_conservation_violated)
unfolding sub_dims
sub_dims_lem zero xs ys l h p q = ground (arith, sub_dims_zero xs ys l p q)
sub_dims_lem (suc n) [] ys l h p q = absurd (omega arith)
sub_dims_lem (suc n) (x ∷ xs) [] l h p q = absurd (omega arith)
sub_dims_lem (suc n) (x ∷ xs) (y ∷ ys) l h p q = ground (arith, sub_dims_lem n xs ys)

-- The loop of `le`.
le_dims_lem :
    (n : ℕ) (xs ys : List ℕ)
    → length xs ≡ length ys
    → n ≤ length xs
    → ZeroFrom n xs
    → ZeroFrom n ys
    → le_dims n xs ys ≡ ok (all_le xs ys)
unfolding le_dims
le_dims_lem zero xs ys l h p q = ground (arith, sub_dims_zero ys xs (sym l) q p)
le_dims_lem (suc n) [] ys l h p q = absurd (omega arith)
le_dims_lem (suc n) (x ∷ xs) [] l h p q = absurd (omega arith)
le_dims_lem (suc n) (x ∷ xs) (y ∷ ys) l h p q = ground (arith, le_dims_lem n xs ys)

ZeroFrom-mono : (m n : ℕ) (xs : List ℕ) → m ≤ n → ZeroFrom m xs → ZeroFrom n xs
ZeroFrom-mono m n [] h z = tt
ZeroFrom-mono zero zero (x ∷ xs) h z = z
ZeroFrom-mono zero (suc n) (x ∷ xs) h z = ZeroFrom-mono zero n xs (omega arith) z.1
ZeroFrom-mono (suc m) zero (x ∷ xs) h z = absurd (omega arith)
ZeroFrom-mono (suc m) (suc n) (x ∷ xs) h z = ZeroFrom-mono m n xs (omega arith) z

ZeroFrom-add_all :
    (n : ℕ) (xs ys : List ℕ) → ZeroFrom n xs → ZeroFrom n ys → ZeroFrom n (add_all xs ys)
ZeroFrom-add_all n [] ys p q = tt
ZeroFrom-add_all n (x ∷ xs) [] p q = tt
ZeroFrom-add_all zero (x ∷ xs) (y ∷ ys) p q = ground (arith, ZeroFrom-add_all 0 xs ys)
ZeroFrom-add_all (suc n) (x ∷ xs) (y ∷ ys) p q = ZeroFrom-add_all n xs ys p q

ZeroFrom-sub_all : (n : ℕ) (xs ys : List ℕ) → ZeroFrom n xs → ZeroFrom n (sub_all xs ys)
ZeroFrom-sub_all n [] ys p = tt
ZeroFrom-sub_all n (x ∷ xs) [] p = tt
ZeroFrom-sub_all zero (x ∷ xs) (y ∷ ys) p = ground (arith, ZeroFrom-sub_all 0 xs ys)
ZeroFrom-sub_all (suc n) (x ∷ xs) (y ∷ ys) p = ZeroFrom-sub_all n xs ys p

pub length-add_all : (xs ys : List ℕ) → length xs ≡ length ys → length (add_all xs ys) ≡ length xs
length-add_all [] ys l = refl
length-add_all (x ∷ xs) [] l = absurd (omega arith)
length-add_all (x ∷ xs) (y ∷ ys) l = omega (arith, length-add_all xs ys)

pub length-sub_all : (xs ys : List ℕ) → length xs ≡ length ys → length (sub_all xs ys) ≡ length xs
length-sub_all [] ys l = refl
length-sub_all (x ∷ xs) [] l = absurd (omega arith)
length-sub_all (x ∷ xs) (y ∷ ys) l = omega (arith, length-sub_all xs ys)

-- The sum and the difference of two vectors, in every place.
abbrev pub plus : DimensionCapacityVector → DimensionCapacityVector → DimensionCapacityVector
plus a b = record {
  dimensions = add_all a.dimensions b.dimensions;
  dimension_count = joint_count a b;
}

abbrev pub minus : DimensionCapacityVector → DimensionCapacityVector → DimensionCapacityVector
minus a b = record {
  dimensions = sub_all a.dimensions b.dimensions;
  dimension_count = joint_count a b;
}

module _ (a b : DimensionCapacityVector) (p : IsShaped a) (q : IsShaped b) where
  joint_clear : ZeroFrom (joint_count a b) a.dimensions × ZeroFrom (joint_count a b) b.dimensions
  joint_clear = (
    ZeroFrom-mono a.dimension_count (joint_count a b) a.dimensions (ground arith) p.clear,
    ZeroFrom-mono b.dimension_count (joint_count a b) b.dimensions (ground arith) q.clear,
  )

  joint_counted : joint_count a b ≤ 8
  joint_counted = ground arith

  -- On shaped vectors `checked_add` adds in all eight places, or fails where a sum exceeds a u64.
  pub checked_add_lem : checked_add a b ≡ (
      if all_fit (add_all a.dimensions b.dimensions)
      then ok (plus a b)
      else err deadline_exhaustion)
  unfolding checked_add
  checked_add_lem = ground (
    arith,
    joint_counted,
    joint_clear,
    add_dims_lem (joint_count a b) a.dimensions b.dimensions (omega arith)
        (omega (arith, joint_counted)) joint_clear.0 joint_clear.1,
  )

  -- On shaped vectors `checked_sub` subtracts in all eight places, or fails where one falls short.
  pub checked_sub_lem : checked_sub a b ≡ (
      if all_le b.dimensions a.dimensions then ok (minus a b) else err vector_conservation_violated)
  unfolding checked_sub
  checked_sub_lem = ground (
    arith,
    joint_counted,
    joint_clear,
    sub_dims_lem (joint_count a b) a.dimensions b.dimensions (omega arith)
        (omega (arith, joint_counted)) joint_clear.0 joint_clear.1,
  )

  -- On shaped vectors `le` compares all eight places.
  pub le_lem : le a b ≡ ok (all_le a.dimensions b.dimensions)
  unfolding le
  le_lem =
      le_dims_lem (joint_count a b) a.dimensions b.dimensions (omega arith)
        (omega (arith, joint_counted)) joint_clear.0 joint_clear.1

  pub plus-IsShaped : IsShaped (plus a b)
  plus-IsShaped = record {
    long = omega (arith, length-add_all a.dimensions b.dimensions);
    counted = joint_counted;
    clear =
        ZeroFrom-add_all (joint_count a b) a.dimensions b.dimensions joint_clear.0 joint_clear.1;
  }

  pub minus-IsShaped : IsShaped (minus a b)
  minus-IsShaped = record {
    long = omega (arith, length-sub_all a.dimensions b.dimensions);
    counted = joint_counted;
    clear = ZeroFrom-sub_all (joint_count a b) a.dimensions b.dimensions joint_clear.0;
  }
