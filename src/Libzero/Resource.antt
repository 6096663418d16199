-- ===== src/Libzero/Resource.antt =====
-- libzero/src/resource.rs: distributed identifiers and multi-dimensional capacity vectors.
-- `[u64; 8]` is a list; an index beyond the list panics. The zeroed `_padding` fields are left out.
pub mod Vectors
use project_zero.Base.{
  ℕ, zero, suc, Bool, true, false, ◌&&◌, ◌||◌, List, [], ◌∷◌, Outcome, ok, err, panic, ltb, ◌==◌,
  if◌then◌else◌, replicate, length, Option, none, some, set,
}
use project_zero.Base.Results.{◌>>=◌}
use project_zero.Base.Words.{checked_add_u64, checked_sub_u64}
use project_zero.Libzero.Error.{
  ZeroError, unsupported_resource_shape, deadline_exhaustion, vector_conservation_violated,
}

abbrev pub max_accounting_dimensions : ℕ
max_accounting_dimensions = 8

abbrev pub max_resources_per_node : ℕ
max_resources_per_node = 64

pub record DistributedId : Type 0 where
  pub node_id : ℕ  -- u64
  pub local_seq : ℕ  -- u64

-- The derived `==`.
abbrev pub id_eq : DistributedId → DistributedId → Bool
id_eq a b = a.node_id == b.node_id && a.local_seq == b.local_seq

unfoldable pub is_nil : DistributedId → Bool
is_nil a = a.node_id == 0 && a.local_seq == 0

pub record DimensionCapacityVector : Type 0 where
  pub dimensions : List ℕ  -- [u64; 8]
  pub dimension_count : ℕ  -- u8

unfoldable pub empty : DimensionCapacityVector
empty = record { dimensions = replicate max_accounting_dimensions 0; dimension_count = 0 }

unfoldable pub single : ℕ → DimensionCapacityVector
unfolding empty
single amount = record { dimensions = set empty.dimensions 0 amount; dimension_count = 1 }

-- The `while` of `new`: copies values while both the values and the count last.
pub copy_values : ℕ → List ℕ → List ℕ → List ℕ
copy_values zero values out = out
copy_values (suc n) [] out = out
copy_values (suc n) (v ∷ values) [] = []
copy_values (suc n) (v ∷ values) (o ∷ out) = v ∷ copy_values n values out

unfoldable pub new : ℕ → List ℕ → Outcome ZeroError DimensionCapacityVector
unfolding empty copy_values
new count values =
    if ltb max_accounting_dimensions count || ltb max_accounting_dimensions (length values)
    then err unsupported_resource_shape
    else ok
        (record { dimensions = copy_values count values empty.dimensions; dimension_count = count })

-- The loop of `is_zero` over the first dimensions.
is_zero_dims : ℕ → List ℕ → Outcome ZeroError Bool
is_zero_dims zero xs = ok true
is_zero_dims (suc n) [] = panic
is_zero_dims (suc n) (x ∷ xs) = let rest = is_zero_dims n xs in if x == 0 then rest else ok false

unfoldable pub is_zero : DimensionCapacityVector → Outcome ZeroError Bool
unfolding is_zero_dims
is_zero v = is_zero_dims v.dimension_count v.dimensions

abbrev pub or_err : Option ℕ → ZeroError → Outcome ZeroError ℕ
or_err none e = err e
or_err (some n) e = ok n

-- The count that `checked_add`, `checked_sub` and `le` work with.
abbrev pub joint_count : DimensionCapacityVector → DimensionCapacityVector → ℕ
joint_count a b =
    if ltb b.dimension_count a.dimension_count then a.dimension_count else b.dimension_count

-- The loops over the first dimensions; what lies beyond is 0 in the result, which begins as `empty`.
pub add_dims : ℕ → List ℕ → List ℕ → Outcome ZeroError (List ℕ)
add_dims zero xs ys = ok (replicate (length xs) 0)
add_dims (suc n) (x ∷ xs) (y ∷ ys) = do
  z ← or_err (checked_add_u64 x y) deadline_exhaustion
  zs ← add_dims n xs ys
  ok (z ∷ zs)
add_dims (suc n) _ _ = panic

pub sub_dims : ℕ → List ℕ → List ℕ → Outcome ZeroError (List ℕ)
sub_dims zero xs ys = ok (replicate (length xs) 0)
sub_dims (suc n) (x ∷ xs) (y ∷ ys) = do
  z ← or_err (checked_sub_u64 x y) vector_conservation_violated
  zs ← sub_dims n xs ys
  ok (z ∷ zs)
sub_dims (suc n) _ _ = panic

pub checked_add :
    DimensionCapacityVector → DimensionCapacityVector → Outcome ZeroError DimensionCapacityVector
checked_add a b =
    if ltb max_accounting_dimensions (joint_count a b) then err unsupported_resource_shape else do
      dims ← add_dims (joint_count a b) a.dimensions b.dimensions
      ok (record { dimensions = dims; dimension_count = joint_count a b })

pub checked_sub :
    DimensionCapacityVector → DimensionCapacityVector → Outcome ZeroError DimensionCapacityVector
checked_sub a b =
    if ltb max_accounting_dimensions (joint_count a b) then err unsupported_resource_shape else do
      dims ← sub_dims (joint_count a b) a.dimensions b.dimensions
      ok (record { dimensions = dims; dimension_count = joint_count a b })

-- The loop of `le`.
le_dims : ℕ → List ℕ → List ℕ → Outcome ZeroError Bool
le_dims zero xs ys = ok true
le_dims (suc n) (x ∷ xs) (y ∷ ys) = let rest = le_dims n xs ys in if ltb y x then ok false else rest
le_dims (suc n) _ _ = panic

pub le : DimensionCapacityVector → DimensionCapacityVector → Outcome ZeroError Bool
unfolding le_dims
le a b = le_dims (joint_count a b) a.dimensions b.dimensions
