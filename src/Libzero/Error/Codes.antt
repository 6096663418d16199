-- ===== src/Libzero/Error/Codes.antt =====
-- libzero/src/error.rs: the two directions of the code table agree.
use project_zero.Base.{
  ℕ, zero, suc, ◌+◌, ◌≡◌, refl, ◌⊎◌, inl, inr, List, [], ◌∷◌, arith, get_or, Bool-cases, ◌==◌,
}
use project_zero.Base.Int.{ℤ, pos, negsuc}
use project_zero.Libzero.Error.{ZeroError, success, unknown, negative_codes, from_i64, as_i64}

-- Decoding the code of an error gives the error back.
pub from_i64-as_i64 : (e : ZeroError) → from_i64 (as_i64 e) ≡ e
unfolding from_i64 as_i64
from_i64-as_i64 success = refl
from_i64-as_i64 _ = refl

-- The errors of a list carry the codes -(k + 1), -(k + 2), and so on.
abbrev CodedFrom : ℕ → List ZeroError → Type 0
CodedFrom k [] = Unit
CodedFrom k (e ∷ es) = (as_i64 e ≡ negsuc k) × CodedFrom (suc k) es

as_i64-get_or :
    (k n : ℕ) (es : List ZeroError)
    → CodedFrom k es
    → (as_i64 (get_or es n unknown) ≡ negsuc (k + n)) ⊎ (get_or es n unknown ≡ unknown)
as_i64-get_or k n [] c = inr refl
as_i64-get_or k zero (e ∷ es) c = ground arith
as_i64-get_or k (suc n) (e ∷ es) c = ground (arith, as_i64-get_or (suc k) n es c.1)

negative_codes-CodedFrom : CodedFrom 0 negative_codes
unfolding as_i64
negative_codes-CodedFrom = ground arith

-- A code decodes to the error that carries it, or to `Unknown`.
pub as_i64-from_i64 : (z : ℤ) → (as_i64 (from_i64 z) ≡ z) ⊎ (from_i64 z ≡ unknown)
unfolding from_i64
as_i64-from_i64 (pos n) = elim (Bool-cases (n == 0)) [
  | inl e ↦ inl (unfold as_i64 in ground arith)
  | inr e ↦ inr (ground arith)
]
as_i64-from_i64 (negsuc n) =
    ground (arith, as_i64-get_or 0 n negative_codes negative_codes-CodedFrom)
