-- ===== src/Libzero/Accounting/Domain/Balance.antt =====
-- The balance of an accounting domain, place by place: lemmas on the eight numbers of its vectors.
use project_zero.Base.{
  ℕ, zero, suc, ◌≤◌, ◌≡◌, refl, true, List, [], ◌∷◌, arith, ok, length, replicate,
}
use project_zero.Libzero.Resource.Vectors.{add_all, sub_all, all_fit, all_le, ZeroFrom}
use project_zero.Libzero.Accounting.Domain.{conserved_dims, sweep}

-- The four shares, added up in every place.
abbrev pub total : List ℕ → List ℕ → List ℕ → List ℕ → List ℕ
total av rs al un = add_all (add_all (add_all av rs) al) un

abbrev pub Same : List ℕ → List ℕ → Type 0
Same xs ys = length xs ≡ length ys

-- With a share of the capacity moved, the total stays.
pub total-admit :
    (av rs al un q : List ℕ)
    → Same q av
    → all_le q av ≡ true
    → total (sub_all av q) rs (add_all al q) un ≡ total av rs al un
total-admit [] rs al un q l h = refl
total-admit (a ∷ av) rs al un [] l h = absurd (omega arith)
total-admit (a ∷ av) [] al un (x ∷ q) l h = refl
total-admit (a ∷ av) (r ∷ rs) [] un (x ∷ q) l h = refl
total-admit (a ∷ av) (r ∷ rs) (b ∷ al) [] (x ∷ q) l h = refl
total-admit (a ∷ av) (r ∷ rs) (b ∷ al) (u ∷ un) (x ∷ q) l h =
    ground (arith, total-admit av rs al un q)

pub total-release :
    (av rs al un q : List ℕ)
    → Same q al
    → all_le q al ≡ true
    → total (add_all av q) rs (sub_all al q) un ≡ total av rs al un
total-release [] rs al un q l h = refl
total-release (a ∷ av) [] al un [] l h = refl
total-release (a ∷ av) [] al un (x ∷ q) l h = refl
total-release (a ∷ av) (r ∷ rs) [] un [] l h = refl
total-release (a ∷ av) (r ∷ rs) [] un (x ∷ q) l h = refl
total-release (a ∷ av) (r ∷ rs) (b ∷ al) un [] l h = absurd (omega arith)
total-release (a ∷ av) (r ∷ rs) (b ∷ al) [] (x ∷ q) l h = refl
total-release (a ∷ av) (r ∷ rs) (b ∷ al) (u ∷ un) (x ∷ q) l h =
    ground (arith, total-release av rs al un q)

pub total-quarantine :
    (av rs al un q : List ℕ)
    → Same q al
    → all_le q al ≡ true
    → total av rs (sub_all al q) (add_all un q) ≡ total av rs al un
total-quarantine [] rs al un q l h = refl
total-quarantine (a ∷ av) [] al un q l h = refl
total-quarantine (a ∷ av) (r ∷ rs) [] un q l h = refl
total-quarantine (a ∷ av) (r ∷ rs) (b ∷ al) un [] l h = absurd (omega arith)
total-quarantine (a ∷ av) (r ∷ rs) (b ∷ al) [] (x ∷ q) l h = refl
total-quarantine (a ∷ av) (r ∷ rs) (b ∷ al) (u ∷ un) (x ∷ q) l h =
    ground (arith, total-quarantine av rs al un q)

pub total-confirm :
    (av rs al un q : List ℕ)
    → Same q av
    → all_le q un ≡ true
    → total (add_all av q) rs al (sub_all un q) ≡ total av rs al un
total-confirm [] rs al un q l h = refl
total-confirm (a ∷ av) rs al un [] l h = absurd (omega arith)
total-confirm (a ∷ av) [] al un (x ∷ q) l h = refl
total-confirm (a ∷ av) (r ∷ rs) [] un (x ∷ q) l h = refl
total-confirm (a ∷ av) (r ∷ rs) (b ∷ al) [] (x ∷ q) l h = refl
total-confirm (a ∷ av) (r ∷ rs) (b ∷ al) (u ∷ un) (x ∷ q) l h =
    ground (arith, total-confirm av rs al un q)

pub total-reserve :
    (av rs al un q : List ℕ)
    → Same q av
    → all_le q av ≡ true
    → total (sub_all av q) (add_all rs q) al un ≡ total av rs al un
total-reserve [] rs al un q l h = refl
total-reserve (a ∷ av) rs al un [] l h = absurd (omega arith)
total-reserve (a ∷ av) [] al un (x ∷ q) l h = refl
total-reserve (a ∷ av) (r ∷ rs) [] un (x ∷ q) l h = refl
total-reserve (a ∷ av) (r ∷ rs) (b ∷ al) [] (x ∷ q) l h = refl
total-reserve (a ∷ av) (r ∷ rs) (b ∷ al) (u ∷ un) (x ∷ q) l h =
    ground (arith, total-reserve av rs al un q)

-- A share of what fits fits.
pub all_fit-total :
    (av rs al un : List ℕ)
    → Same rs av
    → Same al av
    → Same un av
    → all_fit (total av rs al un) ≡ true
    → (all_fit av ≡ true) × (all_fit rs ≡ true) × (all_fit al ≡ true) × (all_fit un ≡ true)
all_fit-total [] [] [] [] k l m h = ground arith
all_fit-total [] (r ∷ rs) al un k l m h = absurd (omega arith)
all_fit-total [] [] (b ∷ al) un k l m h = absurd (omega arith)
all_fit-total [] [] [] (u ∷ un) k l m h = absurd (omega arith)
all_fit-total (a ∷ av) [] al un k l m h = absurd (omega arith)
all_fit-total (a ∷ av) (r ∷ rs) [] un k l m h = absurd (omega arith)
all_fit-total (a ∷ av) (r ∷ rs) (b ∷ al) [] k l m h = absurd (omega arith)
all_fit-total (a ∷ av) (r ∷ rs) (b ∷ al) (u ∷ un) k l m h =
    ground (arith, all_fit-total av rs al un)

-- The assertion holds of a domain whose total is its physical capacity.
pub conserved_dims-total :
    (n : ℕ) (av rs al un : List ℕ)
    → Same rs av
    → Same al av
    → Same un av
    → n ≤ length av
    → all_fit (total av rs al un) ≡ true
    → conserved_dims n av rs al un (total av rs al un) ≡ ok tt
unfolding conserved_dims
conserved_dims-total zero av rs al un k l m b h = refl
conserved_dims-total (suc n) [] rs al un k l m b h = absurd (omega arith)
conserved_dims-total (suc n) (a ∷ av) [] al un k l m b h = absurd (omega arith)
conserved_dims-total (suc n) (a ∷ av) (r ∷ rs) [] un k l m b h = absurd (omega arith)
conserved_dims-total (suc n) (a ∷ av) (r ∷ rs) (c ∷ al) [] k l m b h = absurd (omega arith)
conserved_dims-total (suc n) (a ∷ av) (r ∷ rs) (c ∷ al) (u ∷ un) k l m b h =
    ground (arith, conserved_dims-total n av rs al un)

abbrev pub zeros : List ℕ → List ℕ
zeros xs = replicate (length xs) 0

-- Where the total is nothing each share is nothing.
zero-total :
    (av rs al un : List ℕ)
    → Same rs av
    → Same al av
    → Same un av
    → ZeroFrom 0 (total av rs al un)
    → (av ≡ zeros av) × (rs ≡ zeros rs) × (al ≡ zeros al) × (un ≡ total av rs al un)
zero-total [] [] [] [] k l m h = (refl, refl, refl, refl)
zero-total [] (r ∷ rs) al un k l m h = absurd (omega arith)
zero-total [] [] (b ∷ al) un k l m h = absurd (omega arith)
zero-total [] [] [] (u ∷ un) k l m h = absurd (omega arith)
zero-total (a ∷ av) [] al un k l m h = absurd (omega arith)
zero-total (a ∷ av) (r ∷ rs) [] un k l m h = absurd (omega arith)
zero-total (a ∷ av) (r ∷ rs) (b ∷ al) [] k l m h = absurd (omega arith)
zero-total (a ∷ av) (r ∷ rs) (b ∷ al) (u ∷ un) k l m h = ground (arith, zero-total av rs al un)

-- The sweep moves the whole total to the unavailable share.
pub sweep-total :
    (n : ℕ) (av rs al un : List ℕ)
    → Same rs av
    → Same al av
    → Same un av
    → n ≤ length av
    → all_fit (total av rs al un) ≡ true
    → ZeroFrom n (total av rs al un)
    → sweep n av rs al un ≡ record {
      outcome = ok tt;
      avail = zeros av;
      resv = zeros rs;
      alloc = zeros al;
      unavail = total av rs al un;
    }
unfolding sweep
sweep-total zero av rs al un k l m b h z = ground (arith, zero-total av rs al un k l m z)
sweep-total (suc n) [] rs al un k l m b h z = absurd (omega arith)
sweep-total (suc n) (a ∷ av) [] al un k l m b h z = absurd (omega arith)
sweep-total (suc n) (a ∷ av) (r ∷ rs) [] un k l m b h z = absurd (omega arith)
sweep-total (suc n) (a ∷ av) (r ∷ rs) (c ∷ al) [] k l m b h z = absurd (omega arith)
sweep-total (suc n) (a ∷ av) (r ∷ rs) (c ∷ al) (u ∷ un) k l m b h z =
    ground (arith, sweep-total n av rs al un)

pub add_all-zero : (xs : List ℕ) (n : ℕ) → length xs ≡ n → add_all xs (replicate n 0) ≡ xs
add_all-zero [] n l = refl
add_all-zero (x ∷ xs) zero l = absurd (omega arith)
add_all-zero (x ∷ xs) (suc n) l = ground (arith, add_all-zero xs n)

pub zero-add_all : (xs : List ℕ) (n : ℕ) → length xs ≡ n → add_all (replicate n 0) xs ≡ xs
zero-add_all [] zero l = refl
zero-add_all [] (suc n) l = refl
zero-add_all (x ∷ xs) zero l = absurd (omega arith)
zero-add_all (x ∷ xs) (suc n) l = ground (arith, zero-add_all xs n)

pub ZeroFrom-replicate : (n m : ℕ) → ZeroFrom n (replicate m 0)
ZeroFrom-replicate n zero = tt
ZeroFrom-replicate zero (suc m) = (refl, ZeroFrom-replicate 0 m)
ZeroFrom-replicate (suc n) (suc m) = ZeroFrom-replicate n m
