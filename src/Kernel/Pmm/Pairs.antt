-- ===== src/Kernel/Pmm/Pairs.antt =====
-- The two-bit pairs of a word of kernel/src/mm/pmm.rs.
use project_zero.Base.{ℕ, zero, suc, ◌+◌, ◌*◌, ◌/◌, ◌%◌, ◌<◌, ◌≡◌, ◌≢◌, refl, ap, arith, ◌≤◌, ◌∙◌}
use project_zero.Kernel.Pmm.{pair_at, put_pair, active_mask}

pub pair_at_lt : (w k : ℕ) → pair_at w k < 4
unfolding pair_at
pair_at_lt w zero = omega arith
pair_at_lt w (suc k) = pair_at_lt (w / 4) k

upper_digits : (q r : ℕ) → r < 4 → (q * 4 + r) / 4 ≡ q
upper_digits q r h = omega arith

-- A pair that was put is read back.
pub pair_at-put_pair : (w k b : ℕ) → b < 4 → pair_at (put_pair w k b) k ≡ b
unfolding pair_at put_pair
pair_at-put_pair w zero b h = omega arith
pair_at-put_pair w (suc k) b h =
    ap (λ v. pair_at v k) (upper_digits (put_pair (w / 4) k b) (w % 4) (omega arith))
    ∙ pair_at-put_pair (w / 4) k b h

-- The other pairs stay.
pub pair_at-put_pair_ne : (w k j b : ℕ) → b < 4 → k ≢ j → pair_at (put_pair w k b) j ≡ pair_at w j
unfolding pair_at put_pair
pair_at-put_pair_ne w zero zero b h n = absurd (n refl)
pair_at-put_pair_ne w zero (suc j) b h n = ap (λ v. pair_at v j) (upper_digits (w / 4) b h)
pair_at-put_pair_ne w (suc k) zero b h n = omega arith
pair_at-put_pair_ne w (suc k) (suc j) b h n =
    ap (λ v. pair_at v j) (upper_digits (put_pair (w / 4) k b) (w % 4) (omega arith))
    ∙ pair_at-put_pair_ne (w / 4) k j b h (λ e. n (ap suc e))

-- `n` pairs of 01.
unfoldable pub full_mask : ℕ → ℕ
full_mask zero = 0
full_mask (suc n) = 1 + 4 * full_mask n

active_mask_bound : (n w : ℕ) → active_mask n w ≤ full_mask n
unfolding active_mask full_mask
active_mask_bound zero w = omega arith
active_mask_bound (suc n) w = ground (arith, active_mask_bound n (w / 4))

-- A full mask has no pair of zeros.
pub active_mask-full : (n w k : ℕ) → active_mask n w ≡ full_mask n → k < n → pair_at w k ≢ 0
unfolding active_mask full_mask pair_at
active_mask-full zero w k e h = absurd (omega arith)
active_mask-full (suc n) w zero e h = λ z. ground (arith, active_mask_bound n (w / 4))
active_mask-full (suc n) w (suc k) e h =
    active_mask-full n (w / 4) k (ground (arith, active_mask_bound n (w / 4))) (omega arith)
