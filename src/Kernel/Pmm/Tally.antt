-- ===== src/Kernel/Pmm/Tally.antt =====
-- The counting loop of kernel/src/mm/pmm.rs when the state of one frame changes.
use project_zero.Base.{
  ℕ, zero, suc, ◌+◌, ◌<◌, ◌≤◌, ◌≡◌, ◌≢◌, refl, sym, ap, ◌∙◌, arith, subst, eq_or_ne, inl, inr,
}
use project_zero.Kernel.Pmm.{
  FrameState, free, allocated, reserved, unusable, get_state, PhysicalMemoryManager, Counts, bump,
  tally,
}

pub bump_comm : (s t : FrameState) (c : Counts) → bump s (bump t c) ≡ bump t (bump s c)
bump_comm free free c = refl
bump_comm free allocated c = refl
bump_comm free reserved c = refl
bump_comm free unusable c = refl
bump_comm allocated free c = refl
bump_comm allocated allocated c = refl
bump_comm allocated reserved c = refl
bump_comm allocated unusable c = refl
bump_comm reserved free c = refl
bump_comm reserved allocated c = refl
bump_comm reserved reserved c = refl
bump_comm reserved unusable c = refl
bump_comm unusable free c = refl
bump_comm unusable allocated c = refl
bump_comm unusable reserved c = refl
bump_comm unusable unusable c = refl

abbrev pub sum : Counts → ℕ
sum c = c.count_free + c.count_allocated + c.count_reserved + c.count_unusable

sum-bump : (s : FrameState) (c : Counts) → sum (bump s c) ≡ suc (sum c)
sum-bump free c = omega arith
sum-bump allocated c = omega arith
sum-bump reserved c = omega arith
sum-bump unusable c = omega arith

-- Each frame is counted once.
pub sum-tally : (n : ℕ) (m : PhysicalMemoryManager) → sum (tally n m) ≡ n
unfolding tally
sum-tally zero m = refl
sum-tally (suc n) m = sum-bump (get_state n m) (tally n m) ∙ ap suc (sum-tally n m)

module _ (m m' : PhysicalMemoryManager) (i : ℕ)
    (same : (j : ℕ) → j ≢ i → get_state j m' ≡ get_state j m) where
  -- The frames below the changed one count as before.
  pub tally-below : (n : ℕ) → n ≤ i → tally n m' ≡ tally n m
  unfolding tally
  tally-below zero h = refl
  tally-below (suc n) h = rw (same n (λ e. omega arith), tally-below n (omega arith)) refl

  -- With the changed frame, its old and its new state make up for each other.
  pub tally-change :
      (n : ℕ) → i < n → bump (get_state i m) (tally n m') ≡ bump (get_state i m') (tally n m)
  unfolding tally
  tally-change zero h = absurd (omega arith)
  tally-change (suc n) h = elim (eq_or_ne i n) [
    | inl e ↦
        subst
          (λ k.
            bump (get_state i m) (bump (get_state k m') (tally n m'))
            ≡ bump (get_state i m') (bump (get_state k m) (tally n m)))
          e
          (rw (tally-below n (omega (arith, e)))
            (bump_comm (get_state i m) (get_state i m') (tally n m)))
    | inr e ↦ rw (same n (λ q. e (sym q))) (
        bump_comm (get_state i m) (get_state n m) (tally n m')
        ∙ ap (bump (get_state n m)) (tally-change n (omega arith))
        ∙ bump_comm (get_state n m) (get_state i m') (tally n m))
  ]
