-- ===== src/Kernel/Pmm/Bitmap.antt =====
-- The bitmap of kernel/src/mm/pmm.rs as a table of frame states.
use project_zero.Base.{
  ℕ, ◌/◌, ◌%◌, ◌<◌, ◌≤◌, ◌≡◌, ◌≢◌, refl, arith, ◌==◌, ltb, ◌&&◌, if◌then◌else◌, length, get_or,
  get_or-set_self, get_or-set_ne, Bool-cases, eq_or_ne, subst, inl, inr, length-set,
}
use project_zero.Kernel.Pmm.{
  FrameState, free, allocated, reserved, unusable, from_bits, to_bits, put_pair, get_state,
  set_state, PhysicalMemoryManager, bitmap_words,
}
use project_zero.Kernel.Pmm.Pairs.{pair_at-put_pair, pair_at-put_pair_ne}

from_bits-to_bits : (s : FrameState) → (from_bits (to_bits s) ≡ s) × (to_bits s < 4)
from_bits-to_bits free = (refl, ground arith)
from_bits-to_bits allocated = (refl, ground arith)
from_bits-to_bits reserved = (refl, ground arith)
from_bits-to_bits unusable = (refl, ground arith)

module _ (m : PhysicalMemoryManager) (l : length m.words ≡ bitmap_words) (i j : ℕ)
    (s : FrameState) where
  get_state-set_state_self : i < 65536 → get_state i (set_state i s m) ≡ s
  unfolding get_state set_state
  get_state-set_state_self h = ground (
    arith,
    get_or-set_self m.words (i / 32) (put_pair (get_or m.words (i / 32) 0) (i % 32) (to_bits s)) 0
        (omega arith),
    pair_at-put_pair (get_or m.words (i / 32) 0) (i % 32) (to_bits s) (from_bits-to_bits s).1,
    from_bits-to_bits s,
  )

  get_state-set_state_beyond : 65536 ≤ i → set_state i s m ≡ m
  unfolding set_state
  get_state-set_state_beyond h = ground arith

  get_state-set_state_ne : i ≢ j → get_state j (set_state i s m) ≡ get_state j m
  unfolding get_state set_state
  get_state-set_state_ne n = elim (eq_or_ne (i / 32) (j / 32)) [
    | inl e ↦ ground (
      arith,
      get_or-set_self m.words (i / 32) (put_pair (get_or m.words (i / 32) 0) (i % 32) (to_bits s))
          0,
      pair_at-put_pair_ne (get_or m.words (i / 32) 0) (i % 32) (j % 32) (to_bits s)
          (from_bits-to_bits s).1 (λ q. n (omega arith)),
    )
    | inr e ↦ ground (
      arith,
      get_or-set_ne m.words (i / 32) (j / 32)
          (put_pair (get_or m.words (i / 32) 0) (i % 32) (to_bits s)) 0 e,
    )
  ]

  -- Writing the state of a frame of the bitmap changes the state of that frame and no other; beyond
  -- the bitmap nothing is written.
  pub get_state-set_state :
      get_state j (set_state i s m) ≡ (if i == j && ltb i 65536 then s else get_state j m)
  get_state-set_state = elim (eq_or_ne i j) [
    | inl e ↦
        subst
          (λ k.
            get_state k (set_state i s m) ≡ (if i == k && ltb i 65536 then s else get_state k m))
          e
          (elim (Bool-cases (ltb i 65536)) [
            | inl h ↦ ground (arith, get_state-set_state_self)
            | inr h ↦ ground (arith, get_state-set_state_beyond (ground arith))
          ])
    | inr e ↦ ground (arith, get_state-set_state_ne e)
  ]

  pub length-set_state : length (set_state i s m).words ≡ bitmap_words
  unfolding set_state
  length-set_state = ground (
    arith,
    length-set m.words (i / 32) (put_pair (get_or m.words (i / 32) 0) (i % 32) (to_bits s)),
  )
