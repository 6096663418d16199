-- ===== src/Libzero/Time/Writer.antt =====
-- The stores of the writer of libzero/src/time.rs as steps of the memory.
use project_zero.Base.{
  ℕ, suc, ◌+◌, ◌-◌, ◌^◌, ◌%◌, ◌≤◌, ◌≡◌, refl, sym, ◌∙◌, arith, ◌==◌, leb, List, [], ◌∷◌, Bool-cases,
  inl, inr,
}
use project_zero.Libzero.Time.{TimeObservationFrame, sequence_terminal_latch, publish}

-- One moment of the memory: nothing, a store to the payload under an odd counter, the next counter,
-- or the terminal latch.
pub data WriterStep (f g : TimeObservationFrame) : Type 0 where
  stay : g ≡ f → WriterStep f g
  payload : f.sequence % 2 ≡ 1 → g.sequence ≡ f.sequence → WriterStep f g
  advance : g.sequence ≡ suc f.sequence → WriterStep f g
  latch :
      f.sequence ≤ sequence_terminal_latch → g.sequence ≡ sequence_terminal_latch → WriterStep f g

-- The counter never falls.
pub sequence-WriterStep : (f g : TimeObservationFrame) → WriterStep f g → f.sequence ≤ g.sequence
sequence-WriterStep f g (stay e) = rw e (omega arith)
sequence-WriterStep f g (payload o e) = omega arith
sequence-WriterStep f g (advance e) = omega arith
sequence-WriterStep f g (latch b e) = omega arith

-- Under an even counter that stays, the memory stays.
pub WriterStep-even :
    (f g : TimeObservationFrame)
    → WriterStep f g
    → f.sequence % 2 ≡ 0
    → g.sequence ≡ f.sequence
    → g ≡ f
WriterStep-even f g (stay e) h s = e
WriterStep-even f g (payload o e) h s = absurd (omega arith)
WriterStep-even f g (advance e) h s = absurd (omega arith)
WriterStep-even f g (latch b e) h s = absurd (omega arith)

-- Any number of steps of the writer: what may happen between two moments of a reader.
pub data Writes (f : TimeObservationFrame) : TimeObservationFrame → Type 0 where
  nothing : Writes f f
  and_then : {g h : TimeObservationFrame} → Writes f g → WriterStep g h → Writes f h

pub sequence-Writes : {f g : TimeObservationFrame} → Writes f g → f.sequence ≤ g.sequence
sequence-Writes nothing = omega arith
sequence-Writes (and_then w s) = omega (arith, sequence-Writes w, sequence-WriterStep _ _ s)

-- Under an even counter that is the same again after any steps, the memory is the same.
pub Writes-even :
    {f g : TimeObservationFrame} → Writes f g → f.sequence % 2 ≡ 0 → g.sequence ≡ f.sequence → g ≡ f
Writes-even nothing even same = refl
Writes-even {f} (and_then {g} {h} w s) even same =
    let kept : g.sequence ≡ f.sequence =
      omega (arith, sequence-Writes w, sequence-WriterStep g h s, same) in
    WriterStep-even g h s (omega (arith, kept, even)) (same ∙ sym kept) ∙ Writes-even w even kept

-- Memories, the last one in front, each of which comes from the one behind it by a step.
abbrev pub Steps : TimeObservationFrame → List TimeObservationFrame → Type 0
Steps f [] = Unit
Steps f (g ∷ []) = WriterStep f g
Steps f (g ∷ h ∷ hs) = WriterStep h g × Steps f (h ∷ hs)

-- From an even counter, and also where it fails, `publish` makes steps of the writer only.
pub publish-Steps :
    (a b c d x y : ℕ) (f : TimeObservationFrame)
    → f.sequence % 2 ≡ 0
    → f.sequence ≤ sequence_terminal_latch
    → Steps f (publish a b c d x y f).1
unfolding publish
publish-Steps a b c d x y f even l = elim (Bool-cases (f.sequence == sequence_terminal_latch)) [
  | inl h ↦ rw h tt
  | inr h ↦ elim (Bool-cases (leb (2 ^ 64 - 2) (f.sequence + 1))) [
    | inl k ↦ rw (h, k) (latch l refl)
    | inr k ↦
        let odd : (f.sequence + 1) % 2 ≡ 1 = omega arith in
        rw (h, k)
          (
            advance (omega arith),
            (
              payload odd refl,
              (
                payload odd refl,
                (
                  payload odd refl,
                  (payload odd refl, (payload odd refl, (payload odd refl, advance (omega arith)))),
                ),
              ),
            ),
          )
  ]
]
