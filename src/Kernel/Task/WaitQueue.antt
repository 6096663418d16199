-- ===== src/Kernel/Task/WaitQueue.antt =====
-- kernel/src/task/waitqueue.rs: the threads that wait, the most urgent first. The list that runs
-- through the threads themselves is a list of its members.
use project_zero.Base.{
  ℕ, ◌≤◌, ◌<◌, ◌≡◌, refl, ◌==◌, ltb, Bool, true, false, if◌then◌else◌, Option, none, some, List, [],
  ◌∷◌, ◌++◌, All, arith, Bool-cases, inl, inr,
}

pub data Priority : Type 0 where
  idle normal high critical : Priority

-- Their order.
abbrev pub rank : Priority → ℕ
rank idle = 0
rank normal = 1
rank high = 2
rank critical = 3

-- A thread by its slot in the thread table.
pub record Waiter : Type 0 where
  pub thread : ℕ
  pub priority : Priority
  pub process_id : ℕ

abbrev pub WaitQueue : Type 0
WaitQueue = List Waiter

-- The loop past all waiters that are at least as urgent.
unfoldable pub push_priority_locked : Waiter → WaitQueue → WaitQueue
push_priority_locked t [] = t ∷ []
push_priority_locked t (w ∷ queue) =
    let rest = push_priority_locked t queue in
    if ltb (rank w.priority) (rank t.priority) then t ∷ w ∷ queue else w ∷ rest

unfoldable pub pop_highest_locked : WaitQueue → Option Waiter × WaitQueue
pop_highest_locked [] = (none, [])
pop_highest_locked (w ∷ queue) = (some w, queue)

unfoldable pub remove_locked : ℕ → WaitQueue → Bool × WaitQueue
remove_locked thread [] = (false, [])
remove_locked thread (w ∷ queue) =
    let rest = remove_locked thread queue in
    if w.thread == thread then (true, queue) else (rest.0, w ∷ rest.1)

-- No waiter is more urgent than one before it.
unfoldable pub IsOrdered : WaitQueue → Type 0
IsOrdered [] = Unit
IsOrdered (w ∷ queue) = All (λ v. rank v.priority ≤ rank w.priority) queue × IsOrdered queue

-- The waiters of one urgency, in their order.
unfoldable pub of_rank : ℕ → WaitQueue → WaitQueue
of_rank r [] = []
of_rank r (w ∷ queue) = if rank w.priority == r then w ∷ of_rank r queue else of_rank r queue

All-push :
    (b : ℕ) (t : Waiter) (queue : WaitQueue)
    → rank t.priority ≤ b
    → All (λ v. rank v.priority ≤ b) queue
    → All (λ v. rank v.priority ≤ b) (push_priority_locked t queue)
unfolding push_priority_locked
All-push b t [] h a = (h, tt)
All-push b t (w ∷ queue) h (l, a) = elim (Bool-cases (ltb (rank w.priority) (rank t.priority))) [
  | inl q ↦ rw q (h, (l, a))
  | inr q ↦ rw q (l, All-push b t queue h a)
]

All-below :
    (b c : ℕ) (queue : WaitQueue)
    → b ≤ c
    → All (λ v. rank v.priority ≤ b) queue
    → All (λ v. rank v.priority ≤ c) queue
All-below b c [] h a = tt
All-below b c (w ∷ queue) h (l, a) = (omega arith, All-below b c queue h a)

-- No waiter of a class in a queue of less urgent ones.
of_rank-none :
    (b r : ℕ) (queue : WaitQueue)
    → b < r
    → All (λ v. rank v.priority ≤ b) queue
    → of_rank r queue ≡ []
unfolding of_rank
of_rank-none b r [] h a = refl
of_rank-none b r (w ∷ queue) h (l, a) = ground (arith, of_rank-none b r queue h a)

-- A queue in order stays in order, and the new waiter comes behind all that are as urgent: each class
-- is served first in, first out.
pub push_priority_locked_lem :
    (t : Waiter) (queue : WaitQueue)
    → IsOrdered queue
    → IsOrdered (push_priority_locked t queue)
      × ((r : ℕ)
          → of_rank r (push_priority_locked t queue)
            ≡ (if rank t.priority == r then of_rank r queue ++ (t ∷ []) else of_rank r queue))
unfolding push_priority_locked IsOrdered of_rank
push_priority_locked_lem t [] o = ((tt, tt), λ r. ground arith)
push_priority_locked_lem t (w ∷ queue) (a, o) =
    let (later, classes) = push_priority_locked_lem t queue o in
    elim (Bool-cases (ltb (rank w.priority) (rank t.priority))) [
      | inl q ↦ rw q (
        (
          (ground arith, All-below (rank w.priority) (rank t.priority) queue (ground arith) a),
          (a, o),
        ),
        λ r. elim (Bool-cases (rank t.priority == r)) [
          | inl e ↦
              let empty = of_rank-none (rank w.priority) r queue (ground arith) a in
              ground (arith, empty)
          | inr e ↦ ground arith
        ],
      )
      | inr q ↦ rw q (
        (All-push (rank w.priority) t queue (ground arith) a, later),
        λ r. ground (arith, classes r),
      )
    ]
