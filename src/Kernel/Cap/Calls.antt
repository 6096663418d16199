-- ===== src/Kernel/Cap/Calls.antt =====
-- The calls of kernel/src/cap one after another.
use project_zero.Base.{
  ℕ, ◌+◌, ◌-◌, ◌^◌, ◌≤◌, ◌≢◌, ◌&&◌, ap, ◌≡◌, refl, inl, inr, not, ◌||◌, ltb, leb, ◌==◌, arith,
  Bool-cases, List, [], ◌∷◌,
}
use project_zero.Base.Results.{Outcome-cases}
use project_zero.Base.Method.{◌>>=◌, lift}
use project_zero.Kernel.Ipc.{Link, Handle, slot_index, generation_of}
use project_zero.Kernel.Cap.{Tables, TablesMethod, allocate_capability_id}
use project_zero.Kernel.Cap.Ops.{
  link_at, allocate_handle_slot_locked, install_derived_capability_locked, capability_derive,
  capability_duplicate,
}
use project_zero.Kernel.Cap.Leave.{install_moved_capability_locked, capability_close_locked}
use project_zero.Kernel.Cap.Transfer.{
  check_move, check_delegation, transfer_move_locked, transfer_delegate_locked,
}
use project_zero.Kernel.Cap.Validate.{close_handle_locked}
use project_zero.Kernel.Cap.Confinement.{
  IsNarrow, IsBacked, IsBacked-trans, IsConfined, unchanged-IsConfined, derived-IsConfined,
  moved-IsConfined, closed-IsConfined,
}

-- A call with its arguments; requested rights are a u16.
pub data CapCall : Type 0 where
  derive : ℕ → Handle → (requested_rights : ℕ) → requested_rights ≤ 65535 → CapCall
  duplicate : ℕ → Handle → CapCall
  move : Link → ℕ → CapCall
  delegate : Link → ℕ → (requested_rights : ℕ) → requested_rights ≤ 65535 → CapCall
  close : ℕ → Handle → CapCall
  teardown : Link → CapCall

-- The tables that it leaves.
abbrev pub run : CapCall → Tables → Tables
run (derive p h r _) t = (capability_derive p h r t).1
run (duplicate p h) t = (capability_duplicate p h t).1
run (move src p) t = (transfer_move_locked src p t).1
run (delegate src p r _) t = (transfer_delegate_locked src p r t).1
run (close p h) t = (close_handle_locked p h t).1
run (teardown l) t = (capability_close_locked l t).1

abbrev pub run_all : List CapCall → Tables → Tables
run_all [] t = t
run_all (c ∷ cs) t = run_all cs (run c t)

-- What a call comes down to.
pub data Reaches (t s : Tables) : Type 0 where
  stays : s ≡ t → Reaches t s
  reserves :
      t.next_capability_id ≢ 2 ^ 64 - 1
      → s ≡ record t { next_capability_id = t.next_capability_id + 1 }
      → Reaches t s
  derives :
      (dst parent : Link) (requested : ℕ)
      → requested ≤ 65535
      → s ≡ (install_derived_capability_locked dst parent requested t).1
      → Reaches t s
  moves :
      (dst src : Link)
      → t.next_capability_id ≢ 2 ^ 64 - 1
      → s
        ≡ (install_moved_capability_locked dst src t.next_capability_id
            (record t { next_capability_id = t.next_capability_id + 1 })).1
      → Reaches t s
  closes : (l : Link) → s ≡ (capability_close_locked l t).1 → Reaches t s

abbrev derive_from : ℕ → Link → ℕ → TablesMethod Handle
derive_from dst_pslot src requested t =
    (lift (allocate_handle_slot_locked dst_pslot t) >>= λ h.
    install_derived_capability_locked (link_at dst_pslot h) src requested)
      t

derive_from-Reaches :
    (p : ℕ) (src : Link) (r : ℕ) (t : Tables) → r ≤ 65535 → Reaches t (derive_from p src r t).1
derive_from-Reaches p src r t b = elim (Outcome-cases (allocate_handle_slot_locked p t)) [
  | inl (h, e) ↦ derives (link_at p h) src r b (rw e refl)
  | inr (inl (x, e)) ↦ stays (rw e refl)
  | inr (inr e) ↦ stays (rw e refl)
]

abbrev move_from : ℕ → Link → TablesMethod Handle
move_from p src t =
    (lift (allocate_handle_slot_locked p t) >>= λ h.
    allocate_capability_id >>= λ id. install_moved_capability_locked (link_at p h) src id)
      t

move_from-Reaches : (p : ℕ) (src : Link) (t : Tables) → Reaches t (move_from p src t).1
unfolding allocate_capability_id
move_from-Reaches p src t = elim (Outcome-cases (allocate_handle_slot_locked p t)) [
  | inl (h, e) ↦ elim (Bool-cases (t.next_capability_id == 2 ^ 64 - 1)) [
    | inl q ↦ stays (rw (e, q) refl)
    | inr q ↦ moves (link_at p h) src (ground arith) (rw (e, q) refl)
  ]
  | inr (inl (x, e)) ↦ stays (rw e refl)
  | inr (inr e) ↦ stays (rw e refl)
]

module _ (t : Tables) (narrow : IsNarrow t) where
  derive-Reaches :
      (p : ℕ) (h : Handle) (r : ℕ) → r ≤ 65535 → Reaches t (capability_derive p h r t).1
  unfolding capability_derive
  derive-Reaches p h r b = elim (Bool-cases (leb 32 (slot_index h))) [
    | inl q ↦ stays (rw q refl)
    | inr q ↦ rw q (derive_from-Reaches p (link_at p (slot_index h)) r t b)
  ]

  duplicate-Reaches : (p : ℕ) (h : Handle) → Reaches t (capability_duplicate p h t).1
  unfolding capability_duplicate
  duplicate-Reaches p h =
      let l = link_at p (slot_index h) in
      let entry = t.entries l in
      let stale = not entry.occupied || not (entry.handle_generation == generation_of h) in
      elim (Bool-cases (leb 32 (slot_index h))) [
        | inl q ↦ stays (rw q refl)
        | inr q ↦ elim (Bool-cases stale) [
          | inl w ↦ stays (rw (q, w) refl)
          | inr w ↦ rw (q, w) (derive_from-Reaches p l entry.rights t (narrow l))
        ]
      ]

  move-Reaches : (src : Link) (p : ℕ) → Reaches t (transfer_move_locked src p t).1
  unfolding transfer_move_locked
  move-Reaches src p = elim (Outcome-cases (check_move src p t)) [
    | inl (a, e) ↦ rw e (move_from-Reaches p src t)
    | inr (inl (x, e)) ↦ stays (rw e refl)
    | inr (inr e) ↦ stays (rw e refl)
  ]

  delegate-Reaches :
      (src : Link) (p r : ℕ) → r ≤ 65535 → Reaches t (transfer_delegate_locked src p r t).1
  unfolding transfer_delegate_locked
  delegate-Reaches src p r b = elim (Outcome-cases (check_delegation src p r t)) [
    | inl (a, e) ↦ rw e (derive_from-Reaches p src r t b)
    | inr (inl (x, e)) ↦ stays (rw e refl)
    | inr (inr e) ↦ stays (rw e refl)
  ]

  close-Reaches : (p : ℕ) (h : Handle) → Reaches t (close_handle_locked p h t).1
  unfolding close_handle_locked
  close-Reaches p h =
      let l = link_at p (slot_index h) in
      let entry = t.entries l in
      let fits =
        ltb p 16
        && ltb (slot_index h) 32
        && (entry.handle_generation == generation_of h)
        && entry.occupied in
      elim (Bool-cases fits) [ inl q ↦ closes l (ground arith) | inr q ↦ stays (ground arith) ]

  pub run-Reaches : (c : CapCall) → Reaches t (run c t)
  run-Reaches (derive p h r b) = derive-Reaches p h r b
  run-Reaches (duplicate p h) = duplicate-Reaches p h
  run-Reaches (move src p) = move-Reaches src p
  run-Reaches (delegate src p r b) = delegate-Reaches src p r b
  run-Reaches (close p h) = close-Reaches p h
  run-Reaches (teardown l) = closes l refl

  run-IsConfined : (c : CapCall) → IsConfined t (run c t)
  run-IsConfined c = confined (run c t) (run-Reaches c)
    where
      confined : (s : Tables) → Reaches t s → IsConfined t s
      confined s (stays e) = unchanged-IsConfined t narrow s (ap (λ x. x.entries) e)
      confined s (reserves n e) = unchanged-IsConfined t narrow s (ap (λ x. x.entries) e)
      confined s (derives dst parent r b e) = rw e (derived-IsConfined t narrow dst parent r b)
      confined s (moves dst src n e) = rw e (
          moved-IsConfined (record t { next_capability_id = t.next_capability_id + 1 }) narrow dst
            src t.next_capability_id)
      confined s (closes l e) = rw e (closed-IsConfined t narrow l)

pub run-IsNarrow : (c : CapCall) (t : Tables) → IsNarrow t → IsNarrow (run c t)
run-IsNarrow c t narrow = (run-IsConfined t narrow c).0

-- After any calls to derive, duplicate, move, delegate and close, each capability has its object, its
-- generation, its endpoint and at most the rights of one that was there before.
pub run_all-IsBacked :
    (calls : List CapCall) (t : Tables) → IsNarrow t → IsBacked t (run_all calls t)
run_all-IsBacked [] t narrow = (unchanged-IsConfined t narrow t refl).1
run_all-IsBacked (c ∷ cs) t narrow =
    let first = run-IsConfined t narrow c in
    IsBacked-trans t (run c t) (run_all cs (run c t)) first.1
      (run_all-IsBacked cs (run c t) first.0)
