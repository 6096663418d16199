-- ===== src/Kernel/Ipc/Channel/Delivery.antt =====
-- What is sent into a channel of kernel/src/ipc/channel.rs comes out at the other endpoint, in order.
use project_zero.Base.{
  ℕ, ◌≡◌, refl, sym, ap, ◌∙◌, subst, ◌==◌, true, false, ◌||◌, if◌then◌else◌, none, some, List, [],
  ◌∷◌, ◌++◌, Outcome, ok, err, arith, Bool-cases, inl, inr,
}
use project_zero.Kernel.Ipc.{IpcError, endpoint_closed, peer_closed, would_block, IpcMessage}
use project_zero.Kernel.Ipc.Ring.{
  ChannelRing, push, pop, IsRing, messages, front, behind, push_lem, pop_lem, empty-count,
}
use project_zero.Kernel.Ipc.Channel.{
  Attempt, Channel, wake_receiver, wake_sender, other, endpoint_data, tx_ring, set_tx_ring,
  send_round, receive_round,
}

-- Both ends are open, as an endpoint sees them.
abbrev pub IsOpen : ℕ → Channel → Type 0
IsOpen endpoint c =
    ((endpoint_data endpoint c).is_closed ≡ false)
    × ((endpoint_data endpoint c).peer_closed ≡ false)
    × ((endpoint_data (other endpoint) c).is_closed ≡ false)

-- The rings after a wake-up are those before it.
rings_woken :
    (endpoint : ℕ) (ring : ChannelRing) (c : Channel)
    → (tx_ring endpoint (wake_receiver endpoint (set_tx_ring endpoint ring c)).0 ≡ ring)
      × (tx_ring (other endpoint) (wake_receiver endpoint (set_tx_ring endpoint ring c)).0
          ≡ tx_ring (other endpoint) c)
rings_woken endpoint ring c = elim (Bool-cases (endpoint == 0)) [
  | inl q ↦ rw q (refl, refl)
  | inr q ↦ rw q (refl, refl)
]

module _ (endpoint : ℕ) (msg : IpcMessage) (c : Channel) (open_ends : IsOpen endpoint c) where
  abbrev sent : Channel
  sent = (send_round endpoint msg c).1

  abbrev ring : ChannelRing
  ring = tx_ring endpoint c

  abbrev pushed : ChannelRing
  pushed = (push msg ring).1

  abbrev woken : Channel
  woken = (wake_receiver endpoint (set_tx_ring endpoint pushed c)).0

  sent_full : (push msg ring).0 ≡ ok false → send_round endpoint msg c ≡ (err would_block, c, [])
  unfolding send_round
  sent_full e = rw (open_ends.0, open_ends.1, open_ends.2, e) refl

  sent_room :
      (push msg ring).0 ≡ ok true
      → send_round endpoint msg c
        ≡ (ok tt, woken, (wake_receiver endpoint (set_tx_ring endpoint pushed c)).1)
  unfolding send_round
  sent_room e = rw (open_ends.0, open_ends.1, open_ends.2, e) refl

  -- What a send may leave and answer.
  abbrev Sends : Attempt (Unit {0}) → Type 0
  Sends r =
      IsRing (tx_ring endpoint r.1)
      × (tx_ring (other endpoint) r.1 ≡ tx_ring (other endpoint) c)
      × (r.0 ≡ (if ring.count == 4 then err would_block else ok tt))
      × (messages (tx_ring endpoint r.1)
          ≡ (if ring.count == 4 then messages ring else messages ring ++ (msg ∷ [])))

  -- Between open ends a message is sent where the ring has room: it comes last in the ring of the
  -- endpoint, and the other ring stays; else the call would block and the rings stay.
  pub send_round_lem :
      IsRing ring
      → IsRing (tx_ring endpoint sent)
        × (tx_ring (other endpoint) sent ≡ tx_ring (other endpoint) c)
        × ((send_round endpoint msg c).0 ≡ (if ring.count == 4 then err would_block else ok tt))
        × (messages (tx_ring endpoint sent)
            ≡ (if ring.count == 4 then messages ring else messages ring ++ (msg ∷ [])))
  send_round_lem v =
      let (sound, answer, order) = push_lem msg ring v in
      elim (Bool-cases (ring.count == 4)) [
        | inl f ↦
            subst Sends (sym (sent_full (answer ∙ ground arith)))
              (v, refl, ground arith, ground arith)
        | inr f ↦
            let (here, there) = rings_woken endpoint pushed c in
            subst Sends (sym (sent_room (answer ∙ ground arith)))
              (subst IsRing (sym here) sound, there, ground arith, ap messages here ∙ order)
      ]

-- The rings after a sender is woken are those before it.
rings_kept :
    (endpoint : ℕ) (ring : ChannelRing) (c : Channel)
    → (tx_ring (other endpoint) (wake_sender endpoint (set_tx_ring (other endpoint) ring c)).0
        ≡ ring)
      × (tx_ring endpoint (wake_sender endpoint (set_tx_ring (other endpoint) ring c)).0
          ≡ tx_ring endpoint c)
rings_kept endpoint ring c = elim (Bool-cases (endpoint == 0)) [
  | inl q ↦ rw q (refl, refl)
  | inr q ↦ rw q (refl, refl)
]

module _ (endpoint : ℕ) (c : Channel) where
  abbrev source : ChannelRing
  source = tx_ring (other endpoint) c

  -- What an endpoint is told when no message waits.
  abbrev pub refusal : IpcError
  refusal =
      if (endpoint_data endpoint c).is_closed
      then endpoint_closed
      else if (endpoint_data endpoint c).peer_closed || (endpoint_data (other endpoint) c).is_closed
      then peer_closed
      else would_block

  abbrev pub answer_of : List IpcMessage → Outcome IpcError IpcMessage
  answer_of [] = err refusal
  answer_of (m ∷ ms) = ok m

  abbrev Receives : Attempt IpcMessage → Type 0
  Receives r =
      IsRing (tx_ring (other endpoint) r.1)
      × (tx_ring endpoint r.1 ≡ tx_ring endpoint c)
      × (r.0 ≡ answer_of (messages source))
      × (messages (tx_ring (other endpoint) r.1) ≡ behind (messages source))

  received_none : (pop source).0 ≡ ok none → receive_round endpoint c ≡ (err refusal, c, [])
  unfolding receive_round
  received_none e = elim (Bool-cases (endpoint_data endpoint c).is_closed) [
    | inl a ↦ ground (arith, e, a)
    | inr a ↦
        elim (Bool-cases (
          (endpoint_data endpoint c).peer_closed || (endpoint_data (other endpoint) c).is_closed)) [
            | inl b ↦ ground (arith, e, a, b)
            | inr b ↦ ground (arith, e, a, b)
          ]
  ]

  received_some :
      (msg : IpcMessage)
      → (pop source).0 ≡ ok (some msg)
      → receive_round endpoint c ≡ (
        ok msg,
        (wake_sender endpoint (set_tx_ring (other endpoint) (pop source).1 c)).0,
        (wake_sender endpoint (set_tx_ring (other endpoint) (pop source).1 c)).1,
      )
  unfolding receive_round
  received_some msg e = ground (arith, e)

  pub receive_round_lem :
      IsRing source
      → IsRing (tx_ring (other endpoint) (receive_round endpoint c).1)
        × (tx_ring endpoint (receive_round endpoint c).1 ≡ tx_ring endpoint c)
        × ((receive_round endpoint c).0 ≡ answer_of (messages source))
        × (messages (tx_ring (other endpoint) (receive_round endpoint c).1)
            ≡ behind (messages source))
  receive_round_lem v =
      let (sound, answer, order) = pop_lem source v in
      by_messages (messages source) refl sound answer order
    where
      by_messages :
          (ms : List IpcMessage)
          → messages source ≡ ms
          → IsRing (pop source).1
          → (pop source).0 ≡ ok (front (messages source))
          → messages (pop source).1 ≡ behind (messages source)
          → Receives (receive_round endpoint c)
      by_messages [] e sound answer order =
          subst Receives (sym (received_none (answer ∙ ap (λ xs. ok (front xs)) e)))
            (v, refl, ap answer_of (sym e), e ∙ ap behind (sym e))
      by_messages (m ∷ ms) e sound answer order =
          let (here, there) = rings_kept endpoint (pop source).1 c in
          subst Receives (sym (received_some m (answer ∙ ap (λ xs. ok (front xs)) e)))
            (subst IsRing (sym here) sound, there, ap answer_of (sym e), ap messages here ∙ order)

other_twice : (endpoint : ℕ) (c : Channel) → tx_ring (other (other endpoint)) c ≡ tx_ring endpoint c
other_twice endpoint c = elim (Bool-cases (endpoint == 0)) [ inl q ↦ rw q refl | inr q ↦ rw q refl ]

-- Between open ends where no message waits, a message that one endpoint sends is what the other one
-- receives next, and then none waits again.
pub receive_round-send_round :
    (endpoint : ℕ) (msg : IpcMessage) (c : Channel)
    → IsOpen endpoint c
    → IsRing (tx_ring endpoint c)
    → messages (tx_ring endpoint c) ≡ []
    → ((send_round endpoint msg c).0 ≡ ok tt)
      × ((receive_round (other endpoint) (send_round endpoint msg c).1).0 ≡ ok msg)
      × (messages
            (tx_ring endpoint (receive_round (other endpoint) (send_round endpoint msg c).1).1)
          ≡ [])
receive_round-send_round endpoint msg c open_ends v none_waits =
    let (sound, kept, answer, order) = send_round_lem endpoint msg c open_ends v in
    let room = empty-count (tx_ring endpoint c) none_waits in
    let s = (send_round endpoint msg c).1 in
    let back = other_twice endpoint s in
    let one : messages (tx_ring (other (other endpoint)) s) ≡ msg ∷ [] =
      ap messages back ∙ order ∙ ground (arith, room, none_waits) in
    let (sound', kept', answer', order') =
      receive_round_lem (other endpoint) s (subst IsRing (sym back) sound) in
    (
      answer ∙ ground (arith, room),
      answer' ∙ ap (answer_of (other endpoint) s) one,
      ap messages (sym (other_twice endpoint (receive_round (other endpoint) s).1))
          ∙ order'
          ∙ ap behind one,
    )
