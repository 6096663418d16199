-- ===== src/Kernel/Ipc/Channel/Closure.antt =====
-- What the last close of an endpoint of kernel/src/ipc/channel.rs means for the calls after it.
use Prim.Native.Nat.{bit_or}
use project_zero.Base.{
  ℕ, ◌≤◌, ◌-◌, ◌≡◌, refl, sym, ap, ◌∙◌, subst, ◌==◌, true, if◌then◌else◌, List, [], ◌∷◌, ◌++◌,
  Outcome, ok, err, arith, Bool-cases, inl, inr,
}
use project_zero.Kernel.Ipc.{IpcError, endpoint_closed, peer_closed, IpcMessage}
use project_zero.Kernel.Ipc.Ring.{IsRing, messages}
use project_zero.Kernel.Task.WaitQueue.{Waiter}
use project_zero.Kernel.Ipc.Channel.{
  Channel, ChannelEndpointData, other, endpoint_data, set_endpoint, tx_ring, send_round,
  receive_round, close_endpoint,
}
use project_zero.Kernel.Ipc.Channel.Delivery.{receive_round_lem, answer_of, refusal}

-- An endpoint after it is closed, and its peer.
abbrev closed : ChannelEndpointData → ChannelEndpointData
closed e = record e {
  is_closed = true;
  handle_refs = e.handle_refs - 1;
  waiters_rx = [];
  waiters_tx = [];
}

abbrev told : ChannelEndpointData → ChannelEndpointData
told e = record e { peer_closed = true; waiters_rx = []; waiters_tx = [] }

abbrev ended : ℕ → Channel → Channel
ended endpoint c =
    set_endpoint (other endpoint) (told (endpoint_data (other endpoint) c))
      (set_endpoint endpoint (closed (endpoint_data endpoint c)) c)

-- The ends and the rings of a channel after the close.
ends :
    (endpoint : ℕ) (c : Channel)
    → (endpoint_data endpoint (ended endpoint c) ≡ closed (endpoint_data endpoint c))
      × (endpoint_data (other endpoint) (ended endpoint c)
          ≡ told (endpoint_data (other endpoint) c))
      × (endpoint_data (other (other endpoint)) (ended endpoint c)
          ≡ closed (endpoint_data endpoint c))
      × (tx_ring (other (other endpoint)) (ended endpoint c) ≡ tx_ring endpoint c)
ends endpoint c = elim (Bool-cases (endpoint == 0)) [
  | inl q ↦ rw q (refl, refl, refl, refl)
  | inr q ↦ rw q (refl, refl, refl, refl)
]

-- What the peer of a closed endpoint is told.
abbrev pub after_close : ℕ → Channel → IpcError
after_close endpoint c =
    if (endpoint_data (other endpoint) c).is_closed then endpoint_closed else peer_closed

abbrev pub last_messages : IpcError → List IpcMessage → Outcome IpcError IpcMessage
last_messages e [] = err e
last_messages e (m ∷ ms) = ok m

-- A send and the answer of an empty receive at a closed endpoint, and at one that was told.
module _ (endpoint : ℕ) (c : Channel) where
  abbrev mine : ChannelEndpointData
  mine = endpoint_data endpoint c

  send_closed :
      (msg : IpcMessage)
      → mine.is_closed ≡ true
      → send_round endpoint msg c ≡ (err endpoint_closed, c, [])
  unfolding send_round
  send_closed msg a = rw a refl

  send_told :
      (msg : IpcMessage)
      → mine.peer_closed ≡ true
      → send_round endpoint msg c
        ≡ (err (if mine.is_closed then endpoint_closed else peer_closed), c, [])
  unfolding send_round
  send_told msg b = elim (Bool-cases mine.is_closed) [ inl q ↦ rw q refl | inr q ↦ rw (q, b) refl ]

  refusal_told :
      mine.peer_closed ≡ true
      → refusal endpoint c ≡ (if mine.is_closed then endpoint_closed else peer_closed)
  refusal_told b = elim (Bool-cases mine.is_closed) [ inl q ↦ rw q refl | inr q ↦ rw (q, b) refl ]

answer_of_lem :
    (endpoint : ℕ) (c : Channel) (ms : List IpcMessage)
    → answer_of endpoint c ms ≡ last_messages (refusal endpoint c) ms
answer_of_lem endpoint c [] = refl
answer_of_lem endpoint c (m ∷ ms) = refl

module _ (endpoint : ℕ) (c : Channel) where
  closing :
      (signals : ℕ)
      → (endpoint_data endpoint c).handle_refs ≤ 1
      → close_endpoint endpoint signals c ≡ (
        bit_or signals 4,
        ended endpoint c,
        (endpoint_data endpoint c).waiters_rx
            ++ ((endpoint_data endpoint c).waiters_tx
                ++ ((endpoint_data (other endpoint) c).waiters_rx
                    ++ (endpoint_data (other endpoint) c).waiters_tx)),
      )
  unfolding close_endpoint
  closing signals h =
      let none_left : ((endpoint_data endpoint c).handle_refs - 1) == 0 ≡ true = ground arith in
      rw none_left refl

  -- What a close may return: the signals, the channel and the threads that are woken.
  abbrev pub Closes : ℕ → IpcMessage → ℕ × Channel × List Waiter → Type 0
  Closes signals msg r =
      (r.0 ≡ bit_or signals 4)
      × (r.2
          ≡ (endpoint_data endpoint c).waiters_rx
            ++ ((endpoint_data endpoint c).waiters_tx
                ++ ((endpoint_data (other endpoint) c).waiters_rx
                    ++ (endpoint_data (other endpoint) c).waiters_tx)))
      × ((send_round endpoint msg r.1).0 ≡ err endpoint_closed)
      × ((send_round (other endpoint) msg r.1).0 ≡ err (after_close endpoint c))
      × ((receive_round (other endpoint) r.1).0
          ≡ last_messages (after_close endpoint c) (messages (tx_ring endpoint c)))

  -- The last close of an endpoint signals it, wakes all that wait at either end and leaves the channel
  -- so: a send at the endpoint answers that it is closed, a send at the other one that its peer is (or
  -- that it is closed itself), and the other one still receives the messages of the ring, only after
  -- which it is told of the closure.
  pub close_endpoint_lem :
      (signals : ℕ) (msg : IpcMessage)
      → (endpoint_data endpoint c).handle_refs ≤ 1
      → IsRing (tx_ring endpoint c)
      → Closes signals msg (close_endpoint endpoint signals c)
  close_endpoint_lem signals msg h v =
      let (mine, peer, back, ring) = ends endpoint c in
      let d = ended endpoint c in
      let told_peer : (endpoint_data (other endpoint) d).peer_closed ≡ true =
        ap (λ e. e.peer_closed) peer in
      let state_of : (endpoint_data (other endpoint) d).is_closed
          ≡ (endpoint_data (other endpoint) c).is_closed =
        ap (λ e. e.is_closed) peer in
      let same : (if (endpoint_data (other endpoint) d).is_closed
            then endpoint_closed
            else peer_closed)
          ≡ after_close endpoint c =
        ap (λ b. if b then endpoint_closed else peer_closed) state_of in
      let (sound, kept, received, order) =
        receive_round_lem (other endpoint) d (subst IsRing (sym ring) v) in
      subst (Closes signals msg) (sym (closing signals h)) (
        refl,
        refl,
        ap (λ r. r.0) (send_closed endpoint d msg (ap (λ e. e.is_closed) mine)),
        ap (λ r. r.0) (send_told (other endpoint) d msg told_peer) ∙ ap err same,
        received
            ∙ answer_of_lem (other endpoint) d (messages (tx_ring (other (other endpoint)) d))
            ∙ ap (λ e. last_messages e (messages (tx_ring (other (other endpoint)) d)))
                (refusal_told (other endpoint) d told_peer ∙ same)
            ∙ ap (λ r. last_messages (after_close endpoint c) (messages r)) ring,
      )
