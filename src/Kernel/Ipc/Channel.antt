-- ===== src/Kernel/Ipc/Channel.antt =====
-- kernel/src/ipc/channel.rs: what a send, a receive and the last close do to the channel itself, under
-- the lock. The third part of a result is the threads that are woken; a call that does not block
-- ends with `would_block`.
pub mod Closure
pub mod Delivery
mod Tests
use Prim.Native.Nat.{bit_or}
use project_zero.Base.{
  ℕ, ◌+◌, ◌-◌, ◌==◌, Bool, true, false, ◌||◌, if◌then◌else◌, Option, none, some, List, [], ◌∷◌,
  ◌++◌, Outcome, ok, err, panic,
}
use project_zero.Kernel.Ipc.{IpcError, endpoint_closed, peer_closed, would_block, IpcMessage}
use project_zero.Kernel.Ipc.Ring.{ChannelRing, push, pop}
use project_zero.Kernel.Task.WaitQueue.{Waiter, WaitQueue, pop_highest_locked}

pub record ChannelEndpointData : Type 0 where
  pub is_closed : Bool
  pub peer_closed : Bool
  pub handle_refs : ℕ  -- u16
  pub waiters_rx : WaitQueue
  pub waiters_tx : WaitQueue

pub record Channel : Type 0 where
  pub ring_0_to_1 : ChannelRing
  pub ring_1_to_0 : ChannelRing
  pub endpoint_0 : ChannelEndpointData
  pub endpoint_1 : ChannelEndpointData

abbrev pub other : ℕ → ℕ
other endpoint = if endpoint == 0 then 1 else 0

abbrev pub endpoint_data : ℕ → Channel → ChannelEndpointData
endpoint_data endpoint c = if endpoint == 0 then c.endpoint_0 else c.endpoint_1

-- The ring into which an endpoint sends; the other one sends into the one from which it receives.
abbrev pub tx_ring : ℕ → Channel → ChannelRing
tx_ring endpoint c = if endpoint == 0 then c.ring_0_to_1 else c.ring_1_to_0

abbrev pub set_tx_ring : ℕ → ChannelRing → Channel → Channel
set_tx_ring endpoint ring c =
    if endpoint == 0 then record c { ring_0_to_1 = ring } else record c { ring_1_to_0 = ring }

abbrev pub set_endpoint : ℕ → ChannelEndpointData → Channel → Channel
set_endpoint endpoint e c =
    if endpoint == 0 then record c { endpoint_0 = e } else record c { endpoint_1 = e }

abbrev pub Attempt : Type 0 → Type 0
Attempt A = Outcome IpcError A × Channel × List Waiter

abbrev pub listed : Option Waiter → List Waiter
listed none = []
listed (some w) = w ∷ []

-- The threads woken by a send: the first that waits to receive at the other endpoint.
abbrev pub wake_receiver : ℕ → Channel → Channel × List Waiter
wake_receiver endpoint c =
    let peer = endpoint_data (other endpoint) c in
    let popped = pop_highest_locked peer.waiters_rx in
    (set_endpoint (other endpoint) (record peer { waiters_rx = popped.1 }) c, listed popped.0)

abbrev pub wake_sender : ℕ → Channel → Channel × List Waiter
wake_sender endpoint c =
    let peer = endpoint_data (other endpoint) c in
    let popped = pop_highest_locked peer.waiters_tx in
    (set_endpoint (other endpoint) (record peer { waiters_tx = popped.1 }) c, listed popped.0)

-- One round of the loop of `channel_send`.
unfoldable pub send_round : ℕ → IpcMessage → Channel → Attempt (Unit {0})
send_round endpoint msg c =
    let mine = endpoint_data endpoint c in
    let peer = endpoint_data (other endpoint) c in
    let pushed = push msg (tx_ring endpoint c) in
    if mine.is_closed
    then (err endpoint_closed, c, [])
    else if mine.peer_closed || peer.is_closed
    then (err peer_closed, c, [])
    else elim pushed.0 [
      | ok true ↦
          let woken = wake_receiver endpoint (set_tx_ring endpoint pushed.1 c) in
          (ok tt, woken.0, woken.1)
      | ok false ↦ (err would_block, c, [])
      | err e ↦ (err e, c, [])
      | panic ↦ (panic, c, [])
    ]

-- One round of the loop of `channel_receive`.
unfoldable pub receive_round : ℕ → Channel → Attempt IpcMessage
receive_round endpoint c =
    let mine = endpoint_data endpoint c in
    let peer = endpoint_data (other endpoint) c in
    let popped = pop (tx_ring (other endpoint) c) in
    elim popped.0 [
      | ok (some msg) ↦
          let woken = wake_sender endpoint (set_tx_ring (other endpoint) popped.1 c) in
          (ok msg, woken.0, woken.1)
      | ok none ↦
          if mine.is_closed
          then (err endpoint_closed, c, [])
          else if mine.peer_closed || peer.is_closed
          then (err peer_closed, c, [])
          else (err would_block, c, [])
      | err e ↦ (err e, c, [])
      | panic ↦ (panic, c, [])
    ]

abbrev peer_closed_signal : ℕ
peer_closed_signal = 4

-- What `channel_close` does to the endpoint of the handle and to the signals of the channel's object:
-- its last handle closes it, which the other endpoint is told, and wakes all that wait.
unfoldable pub close_endpoint : ℕ → ℕ → Channel → ℕ × Channel × List Waiter
close_endpoint endpoint signals c =
    let mine = endpoint_data endpoint c in
    let peer = endpoint_data (other endpoint) c in
    let refs = mine.handle_refs - 1 in
    if refs == 0
    then (
      bit_or signals peer_closed_signal,
      set_endpoint (other endpoint)
          (record peer { peer_closed = true; waiters_rx = []; waiters_tx = [] })
          (set_endpoint endpoint
            (record mine { is_closed = true; handle_refs = refs; waiters_rx = []; waiters_tx = [] })
            c),
      mine.waiters_rx ++ (mine.waiters_tx ++ (peer.waiters_rx ++ peer.waiters_tx)),
    )
    else (signals, set_endpoint endpoint (record mine { handle_refs = refs }) c, [])
