-- ===== src/Kernel/Ipc/Channel/Tests.antt =====
-- Runs of kernel/src/ipc/channel.rs and kernel/src/task/waitqueue.rs: a channel with one message from
-- endpoint 0, for which a thread waits.
use project_zero.Base.{ℕ, ◌≡◌, refl, arith, false, ◌==◌, if◌then◌else◌, [], ◌∷◌, ◌++◌, ok, err}
use project_zero.Kernel.Ipc.{IpcMessage, would_block}
use project_zero.Kernel.Ipc.Messages.{empty_message}
use project_zero.Kernel.Ipc.Ring.{IsRing, messages, messages_from}
use project_zero.Kernel.Ipc.Channel.{
  ChannelEndpointData, Channel, tx_ring, send_round, receive_round, close_endpoint,
}
use project_zero.Kernel.Ipc.Channel.Delivery.{send_round_lem, receive_round-send_round}
use project_zero.Kernel.Ipc.Channel.Closure.{Closes, close_endpoint_lem}
use project_zero.Kernel.Task.WaitQueue.{
  Waiter, normal, high, push_priority_locked, IsOrdered, of_rank, push_priority_locked_lem,
}

abbrev letter : ℕ → IpcMessage
letter tag = record empty_message { tag = tag }

abbrev reader : Waiter
reader = record { thread = 4; priority = normal; process_id = 9 }

abbrev urgent : Waiter
urgent = record { thread = 5; priority = high; process_id = 9 }

abbrev end : ChannelEndpointData
end = record {
  is_closed = false;
  peer_closed = false;
  handle_refs = 1;
  waiters_rx = reader ∷ [];
  waiters_tx = [];
}

abbrev line : Channel
line = record {
  ring_0_to_1 = record { buffer = λ i. letter i; head = 3; tail = 0; count = 1 };
  ring_1_to_0 = record { buffer = λ i. letter i; head = 2; tail = 2; count = 0 };
  endpoint_0 = end;
  endpoint_1 = end;
}

full_IsRing : IsRing line.ring_0_to_1
full_IsRing = record { head_there = omega arith; fits = omega arith; tail_follows = refl }

empty_IsRing : IsRing line.ring_1_to_0
empty_IsRing = record { head_there = omega arith; fits = omega arith; tail_follows = refl }

send_round_example :
    IsRing (tx_ring 0 (send_round 0 (letter 7) line).1)
    × (tx_ring 1 (send_round 0 (letter 7) line).1 ≡ line.ring_1_to_0)
    × ((send_round 0 (letter 7) line).0
        ≡ (if line.ring_0_to_1.count == 4 then err would_block else ok tt))
    × (messages (tx_ring 0 (send_round 0 (letter 7) line).1) ≡ (
        if line.ring_0_to_1.count == 4
        then messages line.ring_0_to_1
        else messages line.ring_0_to_1 ++ (letter 7 ∷ [])))
send_round_example = send_round_lem 0 (letter 7) line (refl, refl, refl) full_IsRing

none_waits : messages line.ring_1_to_0 ≡ []
unfolding messages_from
none_waits = refl

receive_round-send_round_example :
    ((send_round 1 (letter 7) line).0 ≡ ok tt)
    × ((receive_round 0 (send_round 1 (letter 7) line).1).0 ≡ ok (letter 7))
    × (messages (tx_ring 1 (receive_round 0 (send_round 1 (letter 7) line).1).1) ≡ [])
receive_round-send_round_example =
    receive_round-send_round 1 (letter 7) line (refl, refl, refl) empty_IsRing none_waits

reader-IsOrdered : IsOrdered (reader ∷ [])
unfolding IsOrdered
reader-IsOrdered = (tt, tt)

push_priority_locked_example :
    IsOrdered (push_priority_locked urgent (reader ∷ []))
    × ((r : ℕ)
        → of_rank r (push_priority_locked urgent (reader ∷ []))
          ≡ (if 2 == r then of_rank r (reader ∷ []) ++ (urgent ∷ []) else of_rank r (reader ∷ [])))
push_priority_locked_example = push_priority_locked_lem urgent (reader ∷ []) reader-IsOrdered

close_endpoint_example : Closes 0 line 1 (letter 7) (close_endpoint 0 1 line)
close_endpoint_example = close_endpoint_lem 0 line 1 (letter 7) (omega arith) full_IsRing
