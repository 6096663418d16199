-- ===== src/Kernel/Ipc/Ring.antt =====
-- `ChannelRing` of kernel/src/ipc/channel.rs: the messages that wait at an endpoint, first in, first
-- out.
use project_zero.Base.{
  ℕ, zero, suc, ◌+◌, ◌-◌, ◌%◌, ◌≤◌, ◌<◌, ◌≡◌, ◌≢◌, refl, sym, ap, ◌∙◌, ◌==◌, ltb, Bool, true, false,
  if◌then◌else◌, Option, none, some, List, [], ◌∷◌, ◌++◌, ok, panic, arith, Bool-cases, inl, inr,
}
use project_zero.Base.Method.{Method}
use project_zero.Kernel.Ipc.{IpcError, IpcMessage, write}

abbrev pub channel_ring_capacity : ℕ
channel_ring_capacity = 4

pub record ChannelRing : Type 0 where
  pub buffer : ℕ → IpcMessage  -- [IpcMessage; 4]
  pub head : ℕ  -- u8
  pub tail : ℕ  -- u8
  pub count : ℕ  -- u8

unfoldable pub push : IpcMessage → Method ChannelRing IpcError Bool
push msg r =
    if r.count == channel_ring_capacity
    then (ok false, r)
    else if ltb r.tail channel_ring_capacity
    then (
      ok true,
      record r {
        buffer = write r.tail msg r.buffer;
        tail = (r.tail + 1) % channel_ring_capacity;
        count = r.count + 1;
      },
    )
    else (panic, r)

unfoldable pub pop : Method ChannelRing IpcError (Option IpcMessage)
pop r =
    if r.count == 0
    then (ok none, r)
    else if ltb r.head channel_ring_capacity
    then (
      ok (some (r.buffer r.head)),
      record r { head = (r.head + 1) % channel_ring_capacity; count = r.count - 1 },
    )
    else (panic, r)

pub record IsRing (r : ChannelRing) : Type 0 where
  pub head_there : r.head < 4
  pub fits : r.count ≤ 4
  pub tail_follows : r.tail ≡ (r.head + r.count) % 4

-- The messages from one place on.
unfoldable pub messages_from : ℕ → ℕ → (ℕ → IpcMessage) → List IpcMessage
messages_from zero i buffer = []
messages_from (suc n) i buffer = buffer i ∷ messages_from n ((i + 1) % 4) buffer

-- The ring as a queue.
abbrev pub messages : ChannelRing → List IpcMessage
messages r = messages_from r.count r.head r.buffer

messages_from-write :
    (n i k : ℕ) (msg : IpcMessage) (buffer : ℕ → IpcMessage)
    → i < 4
    → n < 4
    → k ≡ (i + n) % 4
    → messages_from (suc n) i (write k msg buffer) ≡ messages_from n i buffer ++ (msg ∷ [])
unfolding messages_from write
messages_from-write zero i k msg buffer a b e =
    let here : (k == i) ≡ true = ground arith in rw here refl
messages_from-write (suc n) i k msg buffer a b e =
    let apart : (k == i) ≡ false = ground arith in
    let rest =
      messages_from-write n ((i + 1) % 4) k msg buffer (omega arith) (omega arith) (omega arith) in
    rw (apart) (ap (λ xs. buffer i ∷ xs) rest)

one_more :
    (n i : ℕ) (buffer : ℕ → IpcMessage)
    → messages_from (n + 1) i buffer ≡ messages_from (suc n) i buffer
one_more n i buffer = let e : n + 1 ≡ suc n = omega arith in ap (λ k. messages_from k i buffer) e

-- A message that is pushed comes last, unless the ring holds four messages, which it says.
pub push_lem :
    (msg : IpcMessage) (r : ChannelRing)
    → IsRing r
    → IsRing (push msg r).1
      × ((push msg r).0 ≡ ok (if r.count == 4 then false else true))
      × (messages (push msg r).1 ≡ (if r.count == 4 then messages r else messages r ++ (msg ∷ [])))
unfolding push
push_lem msg r v = elim (Bool-cases (r.count == 4)) [
  | inl q ↦ rw q (v, refl, refl)
  | inr q ↦
      let room : r.count < 4 = (let f = v.fits in ground arith) in
      let there : ltb r.tail 4 ≡ true = (let f = v.tail_follows in ground arith) in
      rw (q, there)
        (
          record {
            head_there = v.head_there;
            fits = omega (arith, room);
            tail_follows = omega (arith, v.tail_follows);
          },
          refl,
          one_more r.count r.head (write r.tail msg r.buffer)
              ∙ messages_from-write r.count r.head r.tail msg r.buffer v.head_there room
                  v.tail_follows,
        )
]

abbrev pub front : List IpcMessage → Option IpcMessage
front [] = none
front (x ∷ xs) = some x

abbrev pub behind : List IpcMessage → List IpcMessage
behind [] = []
behind (x ∷ xs) = xs

messages_from-pred :
    (n i : ℕ) (buffer : ℕ → IpcMessage)
    → n ≢ 0
    → messages_from n i buffer ≡ buffer i ∷ messages_from (n - 1) ((i + 1) % 4) buffer
unfolding messages_from
messages_from-pred zero i buffer h = absurd (h refl)
messages_from-pred (suc n) i buffer h = let e : suc n - 1 ≡ n = omega arith in rw e refl

-- The message that is popped is the first, where there is one; the others stay.
pub pop_lem :
    (r : ChannelRing)
    → IsRing r
    → IsRing (pop r).1
      × ((pop r).0 ≡ ok (front (messages r)))
      × (messages (pop r).1 ≡ behind (messages r))
unfolding pop
pop_lem r v = elim (Bool-cases (r.count == 0)) [
  | inl q ↦
      let z : r.count ≡ 0 = ground arith in
      let empty : messages r ≡ [] =
        (ap (λ k. messages_from k r.head r.buffer) z ∙ (unfold messages_from in refl)) in
      rw q (v, ap (λ xs. ok (front xs)) (sym empty), empty ∙ ap behind (sym empty))
  | inr q ↦
      let there : ltb r.head 4 ≡ true = (let f = v.head_there in ground arith) in
      let some_left : r.count ≢ 0 = (λ e. ground arith) in
      let split = messages_from-pred r.count r.head r.buffer some_left in
      rw (q, there)
        (
          record {
            head_there = omega arith;
            fits = omega (arith, v.fits);
            tail_follows = omega (arith, v.tail_follows, some_left);
          },
          ap (λ xs. ok (front xs)) (sym split),
          ap behind (sym split),
        )
]

-- A ring without messages counts none.
pub empty-count : (r : ChannelRing) → messages r ≡ [] → r.count ≡ 0
empty-count r e = count_none r.count r.head r.buffer e
  where
    count_none : (n i : ℕ) (buffer : ℕ → IpcMessage) → messages_from n i buffer ≡ [] → n ≡ 0
    count_none zero i buffer e = refl
    count_none (suc n) i buffer e = absurd (unfold messages_from in cc)
