-- ===== src/Kernel/Ipc/Messages.antt =====
-- `IpcMessage` of kernel/src/ipc/types.rs: how a message is built.
use project_zero.Base.{
  ℕ, zero, suc, ◌+◌, ◌*◌, ◌/◌, ◌%◌, ◌^◌, ◌≤◌, ◌<◌, ◌≡◌, ◌⊎◌, refl, ap, ltb, ◌||◌, if◌then◌else◌,
  List, [], ◌∷◌, ◌++◌, length, replicate, Outcome, ok, err, arith, Bool-cases, inl, inr, All, subst,
}
use project_zero.Base.Results.{◌>>=◌}
use project_zero.Kernel.Ipc.{IpcError, bad_message_size, IpcMessage}

abbrev pub empty_message : IpcMessage
empty_message = record {
  tag = 0;
  payload_len = 0;
  handles_count = 0;
  payload = replicate 48 0;
  handles = replicate 4 0;
}

-- The loop that copies a slice to the front of an array that has room for it.
pub copy_into : List ℕ → List ℕ → List ℕ
copy_into [] array = array
copy_into (x ∷ xs) [] = []
copy_into (x ∷ xs) (a ∷ array) = x ∷ copy_into xs array

pub new : ℕ → List ℕ → Outcome IpcError IpcMessage
new tag bytes =
    if ltb 48 (length bytes)
    then err bad_message_size
    else ok (record empty_message {
      tag = tag;
      payload_len = length bytes;
      payload = copy_into bytes (replicate 48 0);
    })

pub with_handles : ℕ → List ℕ → List ℕ → Outcome IpcError IpcMessage
with_handles tag bytes handles =
    if ltb 48 (length bytes) || ltb 4 (length handles)
    then err bad_message_size
    else new tag bytes >>= λ msg.
        ok (record msg { handles_count = length handles; handles = copy_into handles msg.handles })

-- `to_le_bytes`, as many bytes as asked for.
pub le_bytes : ℕ → ℕ → List ℕ
le_bytes zero word = []
le_bytes (suc n) word = word % 256 ∷ le_bytes n (word / 256)

pub bytes_of : List ℕ → List ℕ
bytes_of [] = []
bytes_of (w ∷ words) = le_bytes 8 w ++ bytes_of words

-- Of six words.
pub from_words : ℕ → List ℕ → IpcMessage
from_words tag words = record empty_message {
  tag = tag;
  payload_len = 48;
  payload = bytes_of words;
}

pub take : ℕ → List ℕ → List ℕ
take zero xs = []
take (suc n) [] = []
take (suc n) (x ∷ xs) = x ∷ take n xs

take-copy_into :
    (xs array : List ℕ) → length xs ≤ length array → take (length xs) (copy_into xs array) ≡ xs
unfolding take copy_into
take-copy_into [] array h = refl
take-copy_into (x ∷ xs) [] h = absurd (omega arith)
take-copy_into (x ∷ xs) (a ∷ array) h = ap (λ ys. x ∷ ys) (take-copy_into xs array (omega arith))

length-copy_into : (xs array : List ℕ) → length (copy_into xs array) ≡ length array
unfolding copy_into
length-copy_into [] array = refl
length-copy_into (x ∷ xs) [] = refl
length-copy_into (x ∷ xs) (a ∷ array) = ap suc (length-copy_into xs array)

-- What a message carries: the bytes and the handles that its counts name.
abbrev pub Carries : ℕ → List ℕ → List ℕ → IpcMessage → Type 0
Carries tag bytes handles msg =
    (msg.tag ≡ tag)
    × (take msg.payload_len msg.payload ≡ bytes)
    × (take msg.handles_count msg.handles ≡ handles)
    × (length msg.payload ≡ 48)
    × (length msg.handles ≡ 4)

-- A message is built from at most 48 bytes and four handles, and carries them; it is refused for
-- more of either.
pub with_handles_lem :
    (tag : ℕ) (bytes handles : List ℕ)
    → ((length bytes ≤ 48)
        × (length handles ≤ 4)
        × ((msg : IpcMessage) × (with_handles tag bytes handles ≡ ok msg)
            × Carries tag bytes handles msg))
      ⊎ ((with_handles tag bytes handles ≡ err bad_message_size)
          × ((48 < length bytes) ⊎ (4 < length handles)))
unfolding with_handles new
with_handles_lem tag bytes handles = elim (Bool-cases (ltb 48 (length bytes))) [
  | inl q ↦ inr (rw q refl, inl (ground arith))
  | inr q ↦ elim (Bool-cases (ltb 4 (length handles))) [
    | inl r ↦ inr (rw (q, r) refl, inr (ground arith))
    | inr r ↦ inl (
      ground arith,
      ground arith,
      (
        record {
          tag = tag;
          payload_len = length bytes;
          handles_count = length handles;
          payload = copy_into bytes (replicate 48 0);
          handles = copy_into handles (replicate 4 0);
        },
        rw (q, r) refl,
        (
          refl,
          take-copy_into bytes (replicate 48 0) (ground arith),
          take-copy_into handles (replicate 4 0) (ground arith),
          length-copy_into bytes (replicate 48 0),
          length-copy_into handles (replicate 4 0),
        ),
      ),
    )
  ]
]

-- The number that bytes stand for, the lowest first.
pub value : List ℕ → ℕ
value [] = 0
value (b ∷ bytes) = b + 256 * value bytes

pub drop : ℕ → List ℕ → List ℕ
drop zero xs = xs
drop (suc n) [] = []
drop (suc n) (x ∷ xs) = drop n xs

-- So many words, eight bytes each.
pub words_of : ℕ → List ℕ → List ℕ
words_of zero bytes = []
words_of (suc n) bytes = value (take 8 bytes) ∷ words_of n (drop 8 bytes)

abbrev capacity : ℕ → ℕ
capacity zero = 1
capacity (suc n) = 256 * capacity n

value-le_bytes : (n word : ℕ) → word < capacity n → value (le_bytes n word) ≡ word
unfolding value le_bytes
value-le_bytes zero word h = omega arith
value-le_bytes (suc n) word h = omega (arith, value-le_bytes n (word / 256) (omega arith))

take_word : (word : ℕ) (rest : List ℕ) → take 8 (le_bytes 8 word ++ rest) ≡ le_bytes 8 word
unfolding take le_bytes
take_word word rest = refl

drop_word : (word : ℕ) (rest : List ℕ) → drop 8 (le_bytes 8 word ++ rest) ≡ rest
unfolding drop le_bytes
drop_word word rest = refl

words_of-bytes_of :
    (words : List ℕ)
    → All (λ w. w < 2 ^ 64) words
    → words_of (length words) (bytes_of words) ≡ words
unfolding words_of bytes_of
words_of-bytes_of [] h = refl
words_of-bytes_of (w ∷ words) (b, h) =
    rw (take_word w (bytes_of words), drop_word w (bytes_of words), value-le_bytes 8 w b)
      (ap (λ ws. w ∷ ws) (words_of-bytes_of words h))

-- The six words of a message can be read back from its 48 bytes.
pub from_words_lem :
    (tag : ℕ) (words : List ℕ)
    → length words ≡ 6
    → All (λ w. w < 2 ^ 64) words
    → ((from_words tag words).tag ≡ tag)
      × ((from_words tag words).payload_len ≡ 48)
      × (words_of 6 (from_words tag words).payload ≡ words)
unfolding from_words
from_words_lem tag words six h =
    (refl, refl, subst (λ n. words_of n (bytes_of words) ≡ words) six (words_of-bytes_of words h))
