-- ===== src/Kernel/Ipc.antt =====
-- kernel/src/ipc: the kernel's objects, the handles that name them and the messages of a channel.
-- `Link` is a process slot with a handle slot.
pub mod Objects
pub mod Ring
pub mod Messages
pub mod Reuse
pub mod Channel
mod Tests
use Prim.Native.Nat.{bit_and}
use project_zero.Base.{
  ℕ, ◌+◌, ◌-◌, ◌*◌, ◌/◌, ◌%◌, Bool, true, false, ◌&&◌, List, ◌==◌, if◌then◌else◌, ◌≡◌, arith,
}
use project_zero.Base.Words.{u16_mod, u32_mod}

pub data IpcError : Type 0 where
  invalid_handle bad_handle_generation permission_denied object_table_full : IpcError
  channel_table_full shm_table_full mapping_table_full handle_table_full : IpcError
  object_id_exhausted invalid_process invalid_endpoint endpoint_closed peer_closed : IpcError
  would_block concurrent_operation bad_message_size bad_alignment invalid_address : IpcError
  pmm_exhausted vmm_error timeout capability_revoked rights_amplification_rejected : IpcError
  max_derivation_depth_exceeded not_capability_owner capability_not_transferable : IpcError
  capability_not_duplicable capability_id_exhausted invalid_capability : IpcError

abbrev pub max_processes : ℕ
max_processes = 16

abbrev pub max_handles_per_process : ℕ
max_handles_per_process = 32

abbrev pub max_kernel_objects : ℕ
max_kernel_objects = 256

-- `IpcMessage`; the payload is 48 bytes, the handles are four u32.
pub record IpcMessage : Type 0 where
  pub tag : ℕ
  pub payload_len : ℕ
  pub handles_count : ℕ
  pub payload : List ℕ
  pub handles : List ℕ

-- `Handle`: a u32 of a slot index and the generation of the slot.
abbrev pub Handle : Type 0
Handle = ℕ

abbrev pub new_handle : ℕ → ℕ → Handle
new_handle slot_index generation = generation * u16_mod + slot_index

abbrev pub slot_index : Handle → ℕ
slot_index handle = handle % u16_mod

abbrev pub generation_of : Handle → ℕ
generation_of handle = handle / u16_mod % u16_mod

pub record HandleEntry : Type 0 where
  pub object_index : ℕ  -- u16
  pub handle_generation : ℕ  -- u16
  pub object_generation : ℕ  -- u16
  pub rights : ℕ  -- u16
  pub endpoint : ℕ  -- u8
  pub occupied : Bool

pub data KernelObjectType : Type 0 where
  free channel shm_object event process storage_object device socket : KernelObjectType

pub data ObjectLifecycleState : Type 0 where
  free active peer_closed quiescent reclaiming : ObjectLifecycleState

pub record KernelObjectHeader : Type 0 where
  pub object_id : ℕ  -- u64
  pub creator_pid : ℕ  -- u64
  pub handle_refs : ℕ  -- u16
  pub mapping_refs : ℕ  -- u16
  pub in_flight_op_refs : ℕ  -- u16
  pub state : ObjectLifecycleState
  pub signals : ℕ  -- u32

abbrev pub empty_header : KernelObjectHeader
empty_header = record {
  object_id = 0;
  creator_pid = 0;
  handle_refs = 0;
  mapping_refs = 0;
  in_flight_op_refs = 0;
  state = ObjectLifecycleState.free;
  signals = 0;
}

pub record KernelObjectSlot : Type 0 where
  pub occupied : Bool
  pub obj_type : KernelObjectType
  pub generation : ℕ  -- u16
  pub pool_index : ℕ  -- u16
  pub header : KernelObjectHeader

-- `wrapping_add(1)` of a u16, where zero is left out.
abbrev pub next_generation : ℕ → ℕ
next_generation g = let next = (g + 1) % u16_mod in if next == 0 then 1 else next

-- A row and a column of the tables `[[_; 32]; 16]`, in a node two u8.
pub record Link : Type 0 where
  pub pslot : ℕ
  pub hslot : ℕ

-- 0xFF, 0xFF.
abbrev pub no_link : Link
no_link = record { pslot = 255; hslot = 255 }

abbrev pub link_eq : Link → Link → Bool
link_eq a b = a.pslot == b.pslot && a.hslot == b.hslot

-- A write to an array, as a function from its indices.
unfoldable pub write : {A : Type 0} → ℕ → A → (ℕ → A) → (ℕ → A)
write i v table = λ j. if i == j then v else table j

unfoldable pub write_at : {A : Type 0} → Link → A → (Link → A) → (Link → A)
write_at l v table = λ k. if link_eq l k then v else table k

-- `(rights & mask) == 0`, `(rights & required) == required` and `(child & !parent) == 0` on u16.
abbrev pub lacks : ℕ → ℕ → Bool
lacks mask rights = bit_and rights mask == 0

abbrev pub grants : ℕ → ℕ → Bool
grants required rights = bit_and rights required == required

abbrev pub is_rights_subset : ℕ → ℕ → Bool
is_rights_subset child parent = bit_and child (65535 - parent) == 0

pub link_eq_sound : (a b : Link) → link_eq a b ≡ true → a ≡ b
link_eq_sound a b h =
    let p : a.pslot ≡ b.pslot = ground arith in
    let q : a.hslot ≡ b.hslot = ground arith in λ i. record { pslot = p i; hslot = q i }
