-- ===== src/Libzero/Error.antt =====
-- libzero/src/error.rs: the error codes of the system-call interface.
pub mod Codes
use project_zero.Base.{ℕ, if◌then◌else◌, ◌==◌, get_or, List, [], ◌∷◌}
use project_zero.Base.Int.{ℤ, pos, negsuc}

pub data ZeroError : Type 0 where
  success invalid_syscall bad_address invalid_handle permission_denied : ZeroError
  object_table_full bad_message_size not_found already_exists invalid_request : ZeroError
  cap_amplification_rejected generation_mismatch stale_endpoint service_failed : ZeroError
  max_retries_exceeded would_block peer_closed timeout unsupported_resource_shape : ZeroError
  dimension_limit_exceeded vector_conservation_violated coupling_violation : ZeroError
  time_authority_unavailable time_observation_stale hardware_regression_detected : ZeroError
  epoch_exhaustion deadline_exhaustion identifier_exhausted capacity_quarantined : ZeroError
  provider_confirmation_required quota_exceeded cyclic_dependency stale_spatial_index : ZeroError
  stale_session_epoch unknown : ZeroError

-- The arms -1 to -33 of the match in `from_i64`, in their order.
abbrev negative_codes : List ZeroError
negative_codes =
    invalid_syscall ∷ bad_address ∷ invalid_handle ∷ permission_denied ∷ object_table_full
    ∷ bad_message_size ∷ not_found ∷ already_exists ∷ invalid_request ∷ cap_amplification_rejected
    ∷ generation_mismatch ∷ stale_endpoint ∷ service_failed ∷ max_retries_exceeded ∷ would_block
    ∷ peer_closed ∷ timeout ∷ unsupported_resource_shape ∷ dimension_limit_exceeded
    ∷ vector_conservation_violated ∷ coupling_violation ∷ time_authority_unavailable
    ∷ time_observation_stale ∷ hardware_regression_detected ∷ epoch_exhaustion ∷ deadline_exhaustion
    ∷ identifier_exhausted ∷ capacity_quarantined ∷ provider_confirmation_required ∷ quota_exceeded
    ∷ cyclic_dependency ∷ stale_spatial_index ∷ stale_session_epoch ∷ []

unfoldable pub from_i64 : ℤ → ZeroError
from_i64 (pos n) = if n == 0 then success else unknown
from_i64 (negsuc n) = get_or negative_codes n unknown

-- The discriminants; `negsuc n` is -(n + 1).
unfoldable pub as_i64 : ZeroError → ℤ
as_i64 success = pos 0
as_i64 invalid_syscall = negsuc 0
as_i64 bad_address = negsuc 1
as_i64 invalid_handle = negsuc 2
as_i64 permission_denied = negsuc 3
as_i64 object_table_full = negsuc 4
as_i64 bad_message_size = negsuc 5
as_i64 not_found = negsuc 6
as_i64 already_exists = negsuc 7
as_i64 invalid_request = negsuc 8
as_i64 cap_amplification_rejected = negsuc 9
as_i64 generation_mismatch = negsuc 10
as_i64 stale_endpoint = negsuc 11
as_i64 service_failed = negsuc 12
as_i64 max_retries_exceeded = negsuc 13
as_i64 would_block = negsuc 14
as_i64 peer_closed = negsuc 15
as_i64 timeout = negsuc 16
as_i64 unsupported_resource_shape = negsuc 17
as_i64 dimension_limit_exceeded = negsuc 18
as_i64 vector_conservation_violated = negsuc 19
as_i64 coupling_violation = negsuc 20
as_i64 time_authority_unavailable = negsuc 21
as_i64 time_observation_stale = negsuc 22
as_i64 hardware_regression_detected = negsuc 23
as_i64 epoch_exhaustion = negsuc 24
as_i64 deadline_exhaustion = negsuc 25
as_i64 identifier_exhausted = negsuc 26
as_i64 capacity_quarantined = negsuc 27
as_i64 provider_confirmation_required = negsuc 28
as_i64 quota_exceeded = negsuc 29
as_i64 cyclic_dependency = negsuc 30
as_i64 stale_spatial_index = negsuc 31
as_i64 stale_session_epoch = negsuc 32
as_i64 unknown = negsuc 98
