-- ===== src/Prelude/Expected.antt =====
-- include/coroute/util/expected.hpp and include/coroute/core/error.hpp: fallible results and the
-- errors that they carry.
use Prim.Native.Nat.{ℕ}
use Prim.Native.String.{String}

pub data IoError : Type 0 where
  success connection_reset connection_refused connection_aborted timeout cancelled : IoError
  end_of_stream would_block address_in_use address_not_available network_unreachable : IoError
  host_unreachable invalid_argument permission_denied unknown : IoError

pub data HttpError : Type 0 where
  bad_request unauthorized forbidden not_found method_not_allowed request_timeout : HttpError
  payload_too_large uri_too_long unsupported_media_type too_many_requests internal : HttpError
  not_implemented bad_gateway service_unavailable gateway_timeout : HttpError

-- The variant with the message; a `std::error_code` is its number.
pub data Error : Type 0 where
  io : IoError → String → Error
  http : HttpError → String → Error
  system : ℕ → String → Error

pub data Expected {ℓ} (A : Type ℓ) : Type ℓ where
  ok : A → Expected A
  unexpected : Error → Expected A
