-- ===== src/Error.antt =====
-- src/error.rs: the errors of the HTTP API, and the response that each one becomes.
use evgl_api.Base.{ℕ, String}
use evgl_api.Domain.{Crates, ProviderError}

-- What the code wraps in `anyhow::Error`: a failure of the database by its kind, or a message.
pub data Cause : Type 0 where
  unique_violation foreign_key_violation row_not_found : Cause
  described : String → Cause

pub data ApiError : Type 0 where
  bad_request : String → ApiError
  unauthorized : String → ApiError
  not_found : String → ApiError
  conflict : String → ApiError
  provider : String → ApiError
  internal : Cause → ApiError

-- The status and the code of `into_response`.
unfoldable pub into_response : ApiError → ℕ × String
into_response (bad_request _) = (400, "bad_request")
into_response (unauthorized _) = (401, "unauthorized")
into_response (not_found _) = (404, "not_found")
into_response (conflict _) = (409, "conflict")
into_response (provider _) = (502, "provider_error")
into_response (internal _) = (500, "internal_error")

-- `From<ProviderError>`
pub from_provider_error : Crates → ProviderError → ApiError
from_provider_error C e = provider (C.show_provider_error e)

-- `Display`: the message; of an internal error, that of the error it wraps.
abbrev pub show_api_error : (Cause → String) → ApiError → String
show_api_error show_cause (bad_request m) = m
show_api_error show_cause (unauthorized m) = m
show_api_error show_cause (not_found m) = m
show_api_error show_cause (conflict m) = m
show_api_error show_cause (provider m) = m
show_api_error show_cause (internal e) = show_cause e
