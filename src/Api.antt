-- ===== src/Api.antt =====
-- internal/api: the rate limiter, authorization, and the request handlers that call the service.
pub mod Limiter
pub mod Remote
pub mod Auth
pub mod Events
pub mod Changes
pub mod Guard
pub mod Defaults
pub mod Jwks
pub mod Jwt
pub mod Reads
pub mod Exports
use evidra_gitops.Base.{ℕ, String, Bool, false, true}
use evidra_gitops.Result.{Error}

-- What the handlers read of a request. `remote_ip` is what requestRemoteIP returns; a header or a
-- query parameter that is not there is the empty text.
pub record Request : Type 0 where
  pub method : String
  pub path : String
  pub remote_ip : String
  pub header : String → String
  pub query : String → String

-- The status and the code of writeError.
pub record Failure : Type 0 where
  pub status : ℕ
  pub code : String
  pub retryable : Bool

-- handleStoreErr
unfoldable pub handle_store_err : Error → Failure
handle_store_err e = elim e [
  | Error.invalid_input ↦ record { status = 400; code = "INVALID_REQUEST"; retryable = false }
  | Error.invalid_cursor ↦ record { status = 400; code = "INVALID_REQUEST"; retryable = false }
  | Error.conflict ↦ record { status = 409; code = "EVENT_ID_CONFLICT"; retryable = false }
  | Error.not_found ↦ record { status = 404; code = "NOT_FOUND"; retryable = false }
  | Error.append_only ↦ record { status = 500; code = "INTERNAL"; retryable = true }
  | Error.invalid_change_cursor ↦ record { status = 500; code = "INTERNAL"; retryable = true }
  | Error.rate_limited ↦ record { status = 500; code = "INTERNAL"; retryable = true }
  | Error.other text ↦ record { status = 500; code = "INTERNAL"; retryable = true }
]

-- The answer to an error of authorizeRead, authorizeExport and authorizeIngest.
unfoldable pub unauthorized : Error → Failure
unauthorized e = elim e [
  | Error.rate_limited ↦ record { status = 429; code = "RATE_LIMITED"; retryable = true }
  | _ ↦ record { status = 401; code = "UNAUTHORIZED"; retryable = false }
]
