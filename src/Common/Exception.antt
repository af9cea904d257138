-- ===== src/Common/Exception.antt =====
-- The exceptions that the source throws (common/exceptions, the HTTP exceptions of the framework,
-- driver errors) and the error codes of common/constants/error-codes.generated.ts. Messages are
-- left out, except where the source reads one.
pub mod Filter
use Prim.Native.Nat.{ℕ}
use mathlib.Core.Bool.{Bool, true, false}
use mathlib.Core.List.{List}
use interiors_api_client.Common.Text.{Text}

pub data ErrorCode : Type 0 where
  invalid_context template_not_found template_compile_failed provider_unavailable : ErrorCode
  provider_not_found delivery_failed rate_limited duplicate_detected : ErrorCode
  invalid_file_name presigned_url_failed storage_provider_not_supported asset_not_found : ErrorCode
  asset_already_confirmed account_already_exists username_taken : ErrorCode
  rate_limit_ip_exceeded rate_limit_email_exceeded rate_limit_phone_exceeded : ErrorCode
  rate_limit_global_exceeded : ErrorCode

-- `error` is a plain `Error`; `driver` is a database error with its code and the fields of its
-- `keyPattern`; `no_entry` is a file system error with the code `ENOENT`.
pub data Exception : Type 0 where
  domain : ErrorCode → Exception
  application : ErrorCode → Exception
  infrastructure : ErrorCode → ℕ → Exception
  rate_limit : ErrorCode → Exception
  conflict : Text → Exception
  bad_request unauthorized forbidden not_found service_unavailable internal_server_error : Exception
  error no_entry : Exception
  driver : ℕ → List Text → Exception

-- `error instanceof ApplicationException`
abbrev pub is_application : Exception → Bool
is_application (application code) = true
is_application _ = false

-- `exception.getStatus()` of the HTTP exceptions, and the fallback of the global filter.
unfoldable pub http_status : Exception → ℕ
http_status (domain code) = 400
http_status (application code) = 422
http_status (infrastructure code status) = status
http_status (rate_limit code) = 429
http_status (conflict message) = 409
http_status bad_request = 400
http_status unauthorized = 401
http_status forbidden = 403
http_status not_found = 404
http_status service_unavailable = 503
http_status internal_server_error = 500
http_status error = 500
http_status no_entry = 500
http_status (driver code keys) = 500
