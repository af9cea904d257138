-- ===== src/Common/Exception/Filter.antt =====
-- The body of an error response (common/filters/global-exception.filter.ts): `GlobalExceptionFilter`.
-- The time at which it is written is left out.
pub mod Concealed
use Prim.Native.Nat.{ℕ}
use mathlib.Core.Bool.{Bool, true, false}
use mathlib.Core.List.{[], ◌∷◌}
use mathlib.Core.Option.{Option, none, some}
use interiors_api_client.Common.Text.{Text, text}
use interiors_api_client.Common.Exception.{
  ErrorCode, Exception, domain, application, infrastructure, rate_limit, conflict, bad_request,
  unauthorized, forbidden, not_found, service_unavailable, error, no_entry, driver, http_status,
}

-- The values of common/constants/error-codes.generated.ts, and of the codes of the rate limits
unfoldable pub code_text : ErrorCode → Text
code_text ErrorCode.invalid_context = text "NOTIFICATION_001"
code_text ErrorCode.template_not_found = text "NOTIFICATION_002"
code_text ErrorCode.template_compile_failed = text "NOTIFICATION_003"
code_text ErrorCode.provider_unavailable = text "NOTIFICATION_004"
code_text ErrorCode.provider_not_found = text "NOTIFICATION_005"
code_text ErrorCode.delivery_failed = text "NOTIFICATION_006"
code_text ErrorCode.rate_limited = text "NOTIFICATION_007"
code_text ErrorCode.duplicate_detected = text "NOTIFICATION_008"
code_text ErrorCode.invalid_file_name = text "MEDIA_002"
code_text ErrorCode.presigned_url_failed = text "MEDIA_003"
code_text ErrorCode.storage_provider_not_supported = text "MEDIA_005"
code_text ErrorCode.asset_not_found = text "MEDIA_005"
code_text ErrorCode.asset_already_confirmed = text "MEDIA_006"
code_text ErrorCode.account_already_exists = text "USER_003"
code_text ErrorCode.username_taken = text "USER_004"
code_text ErrorCode.rate_limit_ip_exceeded = text "RATE_LIMIT_IP_EXCEEDED"
code_text ErrorCode.rate_limit_email_exceeded = text "RATE_LIMIT_EMAIL_EXCEEDED"
code_text ErrorCode.rate_limit_phone_exceeded = text "RATE_LIMIT_PHONE_EXCEEDED"
code_text ErrorCode.rate_limit_global_exceeded = text "RATE_LIMIT_GLOBAL_EXCEEDED"

-- What is written for the message: the exception's own, or a sentence that is always the same.
pub data ReplyMessage : Type 0 where
  own something_went_wrong : ReplyMessage

-- `errorResponse`
pub record Reply : Type 0 where
  pub message : ReplyMessage
  pub error_code : Text
  pub status_code : ℕ
  pub trace_id : Text
  pub path : Text

-- The request: its trace, where the middleware has set one, and its address.
pub record Request : Type 0 where
  pub trace_id : Option Text
  pub url : Text

-- `request[TRACE_REQUEST_KEY] || "temp-trace-id-1234"`
abbrev pub trace_of : Option Text → Text
trace_of none = text "temp-trace-id-1234"
trace_of (some []) = text "temp-trace-id-1234"
trace_of (some (c ∷ s)) = c ∷ s

-- `exception instanceof BaseException` and its code
abbrev pub base_code : Exception → Option Text
base_code (domain code) = some (code_text code)
base_code (application code) = some (code_text code)
base_code (infrastructure code status) = some (code_text code)
base_code (rate_limit code) = some (code_text code)
base_code _ = none

-- `exception instanceof HttpException`
abbrev pub is_http : Exception → Bool
is_http error = false
is_http no_entry = false
is_http (driver code keys) = false
is_http _ = true

abbrev pub message_for : Bool → ReplyMessage
message_for true = own
message_for false = something_went_wrong

abbrev pub code_for : Option Text → Bool → Text
code_for (some code) http = code
code_for none true = text "COMMON_002"
code_for none false = text "COMMON_001"

-- `catch`, up to the reply of the HTTP adapter, which is sent with the status of the body.
unfoldable pub reply_of : Exception → Request → Reply
unfolding http_status
reply_of e q = record {
  message = message_for (is_http e);
  error_code = code_for (base_code e) (is_http e);
  status_code = http_status e;
  trace_id = trace_of q.trace_id;
  path = q.url;
}
