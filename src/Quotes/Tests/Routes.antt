-- ===== src/Quotes/Tests/Routes.antt =====
-- A request without a key, and the response to a failure of the database.
use interiors_api_client.Common.{◌≡◌, ◌⊎◌, ◌↔◌, refl, none, some, is_some, []}
use interiors_api_client.Common.Text.{text, text_eq}
use interiors_api_client.Common.Json.{obj, str, end, field}
use interiors_api_client.Common.Exception.{driver, bad_request}
use interiors_api_client.Common.Exception.Filter.{Request, reply_of}
use interiors_api_client.Common.Exception.Filter.Concealed.{
  IsInternal, unknown_reply, reply_of-eq-unknown_iff,
}
use interiors_api_client.Quotes.Route.{Validators, field_of, HttpRequest, failed, answer}
use interiors_api_client.Quotes.Route.Forwarding.{IsForwarded, answer-forwards}
use interiors_api_client.Quotes.Tests
use interiors_api_client.Quotes.Tests.{payload, outside, start, order}

abbrev about : Request
about = record { trace_id = none; url = text "/quotes/request" }

abbrev lenient : Validators
lenient = record {
  validate = λ t fs. some (record { request = Tests.request; payload = payload });
  is_uuid = is_some;
}

abbrev keyless : HttpRequest
keyless = record {
  body = obj (field (text "calculatorType") (str (text "kitchen")) end);
  ip = none;
  remote_address = some (text "::1");
  idempotency_key = none;
  about = about;
}

reply_of-eq-unknown_iff_example :
    (reply_of (driver 11000 []) about ≡ unknown_reply about) ↔ IsInternal (driver 11000 [])
reply_of-eq-unknown_iff_example = reply_of-eq-unknown_iff (driver 11000 []) about

answer-forwards_example :
    IsForwarded lenient outside order keyless start
    ⊎ (answer lenient outside order keyless start ≡ (failed (reply_of bad_request about), start))
answer-forwards_example = answer-forwards lenient outside order keyless start

refused : answer lenient outside order keyless start ≡ (failed (reply_of bad_request about), start)
unfolding answer field_of text_eq
refused = refl
