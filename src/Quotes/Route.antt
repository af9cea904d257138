-- ===== src/Quotes/Route.antt =====
-- The route of quote requests: `QuoteController.requestQuote` (controllers/quote.controller.ts) with
-- `QuoteValidationPipe` (application/pipes/quote-validation.pipe.ts), and the response of
-- `GlobalExceptionFilter`. The packages that validate a body and read a UUID are parameters.
-- The ThrottlerGuard of app.module.ts, which may answer 429 before the controller is reached, is
-- left out: a request here is one that it lets through.
pub mod Forwarding
use interiors_api_client.Common.{Bool, true, false, not, Option, none, some, List, if◌then◌else◌, ℕ}
use interiors_api_client.Common.Text.{Text, text, text_eq}
use interiors_api_client.Common.Json.{Json, null, bool, num, str, arr, obj, Fields, end, field}
use interiors_api_client.Common.Exception.{Exception, bad_request}
use interiors_api_client.Common.Exception.Filter
use interiors_api_client.Common.Exception.Filter.{Reply, reply_of}
use interiors_api_client.Common.Exec.{Exec, Result, ok, err, throw, lift, when, ◌>>=◌, ◌>>◌}
use interiors_api_client.Quotes.Request.{CalculatorType, Request}
use interiors_api_client.Quotes.Desk.{Layer, Response, Desk, Services}
use interiors_api_client.Quotes.Service.{create_quote_request}

-- A body that passed: the request, and its JSON without the token, as the service reads it.
pub record Valid : Type 0 where
  pub request : Request
  pub payload : Json

-- `plainToInstance` and `validate` for the class of a calculator, which give `none` where there are
-- errors, and `ParseUUIDPipe` for the version 4 on a header that may be absent.
pub record Validators : Type 0 where
  pub validate : CalculatorType → Fields → Option Valid
  pub is_uuid : Option Text → Bool

-- `value.calculatorType`
unfoldable pub field_of : Text → Fields → Option Json
field_of k end = none
field_of k (field j v fs) = if text_eq j k then some v else field_of k fs

-- `switch (value.calculatorType)`
abbrev pub calculator_named : Option Json → Option CalculatorType
calculator_named (some (str t)) =
    if text_eq t (text "full_home")
    then some CalculatorType.full_home
    else if text_eq t (text "kitchen")
    then some CalculatorType.kitchen
    else if text_eq t (text "wardrobe")
    then some CalculatorType.wardrobe
    else none
calculator_named _ = none

-- What the route is given.
pub record HttpRequest : Type 0 where
  pub body : Json
  pub ip : Option Text
  pub remote_address : Option Text
  pub idempotency_key : Option Text
  pub about : Filter.Request

pub data HttpResponse : Type 0 where
  created : Response → HttpResponse
  failed : Reply → HttpResponse

-- `request.ip ?? request.socket.remoteAddress ?? ""`
abbrev pub ip_or : Option Text → Option Text → Text
ip_or (some a) remote = a
ip_or none (some a) = a
ip_or none none = text ""

abbrev pub client_ip : HttpRequest → Text
client_ip q = ip_or q.ip q.remote_address

-- A header that passed is there.
abbrev pub key_of : Option Text → Text
key_of none = text ""
key_of (some k) = k

module _ (v : Validators) where
  abbrev pub found_valid : Option Valid → Result Valid
  found_valid none = err bad_request
  found_valid (some d) = ok d

  abbrev pub validate_as : Fields → Option CalculatorType → Result Valid
  validate_as fs none = err bad_request
  validate_as fs (some t) = found_valid (v.validate t fs)

  -- `QuoteValidationPipe.transform`; an array is an object without a calculator.
  unfoldable pub transform : Json → Result Valid
  unfolding field_of
  transform (obj fs) = validate_as fs (calculator_named (field_of (text "calculatorType") fs))
  transform _ = err bad_request

  module _ {W : Type 0} (services : Services W) (order : List Layer) where
    -- `requestQuote`, after the pipe of its body
    unfoldable pub request_quote : HttpRequest → Exec (Desk W) Response
    unfolding transform
    request_quote q = do
      d ← lift (transform q.body)
      when (not (v.is_uuid q.idempotency_key)) (throw bad_request)
      create_quote_request services order d.request d.payload (client_ip q)
          (key_of q.idempotency_key)

    abbrev pub respond : HttpRequest → Result Response → HttpResponse
    respond q (ok r) = created r
    respond q (err e) = failed (reply_of e q.about)

    -- The answer to a request, with the filter of the exceptions.
    unfoldable pub answer : HttpRequest → Desk W → HttpResponse × Desk W
    unfolding request_quote
    answer q s = let (r, t) = request_quote q s in (respond q r, t)
