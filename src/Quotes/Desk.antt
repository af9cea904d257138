-- ===== src/Quotes/Desk.antt =====
-- The documents of the quotes module, and the state of one submission: the calls that were made to
-- what is outside, newest first, and the state of that.
use interiors_api_client.Common.{ℕ, Bool, Option, none, some, List, ◌∷◌, if◌then◌else◌, is_empty}
use interiors_api_client.Common.Text.{Text}
use interiors_api_client.Common.Decimal.{Decimal}
use interiors_api_client.Common.Exec.{Exec}
use interiors_api_client.Notifications.Context.{Context}
use interiors_api_client.Quotes.Request.{CalculatorType, Configuration, Location}

-- `CreateQuoteResponseDto`; the message tells a new quote from one that was found.
pub data Message : Type 0 where
  quote_generated quote_retrieved : Message

pub record Response : Type 0 where
  pub message : Message
  pub quote_id : Text
  pub estimated_price : Decimal

-- `IdempotencyRecord`, and the fields of its unique index
pub record Identity : Type 0 where
  pub scope : Text
  pub operation : Text
  pub key : Text

pub data RecordStatus : Type 0 where
  processing completed : RecordStatus

pub record Record : Type 0 where
  pub identity : Identity
  pub request_fingerprint : Text
  pub status : RecordStatus
  pub result : Option Response

pub record Customer : Type 0 where
  pub id : Text
  pub customer_key : Text
  pub email : Text
  pub name : Text
  pub phone : Text

-- What `QuoteMapper.toPersistence` makes of a request.
pub record QuoteData : Type 0 where
  pub customer : Text
  pub customer_key : Text
  pub location : Option Location
  pub estimated_price : Decimal
  pub pricing_version : Text
  pub lead_status : Text
  pub contact_status : Text
  pub deal_status : Text
  pub finger_print : Text
  pub configuration : Configuration

-- A quote document that was found.
pub record StoredQuote : Type 0 where
  pub id : Text
  pub customer : Text
  pub customer_key : Text
  pub estimated_price : Decimal

pub record Saved : Type 0 where
  pub quote_id : Text
  pub customer : Customer

-- The identity checks of the rate limiter.
pub data Layer : Type 0 where
  ip email phone global : Layer

pub data Call : Type 0 where
  fire : Layer → Call
  verify_token : Text → Call
  records_find_one : Identity → Call
  records_create : Record → Call
  records_update_one : Identity → Text → Response → Call
  cache_set : Text → Call
  cache_delete : Text → Call
  quotes_find_one_and_update : CalculatorType → Text → Call
  quotes_save : QuoteData → Call
  customers_find_one : Text → Call
  customers_save : Text → Call
  start_session end_session : Call
  count_quote : Bool → Call
  dispatch : Context → Call

pub record Desk (W : Type 0) : Type 0 where
  pub calls : List Call
  pub outside : W

-- What the module is given: the breaker, the rate limits and locks of the cache, reCAPTCHA, the
-- collections, the transaction, the counter, the dispatcher, hashes, configuration and trace. Each
-- may fail.
pub record Services (W : Type 0) : Type 0 where
  pub breaker_fire : Layer → Exec W Bool → Exec W Bool
  pub token_bucket : Text → (refill interval capacity : ℕ) → Exec W Bool
  pub sliding_window : Text → (limit window : ℕ) → Exec W Bool
  pub recaptcha_verify : Text → Text → Exec W (Unit {0})
  pub record_find : Identity → Exec W (Option Record)
  pub record_create : Record → Exec W (Unit {0})
  pub record_update : Identity → Text → Response → Exec W ℕ
  pub lock_set : Text → Text → ℕ → Bool → Exec W Bool
  pub lock_delete : Text → Exec W (Unit {0})
  pub quote_find_and_update : CalculatorType → Text → Exec W (Option StoredQuote)
  pub quote_insert : CalculatorType → QuoteData → Exec W Text
  pub customer_find : Text → Exec W (Option Customer)
  pub customer_insert : (customer_key email name phone : Text) → Exec W Customer
  pub session_start : Exec W (Unit {0})
  pub session_end : Exec W (Unit {0})
  pub with_transaction : Exec (Desk W) Saved → Exec (Desk W) Saved
  pub counter_inc : Bool → Exec W (Unit {0})
  pub notification_dispatch : Context → Exec W (Unit {0})
  pub sha256 : Text → Text
  pub hmac : Text → Text → Text
  pub config : Text → Option Text
  pub env : Text → Option Text
  pub trace_id : Option Text

-- A call of what is outside: it is written down.
abbrev pub invoke : {W A : Type 0} → Call → Exec W A → Exec (Desk W) A
invoke c f s = let (r, w) = f s.outside in (r, record { calls = c ∷ s.calls; outside = w })

-- `process.env.X || fallback`
abbrev pub env_or : Option Text → Text → Text
env_or none fallback = fallback
env_or (some v) fallback = if is_empty v then fallback else v
