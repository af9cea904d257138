-- ===== src/Quotes/Service/Documents.antt =====
-- The notification of a quote, its document (`QuoteMapper`), and the tests on exceptions of the
-- `catch` block (application/services/quote.service.ts).
use interiors_api_client.Common.{
  Bool, true, false, not, ◌&&◌, ◌||◌, Option, none, some, [], ◌∷◌, ◌==◌, if◌then◌else◌, is_empty,
  any,
}
use interiors_api_client.Common.Text.{Text, text, text_eq}
use interiors_api_client.Common.Decimal.{Decimal}
use interiors_api_client.Common.Json.{num, str, Fields, end, field}
use interiors_api_client.Common.Exception.{Exception, conflict, driver}
use interiors_api_client.Notifications.Context.{Context}
use interiors_api_client.Quotes.Request.{
  Configuration, of_full_home, of_kitchen, of_wardrobe, absent, Request,
}
use interiors_api_client.Quotes.Pricing.Resolver.{Strategy}
use interiors_api_client.Quotes.Normalize.{print_decimal}
use interiors_api_client.Quotes.Desk.{Customer, QuoteData}

-- `bhkType`, `layout` or `wardrobeType`
-- The fields of an absent configuration cannot be read; `normalizeQuoteData` throws this exception
-- before anything is done with the label.
abbrev pub summary_label : Configuration → Text
summary_label (of_full_home c) = c.bhk_type
summary_label (of_kitchen c) = c.layout
summary_label (of_wardrobe c) = c.wardrobe_type
summary_label (absent t) = []

abbrev given : Text → Option Text → Fields → Fields
given k none fs = fs
given k (some s) fs = field k (str s) fs

abbrev pub trace_or : Option Text → Text
trace_or none = text "missing-trace-id"
trace_or (some t) = t

-- What a notification says of a quote.
pub record Notice : Type 0 where
  pub quote_id : Text
  pub email : Text
  pub name : Text
  pub summary_label : Text
  pub package_name : Option Text
  pub customer_id : Text
  pub customer_key : Text
  pub price : Decimal

unfoldable pub build_quote_notification_context : Option Text → Notice → Context
build_quote_notification_context trace n = record {
  notification_id = some n.quote_id;
  trace_id = some (trace_or trace);
  type = some (text "EMAIL");
  priority = some (text "high");
  category = some (text "TRANSACTIONAL");
  recipient = some (record {
    email = some n.email;
    phone = none;
    device_token = none;
    name = some n.name;
    user_id = some n.customer_id;
    customer_key = some n.customer_key;
  });
  subject = some (text "EastInteria Interiors - Your Estimate is Ready");
  template_name = some (text "quote-estimate");
  template_data = some (
      field (text "name") (str n.name) (
        field (text "label") (str n.summary_label) (
          field (text "estimatedPrice") (num (print_decimal n.price))
            (given (text "package") n.package_name end))));
  metadata = record {
    enriched_at = none;
    environment = none;
    compiled_body = none;
    provider_used = none;
    result = none;
  };
}

-- The configured version, or the strategy's own.
abbrev version_or : Option Text → Text → Text
version_or none fallback = fallback
version_or (some v) fallback = if is_empty v then fallback else v

abbrev pub pricing_version : (Text → Option Text) → Strategy → Text
pricing_version config Strategy.full_home =
    version_or (config (text "FULL_HOME_PRICING_VERSION")) (text "full-home-v1")
pricing_version config Strategy.kitchen =
    version_or (config (text "KITCHEN_PRICING_VERSION")) (text "kitchen-v1")
pricing_version config Strategy.wardrobe =
    version_or (config (text "WARDROBE_PRICING_VERSION")) (text "wardrobe-v1")

-- `QuoteMapper.toPersistence`; the pricing snapshot is left out.
unfoldable pub to_persistence : Request → Decimal → Text → Customer → Text → QuoteData
to_persistence q price version c fingerprint = record {
  customer = c.id;
  customer_key = c.customer_key;
  location = q.location;
  estimated_price = price;
  pricing_version = version;
  lead_status = text "NEW_LEAD";
  contact_status = text "UNCONTACTED";
  deal_status = text "PENDING";
  finger_print = fingerprint;
  configuration = q.configuration;
}

-- `String.prototype.includes`
abbrev pub starts : Text → Text → Bool
starts [] s = true
starts (p ∷ ps) [] = false
starts (p ∷ ps) (c ∷ s) = (p == c) && starts ps s

abbrev pub includes : Text → Text → Bool
includes p [] = starts p []
includes p (c ∷ s) = starts p (c ∷ s) || includes p s

-- `error instanceof ConflictException && !error.message.includes("fingerPrint")`
abbrev pub is_idempotency_conflict : Exception → Bool
is_idempotency_conflict (conflict message) = not (includes (text "fingerPrint") message)
is_idempotency_conflict _ = false

-- `error.code === 11000 && error.keyPattern?.fingerPrint`
abbrev pub is_fingerprint_race : Exception → Bool
is_fingerprint_race (driver code keys) = (code == 11000) && any (text_eq (text "fingerPrint")) keys
is_fingerprint_race _ = false

abbrev pub key_required : Exception
key_required = conflict (text "Idempotency-Key is required.")

abbrev pub duplicate_submission : Exception
duplicate_submission = conflict (text "Potential duplicate quote submission detected")

abbrev pub already_processed : Exception
already_processed = conflict (
    text
      "This exact quote is already being processed. Please check your email or try again in a moment.")
