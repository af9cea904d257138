-- ===== src/Quotes/Emails.antt =====
-- One customer, however the email address is spelled: the address in the rate limit's key, the
-- customer key, the scope of an idempotency key and the fingerprint of a quote.
use interiors_api_client.Common.{◌≡◌, refl, ap, ◌++◌, Option, none, some}
use interiors_api_client.Common.Text.{Text, text, trim, to_lower_case}
use interiors_api_client.Common.Text.Laws.{trim-to_lower_case}
use interiors_api_client.Quotes.Desk.{Layer, Services}
use interiors_api_client.Quotes.Limits
use interiors_api_client.Quotes.Normalize
use interiors_api_client.Quotes.Limits.{limit_key}
use interiors_api_client.Quotes.Idempotency.{IdempotencyContext, identity}
use interiors_api_client.Quotes.Customers.{generate_customer_key}
use interiors_api_client.Quotes.Normalize.{
  NormalizedQuoteData, normalize_quote_data, normalized_with, then_result, specifications_key,
  package_of,
}
use interiors_api_client.Common.Exec.{Result, ok, err}
use interiors_api_client.Quotes.Idempotency
use interiors_api_client.Quotes.Request.{Location, Request, calculator_type}

normalize_email-agrees : (e : Text) → Limits.normalize_email e ≡ Normalize.normalize_email e
unfolding Limits.normalize_email Normalize.normalize_email
normalize_email-agrees e = trim-to_lower_case e

-- The request, sent from another address.
abbrev pub with_email : Request → Text → Request
with_email q e = record {
  configuration = q.configuration;
  name = q.name;
  phone = q.phone;
  email = e;
  location = q.location;
  recaptcha_token = q.recaptcha_token;
}

abbrev pub called_by : IdempotencyContext → Text → IdempotencyContext
called_by c e = record { caller = e; operation = c.operation; key = c.key; request = c.request }

normalized-with_email :
    (q : Request) (e e' : Text) (at : Option Location) (r : Result Text)
    → Normalize.normalize_email e ≡ Normalize.normalize_email e'
    → then_result (normalized_with (with_email q e) at) r
      ≡ then_result (normalized_with (with_email q e') at) r
normalized-with_email q e e' at (err x) h = refl
normalized-with_email q e e' none (ok key) h = refl
normalized-with_email q e e' (some at) (ok key) h = ap (λ m. ok (normalized_for m)) h
  where
    normalized_for : Text → NormalizedQuoteData
    normalized_for m = record {
      calculator = calculator_type q.configuration;
      email = m;
      phone = trim q.phone;
      package_name = package_of q.configuration;
      city = to_lower_case (trim at.city);
      state = to_lower_case (trim at.state);
      country = to_lower_case (trim at.country);
      specifications_key = key;
    }

-- Two addresses that differ only in their case and in the white space around them have one rate
-- limit, one customer key (whatever the secret), one idempotency scope for each key and
-- operation, and give one normalized request for each request.
pub normalize_email-identifies :
    {W : Type 0} (services : Services W) (q : Request) (c : IdempotencyContext) (secret e e' : Text)
    → Normalize.normalize_email e ≡ Normalize.normalize_email e'
    → (limit_key services Layer.email e ≡ limit_key services Layer.email e')
      × ((generate_customer_key services e secret ≡ generate_customer_key services e' secret)
          × ((identity services (called_by c e) ≡ identity services (called_by c e'))
              × (normalize_quote_data (with_email q e) ≡ normalize_quote_data (with_email q e'))))
unfolding limit_key Normalize.normalize_email generate_customer_key identity normalize_quote_data
normalize_email-identifies services q c secret e e' h = (
  rw (normalize_email-agrees e, normalize_email-agrees e', Normalize.normalize_email, h) refl,
  (
    ap (λ m. services.hmac secret (text "email:" ++ m)) h,
    (
      ap
          (λ m. record {
            scope = services.hmac (Idempotency.secret services) m;
            operation = c.operation;
            key = c.key;
          })
          h,
      normalized-with_email q e e' q.location (specifications_key q.configuration) h,
    ),
  ),
)
