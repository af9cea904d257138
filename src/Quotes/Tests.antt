-- ===== src/Quotes/Tests.antt =====
-- One request for a full home, with services that answer.
mod Locks
mod Ledgers
mod Routes
mod Limits
use interiors_api_client.Common.{
  Option, Bool, true, ◌&&◌, if◌then◌else◌, ℕ, ◌<◌, ◌≡◌, ◌↔◌, refl, none, some, List, [], ◌∷◌, arith,
}
use interiors_api_client.Common.Text.{Text, text_eq, text, print, trim, to_lower_case}
use interiors_api_client.Common.Decimal.{Decimal, whole}
use interiors_api_client.Common.Json.{Json, obj, end}
use interiors_api_client.Common.Exec.{Exec, ok, err}
use interiors_api_client.Common.Exec.Throws.{Within}
use interiors_api_client.Notifications.Stages.Validate.{is_valid_email}
use interiors_api_client.Notifications.Validation.{IsDeliverable}
use interiors_api_client.Quotes.Request.{FullHome, Location, Rooms, of_full_home, Request}
use interiors_api_client.Quotes.Pricing.FullHome
use interiors_api_client.Quotes.Normalize
use interiors_api_client.Quotes.Normalize.{
  NormalizedQuoteData, normalize_quote_data, normalized_at, specifications_key, full_home_key,
}
use interiors_api_client.Quotes.Desk.{
  Identity, Layer, cache_delete, dispatch, records_find_one, fire, quote_retrieved, quote_generated,
  Record, completed, Response, Customer, Saved, StoredQuote, Desk, Services,
}
use interiors_api_client.Quotes.Limits.{limit_key, check, check_each, subject_of}
use interiors_api_client.Quotes.Idempotency.{
  IdempotencyContext, fingerprint, mismatch, save_result, identity, get_saved_result,
  get_completed_result,
}
use interiors_api_client.Quotes.Customers.{generate_customer_key}
use interiors_api_client.Quotes.Guard.{create_lock_key, release_lock}
use interiors_api_client.Quotes.Service.{
  build_quote_notification_context, context_of, generated, saved, answer_existing, conclude,
  create_new, recover,
}
use interiors_api_client.Quotes.Emails.{with_email, called_by, normalize_email-identifies}
use interiors_api_client.Quotes.Collision.{
  with_bathrooms, with_home, normalize_quote_data-bathrooms,
}
use interiors_api_client.Quotes.Admission.{EveryLayer}
use interiors_api_client.Common.{◌⊎◌}
use interiors_api_client.Common.Exception.{Exception}
use interiors_api_client.Quotes.Admission.Layers.{
  IsRefused, answer_of, check-admits_iff, check-IsRefused,
}
use interiors_api_client.Quotes.Replay.{IsReplay, get_saved_result-replays_iff}
use interiors_api_client.Quotes.Locking.{create_new-unlocks}
use interiors_api_client.Quotes.Notices.{
  notice_of, build_quote_notification_context-IsDeliverable, answer_existing-dispatches,
  conclude-ok,
}
use interiors_api_client.Quotes.Submission.{Gated, create_quote_request-Gated}
use interiors_api_client.Quotes.RoundTrip.{
  completed_record, KeepsResults, get_saved_result-save_result,
}
use interiors_api_client.Common.Text.Laws.{text_eq_refl}
use interiors_api_client.Common.Exception.{driver}
use interiors_api_client.Quotes.Recovery.Outcomes.{Recovers, recover-Recovers}
use mathlib.Core.List.{Memᴰ}

abbrev rooms : Rooms
rooms = record {
  living = 1;
  kitchen = 1;
  bedroom = 2;
  bathroom = 2;
  dining = none;
  balcony = some 1;
  pooja = none;
  laundry = none;
}

abbrev home : FullHome
home = record {
  bhk_type = text "2BHK";
  builtup_area = text "Below 800 sq. ft.";
  rooms = some rooms;
  package_name = text "PREMIUM";
}

abbrev pune : Location
pune = record { city = text "Pune"; state = text "MH"; country = text "India" }

abbrev request : Request
request = record {
  configuration = of_full_home home;
  name = text "Ann";
  phone = text "+91 98";
  email = text " Ann@site.org";
  location = some pune;
  recaptcha_token = text "r";
}

abbrev ann : Customer
ann = record {
  id = text "c1";
  customer_key = text "k1";
  email = text "ann@site.org";
  name = text "Ann";
  phone = text "+91 98";
}

abbrev payload : Json
payload = obj end

abbrev earlier : Response
earlier = record { message = quote_generated; quote_id = text "q0"; estimated_price = whole 5 }

-- Every other call succeeds: no quote is found, and the customer is.
abbrev answering :
    {W : Type 0}
    → (Identity → Exec W (Option Record))
    → (Identity → Text → Response → Exec W ℕ)
    → Services W
answering find update = record {
  breaker_fire = λ l m. m;
  token_bucket = λ key r i c w. (ok true, w);
  sliding_window = λ key n m w. (ok true, w);
  recaptcha_verify = λ t a w. (ok tt, w);
  record_find = find;
  record_create = λ r w. (ok tt, w);
  record_update = update;
  lock_set = λ k v t nx w. (ok true, w);
  lock_delete = λ k w. (ok tt, w);
  quote_find_and_update = λ t f w. (ok none, w);
  quote_insert = λ t d w. (ok (text "q1"), w);
  customer_find = λ e w. (ok (some ann), w);
  customer_insert = λ k e n p w. (ok ann, w);
  session_start = λ w. (ok tt, w);
  session_end = λ w. (ok tt, w);
  with_transaction = λ m. m;
  counter_inc = λ b w. (ok tt, w);
  notification_dispatch = λ c w. (ok tt, w);
  sha256 = λ s. s;
  hmac = λ secret s. s;
  config = λ k. none;
  env = λ k. none;
  trace_id = none;
}

-- The collection of records has one completed record for every identity.
abbrev outside : Services ℕ
outside =
    answering
      (λ i w. (
        ok (
            some (record {
              identity = i;
              request_fingerprint = text "{}";
              status = completed;
              result = some earlier;
            })),
        w,
      ))
      (λ i f r w. (ok 1, w))

-- A collection of one record.
abbrev same_identity : Identity → Identity → Bool
same_identity i j =
    text_eq i.scope j.scope && (text_eq i.operation j.operation && text_eq i.key j.key)

abbrev held : Identity → Option Record → Option Record
held i none = none
held i (some r) = if same_identity i r.identity then some r else none

abbrev slot : Services (Option Record)
slot = answering (λ i w. (ok (held i w), w)) (λ i f r w. (ok 1, some (completed_record i f r)))

slot-KeepsResults : KeepsResults slot
slot-KeepsResults = record {
  finds = λ i f r w h. rw (text_eq_refl i.scope, text_eq_refl i.operation, text_eq_refl i.key) refl;
}

abbrev start : Desk ℕ
start = record { calls = []; outside = 0 }

abbrev order : List Layer
order = Layer.phone ∷ Layer.global ∷ Layer.ip ∷ Layer.email ∷ []

every_layer : EveryLayer order
every_layer Layer.phone = Memᴰ.head refl
every_layer Layer.global = Memᴰ.tail (Memᴰ.head refl)
every_layer Layer.ip = Memᴰ.tail (Memᴰ.tail (Memᴰ.head refl))
every_layer Layer.email = Memᴰ.tail (Memᴰ.tail (Memᴰ.tail (Memᴰ.head refl)))

abbrev keyed : IdempotencyContext
keyed = context_of outside request payload (text "key")

create_quote_request-Gated_example :
    Gated outside order request payload (text "10.0.0.1") (text "key") start
create_quote_request-Gated_example =
    create_quote_request-Gated outside order request payload (text "10.0.0.1") (text "key") start

abbrev normalized : NormalizedQuoteData
normalized = normalized_at request (text "2BHK-Below 800 sq. ft.-L1B2K1") pune

request_normalized : normalize_quote_data request ≡ ok normalized
unfolding normalize_quote_data specifications_key full_home_key print
request_normalized = refl

create_new-unlocks_example :
    Memᴰ
      (cache_delete (create_lock_key (text "fp")))
      (create_new outside request keyed (text "fp") start).1.calls
create_new-unlocks_example =
    create_new-unlocks outside keyed (text "fp") (λ w. refl) request normalized start
      request_normalized refl

check-admits_iff_example :
    (((check outside order (text "ann@site.org") (text "98") (text "10.0.0.1") start).0 ≡ ok tt) ↔ (
      (l : Layer)
      → answer_of outside (text "ann@site.org") (text "98") (text "10.0.0.1") l start.outside
        ≡ ok true))
    × ((check outside order (text "ann@site.org") (text "98") (text "10.0.0.1") start).1.calls
        ≡ fire Layer.global ∷ fire Layer.phone ∷ fire Layer.email ∷ fire Layer.ip ∷ [])
check-admits_iff_example =
    check-admits_iff outside (text "ann@site.org") (text "98") (text "10.0.0.1") order start
      every_layer

check-IsRefused_example :
    (((check outside order (text "ann@site.org") (text "98") (text "10.0.0.1") start).0 ≡ ok tt)
      × ((l : Layer)
          → Memᴰ l order
          → answer_of outside (text "ann@site.org") (text "98") (text "10.0.0.1") l start.outside
            ≡ ok true))
    ⊎ ((l : Layer) × (e : Exception) × Memᴰ l order
        × ((check outside order (text "ann@site.org") (text "98") (text "10.0.0.1") start).0
            ≡ err e)
        × IsRefused l
            (answer_of outside (text "ann@site.org") (text "98") (text "10.0.0.1") l start.outside)
            e)
check-IsRefused_example =
    check-IsRefused outside (text "ann@site.org") (text "98") (text "10.0.0.1") order start

abbrev stored_record : Record
stored_record = record {
  identity = identity outside keyed;
  request_fingerprint = text "{}";
  status = completed;
  result = some earlier;
}

get_saved_result-replays_iff_example :
    (((get_saved_result outside keyed start).0 ≡ ok (some earlier))
      ↔ IsReplay outside keyed (some stored_record) earlier)
    × ((get_saved_result outside keyed start).1.calls
        ≡ records_find_one (identity outside keyed) ∷ [])
get_saved_result-replays_iff_example =
    get_saved_result-replays_iff outside keyed (some stored_record) start 0 earlier refl

abbrev empty : Desk (Option Record)
empty = record { calls = []; outside = none }

normalize_quote_data-bathrooms_example :
    (normalize_quote_data (with_home request (with_bathrooms home rooms 1))
      ≡ normalize_quote_data (with_home request (with_bathrooms home rooms 3)))
    × (d : Decimal) × (e : Decimal) × (FullHome.calculate_estimate
          (of_full_home (with_bathrooms home rooms 1))
        ≡ ok d)
    × (FullHome.calculate_estimate (of_full_home (with_bathrooms home rooms 3)) ≡ ok e)
    × (d.places ≡ e.places)
    × (d.mantissa < e.mantissa)
normalize_quote_data-bathrooms_example =
    normalize_quote_data-bathrooms request home rooms 1 3 (omega arith)

normalize_email-identifies_example :
    (limit_key outside Layer.email (text " Ann@site.org")
      ≡ limit_key outside Layer.email (text "ann@site.org"))
    × ((generate_customer_key outside (text " Ann@site.org") (text "s")
          ≡ generate_customer_key outside (text "ann@site.org") (text "s"))
        × ((identity outside (called_by keyed (text " Ann@site.org"))
              ≡ identity outside (called_by keyed (text "ann@site.org")))
            × (normalize_quote_data (with_email request (text " Ann@site.org"))
                ≡ normalize_quote_data (with_email request (text "ann@site.org")))))
unfolding Normalize.normalize_email trim to_lower_case
normalize_email-identifies_example =
    normalize_email-identifies outside request keyed (text "s") (text " Ann@site.org")
      (text "ann@site.org") refl

abbrev stored : StoredQuote
stored = record {
  id = text "q7";
  customer = text "c1";
  customer_key = text "k1";
  estimated_price = whole 10;
}

build_quote_notification_context-IsDeliverable_example :
    IsDeliverable (build_quote_notification_context none (notice_of outside request stored))
unfolding trim is_valid_email
build_quote_notification_context-IsDeliverable_example =
    build_quote_notification_context-IsDeliverable none (notice_of outside request stored)
      (λ t e. absurd (cc e)) (λ e. cc e) (λ e. cc e) refl

answer_existing-dispatches_example :
    ((answer_existing outside request stored start).0
      ≡ ok (record { message = quote_retrieved; quote_id = text "q7"; estimated_price = whole 10 }))
    × ((answer_existing outside request stored start).1.calls
        ≡ dispatch (build_quote_notification_context none (notice_of outside request stored)) ∷ [])
answer_existing-dispatches_example = answer_existing-dispatches outside request stored start

abbrev kept : Saved
kept = record { quote_id = text "q1"; customer = ann }

recover-Recovers_example :
    Recovers
      (get_completed_result outside keyed (release_lock outside (text "fp") start).1).0
      (driver 11000 (text "fingerPrint" ∷ []))
      (recover outside keyed (text "fp") (driver 11000 (text "fingerPrint" ∷ [])) start).0
recover-Recovers_example =
    recover-Recovers outside (λ w. refl) keyed (text "fp") (driver 11000 (text "fingerPrint" ∷ []))
      start
