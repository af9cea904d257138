-- ===== src/Quotes/Service.antt =====
-- `QuoteService.createQuoteRequest` (src/modules/quotes/application/services/quote.service.ts).
mod Documents
unfoldable pub use Documents.{build_quote_notification_context, to_persistence}
pub use Documents.{
  summary_label, trace_or, Notice, pricing_version, is_idempotency_conflict, is_fingerprint_race,
  includes, starts, key_required, duplicate_submission, already_processed,
}
use interiors_api_client.Common.{true, false, Option, none, some, List, if◌then◌else◌, is_empty}
use interiors_api_client.Common.Text.{Text, text}
use interiors_api_client.Common.Decimal.{Decimal}
use interiors_api_client.Common.Json.{Json, end}
use interiors_api_client.Common.Exception.{Exception}
use interiors_api_client.Common.Exec.{
  Exec, pure, throw, lift, when, try_catch, finally, ◌>>=◌, ◌>>◌,
}
use interiors_api_client.Quotes.Request.{Request, calculator_type}
use interiors_api_client.Quotes.Pricing.Resolver.{Strategy, resolve, registered, calculate_estimate}
use interiors_api_client.Quotes.Normalize.{normalize_quote_data, package_of}
use interiors_api_client.Quotes.Desk.{
  Layer, quote_generated, quote_retrieved, Response, StoredQuote, Saved, Desk, Services, invoke,
  verify_token, quotes_find_one_and_update, quotes_save, start_session, end_session, count_quote,
  dispatch,
}
use interiors_api_client.Quotes.Limits.{check}
use interiors_api_client.Quotes.Idempotency.{
  IdempotencyContext, get_saved_result, get_completed_result, claim, save_result,
}
use interiors_api_client.Quotes.Customers.{find_or_create_customer}
use interiors_api_client.Quotes.Guard.{is_duplicate_submission, release_lock}

-- What the `try` statement round the transaction leaves: a saved quote, or a response to return.
pub data Outcome : Type 0 where
  saved : Saved → Outcome
  answered : Response → Outcome

module _ {W : Type 0} (services : Services W) where
  open services use {
    recaptcha_verify, quote_find_and_update, quote_insert, session_start, session_end,
    with_transaction, counter_inc, notification_dispatch, config, trace_id,
  }

  -- `void dispatch(context).catch(log)`
  unfoldable pub send_notice : Notice → Exec (Desk W) (Unit {0})
  send_notice n =
      let c = build_quote_notification_context trace_id n in
      try_catch (invoke (dispatch c) (notification_dispatch c)) (λ _. pure tt)

  -- Path A: the quote is there already.
  unfoldable pub answer_existing : Request → StoredQuote → Exec (Desk W) Response
  unfolding send_notice
  answer_existing q found = do
    send_notice (record {
      quote_id = found.id;
      email = q.email;
      name = q.name;
      summary_label = summary_label q.configuration;
      package_name = package_of q.configuration;
      customer_id = found.customer;
      customer_key = found.customer_key;
      price = found.estimated_price;
    })
    pure (record {
      message = quote_retrieved;
      quote_id = found.id;
      estimated_price = found.estimated_price;
    })

  abbrev pub generated : Text → Decimal → Response
  generated id price = record { message = quote_generated; quote_id = id; estimated_price = price }

  -- The callback of the transaction.
  unfoldable pub transaction :
      Request → IdempotencyContext → Text → Strategy → Decimal → Exec (Desk W) Saved
  transaction q c fingerprint strategy price = do
    claim services c
    customer ← find_or_create_customer services q.email q.name q.phone
    let document = to_persistence q price (pricing_version config strategy) customer fingerprint
    id ← invoke (quotes_save document) (quote_insert (calculator_type q.configuration) document)
    save_result services c (generated id price)
    pure (record { quote_id = id; customer = customer })

  -- The end of the `catch` block.
  unfoldable pub fail_submission : Exception → Exec (Desk W) Outcome
  fail_submission e =
      if is_fingerprint_race e
      then throw already_processed
      else do invoke (count_quote false) (counter_inc false); throw e

  abbrev pub answer_or_fail : Exception → Option Response → Exec (Desk W) Outcome
  answer_or_fail e (some r) = pure (answered r)
  answer_or_fail e none = fail_submission e

  abbrev pub recover_by : IdempotencyContext → Exception → Exec (Desk W) Outcome
  recover_by c e =
      if is_idempotency_conflict e
      then get_completed_result services c >>= answer_or_fail e
      else fail_submission e

  -- The `catch` block.
  unfoldable pub recover : IdempotencyContext → Text → Exception → Exec (Desk W) Outcome
  unfolding fail_submission
  recover c fingerprint e = do
    try_catch (release_lock services fingerprint) (λ _. pure tt)
    recover_by c e

  -- The `try`, `catch` and `finally` round the transaction.
  unfoldable pub run_transaction :
      Request → IdempotencyContext → Text → Strategy → Decimal → Exec (Desk W) Outcome
  unfolding transaction recover
  run_transaction q c fingerprint strategy price =
      finally
        (try_catch
          (do
            result ← with_transaction (transaction q c fingerprint strategy price)
            invoke (count_quote true) (counter_inc true)
            pure (saved result))
          (recover c fingerprint))
        (invoke end_session session_end)

  -- What follows the `try` statement.
  unfoldable pub conclude : Request → Text → Decimal → Outcome → Exec (Desk W) Response
  unfolding send_notice
  conclude q fingerprint price (answered r) = pure r
  conclude q fingerprint price (saved result) = do
    release_lock services fingerprint
    send_notice (record {
      quote_id = result.quote_id;
      email = result.customer.email;
      name = result.customer.name;
      summary_label = summary_label q.configuration;
      package_name = package_of q.configuration;
      customer_id = result.customer.id;
      customer_key = result.customer.customer_key;
      price = price;
    })
    pure (generated result.quote_id price)

  -- Path B: a new quote.
  unfoldable pub create_new : Request → IdempotencyContext → Text → Exec (Desk W) Response
  unfolding run_transaction conclude
  create_new q c fingerprint = do
    strategy ← lift (resolve registered (calculator_type q.configuration))
    price ← lift (calculate_estimate strategy q.configuration)
    invoke start_session session_start
    outcome ← run_transaction q c fingerprint strategy price
    conclude q fingerprint price outcome

  abbrev pub answer_or_create :
      Request → IdempotencyContext → Text → Option StoredQuote → Exec (Desk W) Response
  answer_or_create q c fingerprint (some found) = answer_existing q found
  answer_or_create q c fingerprint none = create_new q c fingerprint

  -- From the lock of the duplicate guard on.
  unfoldable pub submit_once : Request → IdempotencyContext → Exec (Desk W) Response
  unfolding answer_existing create_new
  submit_once q c = do
    normalized ← lift (normalize_quote_data q)
    (fingerprint, is_duplicate) ← is_duplicate_submission services normalized
    when is_duplicate (throw duplicate_submission)
    found ←
        invoke (quotes_find_one_and_update (calculator_type q.configuration) fingerprint)
          (quote_find_and_update (calculator_type q.configuration) fingerprint)
    answer_or_create q c fingerprint found

  abbrev pub replay_or_submit :
      Request → IdempotencyContext → Option Response → Exec (Desk W) Response
  replay_or_submit q c (some previous) = pure previous
  replay_or_submit q c none = submit_once q c

  abbrev pub context_of : Request → Json → Text → IdempotencyContext
  context_of q payload key = record {
    caller = q.email;
    operation = text "quote.create";
    key = key;
    request = payload;
  }

  -- `payload` is the request without its token, as JSON.
  unfoldable pub create_quote_request :
      List Layer → Request → Json → (client_ip idempotency_key : Text) → Exec (Desk W) Response
  unfolding submit_once
  create_quote_request order q payload client_ip idempotency_key = do
    when (is_empty idempotency_key) (throw key_required)
    check services order q.email q.phone client_ip
    invoke (verify_token q.recaptcha_token)
        (recaptcha_verify q.recaptcha_token (text "quote_submit"))
    previous ← get_saved_result services (context_of q payload idempotency_key)
    replay_or_submit q (context_of q payload idempotency_key) previous
