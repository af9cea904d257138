-- ===== src/Quotes/Notices.antt =====
-- The notification of a quote: the pipeline takes it, and its dispatch changes no response.
use interiors_api_client.Common.{◌≡◌, ◌≢◌, refl, inl, inr, true, Option, none, some, ◌∷◌, []}
use interiors_api_client.Common.Text.{Text, text_eq, trim, to_lower_case}
use interiors_api_client.Common.Decimal.{Decimal}
use interiors_api_client.Common.Exec.{Result, ok, err, pure, handle_result, ◌>>◌}
use interiors_api_client.Notifications.Stages.Validate.{is_valid_email}
use interiors_api_client.Notifications.Validation.{Filled, IsDeliverable}
use interiors_api_client.Quotes.Request.{Request}
use interiors_api_client.Quotes.Normalize.{package_of}
use interiors_api_client.Quotes.Desk.{
  dispatch, quote_retrieved, Response, Saved, StoredQuote, Desk, Services,
}
use interiors_api_client.Quotes.Guard.{release_lock}
use interiors_api_client.Quotes.Service.{
  Notice, build_quote_notification_context, trace_or, summary_label, saved, generated, send_notice,
  answer_existing, conclude,
}

valid→filled : (e : Text) → is_valid_email (trim e) ≡ true → trim e ≢ []
unfolding is_valid_email
valid→filled e v empty = cc (rw empty at v)

trace-Filled :
    (trace : Option Text)
    → ((t : Text) → trace ≡ some t → trim t ≢ [])
    → Filled (some (trace_or trace))
unfolding trim
trace-Filled none h = (_, refl, λ e. cc e)
trace-Filled (some t) h = (t, refl, h t refl)

-- A notification of a quote passes every check of the pipeline's first stage, if the quote's
-- identifier and the customer's name are more than white space, the trimmed email address
-- satisfies the address pattern, and the trace identifier, where there is one, is more than white
-- space.
pub build_quote_notification_context-IsDeliverable :
    (trace : Option Text) (n : Notice)
    → ((t : Text) → trace ≡ some t → trim t ≢ [])
    → trim n.quote_id ≢ []
    → trim n.name ≢ []
    → is_valid_email (trim n.email) ≡ true
    → IsDeliverable (build_quote_notification_context trace n)
unfolding build_quote_notification_context trim text_eq to_lower_case
build_quote_notification_context-IsDeliverable trace n traced identified named valid =
    let filled : Filled (some n.email) = (n.email, refl, valid→filled n.email valid) in
    (
      (n.quote_id, refl, identified),
      (
        trace-Filled trace traced,
        (
          (_, refl, λ e. cc e),
          (
            (_, refl, λ e. cc e),
            (
              (_, refl, λ e. cc e),
              (
                (_, refl, λ e. cc e),
                (
                  (λ e. cc e),
                  (
                    inr (inr (inl filled)),
                    (
                      (n.name, refl, named),
                      ((λ _. filled), ((λ _. (n.email, refl, valid)), ((λ e. cc e), (λ e. cc e)))),
                    ),
                  ),
                ),
              ),
            ),
          ),
        ),
      ),
    )

module _ {W : Type 0} (services : Services W) where
  -- What a notification of a stored quote says.
  abbrev pub notice_of : Request → StoredQuote → Notice
  notice_of q found = record {
    quote_id = found.id;
    email = q.email;
    name = q.name;
    summary_label = summary_label q.configuration;
    package_name = package_of q.configuration;
    customer_id = found.customer;
    customer_key = found.customer_key;
    price = found.estimated_price;
  }

  swallowed-ok :
      (r : Result (Unit {0})) (s : Desk W) → handle_result r (λ _. pure tt) s ≡ (ok tt, s)
  swallowed-ok (ok u) s = refl
  swallowed-ok (err e) s = refl

  send_notice-ok :
      (n : Notice) (s : Desk W)
      → send_notice services n s ≡ (
        ok tt,
        record {
          calls = dispatch (build_quote_notification_context services.trace_id n) ∷ s.calls;
          outside =
              (services.notification_dispatch
                (build_quote_notification_context services.trace_id n)
                s.outside).1;
        },
      )
  unfolding send_notice
  send_notice-ok n s = swallowed-ok _ _

  notified :
      (n : Notice) (r : Response) (s : Desk W) → ((send_notice services n >> pure r) s).0 ≡ ok r
  notified n r s = rw (send_notice-ok n s) refl

  -- A quote that is found is answered with its own identifier and the price that was stored with
  -- it, whatever the dispatcher does; the dispatch is the only call, so the lock stays.
  pub answer_existing-dispatches :
      (q : Request) (found : StoredQuote) (s : Desk W)
      → ((answer_existing services q found s).0
          ≡ ok (record {
            message = quote_retrieved;
            quote_id = found.id;
            estimated_price = found.estimated_price;
          }))
        × ((answer_existing services q found s).1.calls
            ≡ dispatch (build_quote_notification_context services.trace_id (notice_of q found))
              ∷ s.calls)
  unfolding answer_existing
  answer_existing-dispatches q found s = (
    rw (send_notice-ok (notice_of q found) s) refl,
    rw (send_notice-ok (notice_of q found) s) refl,
  )

  -- Once a new quote is saved and its lock is deleted, the response is the new quote's, whatever
  -- the dispatcher does.
  pub conclude-ok :
      (q : Request) (fp : Text) (price : Decimal) (x : Saved) (s : Desk W)
      → (release_lock services fp s).0 ≡ ok tt
      → (conclude services q fp price (saved x) s).0 ≡ ok (generated services x.quote_id price)
  unfolding conclude
  conclude-ok q fp price x s released = rw released (notified _ _ _)
