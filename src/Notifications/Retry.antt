-- ===== src/Notifications/Retry.antt =====
-- What happens to a notification that the provider refuses: `RateLimiterStage` runs the stages
-- behind it a second time.
use interiors_api_client.Common.{
  ℕ, suc, ◌+◌, ◌≡◌, refl, true, false, Option, none, some, List, [], ◌∷◌, arith,
}
use interiors_api_client.Common.Exception.{
  Exception, infrastructure, delivery_failed, template_compile_failed, is_application,
}
use interiors_api_client.Common.Exec.{ok, err, Exec, pure}
use interiors_api_client.Common.Text.{Text, text, text_eq, to_lower_case}
use interiors_api_client.Common.Text.Laws.{eq_of_text_eq}
use interiors_api_client.Common.Json.{Fields}
use interiors_api_client.Notifications.Context.{
  Call, send, Context, Recipient, Delivery, Provider, Status, Services, Run, invoke, record_attempt,
  read_file, with_metadata,
}
use interiors_api_client.Notifications.Stages.RateLimit.{limit_rate, check_rate, is_named}
use interiors_api_client.Notifications.Stages.CompileTemplate.{
  compile, template_path, template_failure, data_of,
}
use interiors_api_client.Notifications.Stages.Track.{track, failed_delivery}
use interiors_api_client.Notifications.Stages.Transport.{transport, get_provider}

abbrev count_send : Call → ℕ → ℕ
count_send (send p) n = suc n
count_send _ n = n

not_sms : (o : Option Text) → is_named o (text "email") ≡ true → is_named o (text "sms") ≡ false
unfolding text_eq
not_sms none e = refl
not_sms (some t) e = rw (eq_of_text_eq (to_lower_case t) (text "email") e) refl

-- How often a provider was asked to send.
abbrev pub sends : List Call → ℕ
sends [] = 0
sends (c ∷ cs) = count_send c (sends cs)

-- Everything works but the delivery: the provider answers that it failed.
pub record RefusesDelivery {W : Type 0} (services : Services W) : Type 0 where
  pub reads : (path : Text) (w : W) → (x : Text) × ((services.fs_read_file path w).0 ≡ ok x)
  pub compiles :
      (source : Text) (d : Fields) → (x : Text) × (services.compile_template source d ≡ ok x)
  pub attempts : (c : Context) (w : W) → (services.tracker_record_attempt c w).0 ≡ ok tt
  pub results :
      (c : Context) (d : Delivery) (w : W) → (services.tracker_record_result c d w).0 ≡ ok tt
  pub available : (p : Provider) (w : W) → (services.provider_is_available p w).0 ≡ ok true
  pub routes :
      (p : Provider) × ((c : Context)
        → is_named c.type (text "email") ≡ true
        → get_provider (services.config_get (text "EMAIL_PROVIDER")) c ≡ ok p)
  pub refuses :
      (p : Provider) (c : Context) (w : W)
      → (d : Delivery) × ((services.provider_send p c w).0 ≡ ok d) × (d.status ≡ Status.failed)

module _ {W : Type 0} (services : Services W) where
  -- If the limit lets the notification pass and the later stages then throw anything but an
  -- `ApplicationException`, the step is a second run of the later stages from where the first run
  -- left off.
  pub limit_rate_reruns :
      (next : Exec (Run W) (Unit {0})) (s s1 s2 : Run W) (e : Exception)
      → check_rate services s.context.recipient s.context s ≡ (ok tt, s1)
      → next s1 ≡ (err e, s2)
      → is_application e ≡ false
      → limit_rate services next s ≡ next s2
  unfolding limit_rate
  limit_rate_reruns next s s1 s2 e passed failed other = rw (passed, failed, other) refl

  -- From a context for an email the step throws `e`, after one more request to send.
  pub record SendsOnce (e : Exception) (m : Exec (Run W) (Unit {0})) : Type 0 where
    pub at :
        (s : Run W)
        → is_named s.context.type (text "email") ≡ true
        → ((m s).0 ≡ err e)
          × (sends (m s).1.calls ≡ sends s.calls + 1)
          × ((m s).1.context.type ≡ s.context.type)

  module _ (h : RefusesDelivery services) where
    pub transport-SendsOnce :
        SendsOnce (infrastructure delivery_failed 500) (transport services (pure tt))
    unfolding transport
    transport-SendsOnce = record {
      at = λ s email.
          let (p, route) = h.routes in
          let w = (services.provider_is_available p s.services).1 in
          let (d, sent, failed) = h.refuses p s.context w in
          rw (route s.context email, h.available p s.services, sent, failed)
            (refl, omega arith, refl);
    }

    pub track-SendsOnce :
        {e : Exception} (next : Exec (Run W) (Unit {0}))
        → SendsOnce e next
        → SendsOnce e (track services next)
    unfolding track
    track-SendsOnce next once = record {
      at = λ s email.
          let t : Run W = (invoke record_attempt (services.tracker_record_attempt s.context) s).1 in
          let (failed, more, same) = once.at t email in
          let u : Run W = (next t).1 in
          rw
            (
              h.attempts s.context s.services,
              failed,
              h.results u.context (failed_delivery u.context) u.services,
            )
            (refl, more, same);
    }

    pub compile-SendsOnce :
        {e : Exception} (next : Exec (Run W) (Unit {0}))
        → template_failure e ≡ infrastructure template_compile_failed 500
        → SendsOnce e next
        → SendsOnce (infrastructure template_compile_failed 500) (compile services next)
    unfolding compile
    compile-SendsOnce next masked once = record {
      at = λ s email.
          let path = template_path (text "email") (text ".hbs") s.context in
          let (source, read) = h.reads path s.services in
          let (body, compiled) = h.compiles source (data_of s.context.template_data) in
          let opened : Run W = (invoke (read_file path) (services.fs_read_file path) s).1 in
          let t : Run W = with_metadata (λ m. record m { compiled_body = some body }) opened in
          let (failed, more, same) = once.at t email in
          rw (email, not_sms s.context.type email, read, compiled, failed, masked)
            (refl, more, same);
    }

  -- The check of the limit asks the cache, and touches neither the context nor a provider.
  check_rate-keeps :
      (o : Option Recipient) (c : Context) (s : Run W)
      → ((check_rate services o c s).1.context ≡ s.context)
        × (sends (check_rate services o c s).1.calls ≡ sends s.calls)
  unfolding check_rate
  check_rate-keeps none c s = (refl, refl)
  check_rate-keeps (some r) c s = ground arith

  -- The rest of the pipeline runs twice when it throws no `ApplicationException`.
  pub limit_rate-SendsTwice :
      (next : Exec (Run W) (Unit {0})) (e : Exception) (s : Run W)
      → SendsOnce e next
      → is_application e ≡ false
      → is_named s.context.type (text "email") ≡ true
      → (check_rate services s.context.recipient s.context s).0 ≡ ok tt
      → ((limit_rate services next s).0 ≡ err e)
        × (sends (limit_rate services next s).1.calls ≡ sends s.calls + 2)
  limit_rate-SendsTwice next e s once other email passed =
      let s1 : Run W = (check_rate services s.context.recipient s.context s).1 in
      let (same, kept) = check_rate-keeps s.context.recipient s.context s in
      let (failed1, more1, same1) = once.at s1 (rw same email) in
      let s2 : Run W = (next s1).1 in
      let (failed2, more2, same2) = once.at s2 (rw (same1, same) email) in
      let reruns =
        limit_rate_reruns next s s1 s2 e (λ i. (passed i, s1)) (λ i. (failed1 i, s2)) other in
      rw reruns (failed2, omega arith)
