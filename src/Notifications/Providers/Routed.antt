-- ===== src/Notifications/Providers/Routed.antt =====
-- The transport stage (pipeline/stages/transport.stage.ts) over the two email adapters
-- (providers/email), which keep their clients between notifications.
use interiors_api_client.Common.{◌≡◌, ◌⊎◌, inl, inr, refl, Bool, true, false, Option, some, arith}
use interiors_api_client.Common.Text.{Text, text}
use interiors_api_client.Common.Exception.{
  Exception, application, infrastructure, provider_not_found, provider_unavailable, delivery_failed,
}
use interiors_api_client.Common.Exec.{Exec, Result, ok, err, pure, modify, handle_result}
use interiors_api_client.Common.Exec.Throws.{
  Within, Throws, Throws-bind, Throws-pure, Throws-throw, Throws-lift,
}
use interiors_api_client.Notifications.Context.{
  Context, Delivery, Provider, gmail, resend, Services, Run, Call, invoke, is_available, send,
  with_metadata,
}
use interiors_api_client.Notifications.Stages.Transport.{
  get_provider, deliver, transport, refuse_unless, refuse_failed, is_failed, send_by,
}
use interiors_api_client.Notifications.Providers.{Adapter}
use interiors_api_client.Notifications.Providers.Gmail
use interiors_api_client.Notifications.Providers.Gmail.{Nodemailer}
use interiors_api_client.Notifications.Providers.Resend
use interiors_api_client.Notifications.Providers.Resend.{ResendPackage}

-- The clients that the two adapters keep, and the outside.
pub record Adapters (G R W : Type 0) : Type 0 where
  pub gmail_client : Option G
  pub resend_client : Option R
  pub outside : W

abbrev pub by_gmail : {G R W A : Type 0} → Exec (Adapter G W) A → Exec (Adapters G R W) A
by_gmail f s =
    let (r, a) = f (record { client = s.gmail_client; outside = s.outside }) in
    (r, record s { gmail_client = a.client; outside = a.outside })

abbrev pub by_resend : {G R W A : Type 0} → Exec (Adapter R W) A → Exec (Adapters G R W) A
by_resend f s =
    let (r, a) = f (record { client = s.resend_client; outside = s.outside }) in
    (r, record s { resend_client = a.client; outside = a.outside })

module _ {G R W : Type 0} (mailer : Nodemailer G W) (resender : ResendPackage R W)
    (base : Services (Adapters G R W)) where
  abbrev pub ask_available : Provider → Exec (Adapters G R W) Bool
  ask_available gmail = by_gmail (Gmail.is_available base.config_get mailer)
  ask_available resend = by_resend (Resend.is_available base.config_get resender)

  abbrev pub send_through : Provider → Context → Exec (Adapters G R W) Delivery
  send_through gmail c = by_gmail (Gmail.send_notification base.config_get mailer c)
  send_through resend c = by_resend (Resend.send_notification base.config_get resender c)

  -- The services of the pipeline with the two adapters for its providers.
  abbrev pub adapted : Services (Adapters G R W)
  adapted = record base { provider_is_available = ask_available; provider_send = send_through }

  answered-Within :
      {S A : Type 0} (P : Exception → Type 0) (r : Result A) (s : S) (b : A)
      → Within P (handle_result r (λ _. pure b) s).0
  answered-Within P (ok a) s b = tt
  answered-Within P (err e) s b = tt

  -- Neither adapter throws: its `catch` block answers.
  ask_available-Throws : {P : Exception → Type 0} (p : Provider) → Throws P (ask_available p)
  unfolding Gmail.is_available Resend.is_available
  ask_available-Throws gmail = record { at = λ s. answered-Within _ _ _ _ }
  ask_available-Throws resend = record { at = λ s. answered-Within _ _ _ _ }

  send_through-Throws :
      {P : Exception → Type 0} (p : Provider) (c : Context) → Throws P (send_through p c)
  unfolding Gmail.send_notification Resend.send_notification
  send_through-Throws gmail c = record { at = λ s. answered-Within _ _ _ _ }
  send_through-Throws resend c = record { at = λ s. answered-Within _ _ _ _ }

  Throws-invoke :
      {P : Exception → Type 0} {A : Type 0} (c : Call) {f : Exec (Adapters G R W) A}
      → Throws P f
      → Throws P (invoke c f)
  Throws-invoke c hf = record { at = λ s. hf.at s.services }

  Within-weaken :
      {A : Type 0} {P Q : Exception → Type 0} (r : Result A)
      → Within P r
      → ((e : Exception) → P e → Q e)
      → Within Q r
  Within-weaken (ok a) h w = tt
  Within-weaken (err e) h w = w e h

  Throws-modify : {P : Exception → Type 0} {S : Type 0} (f : S → S) → Throws P (modify f)
  Throws-modify f = record { at = λ s. tt }

  send_by-Throws : {P : Exception → Type 0} (p : Provider) → Throws P (send_by adapted p)
  send_by-Throws p = record {
    at = λ s. (Throws-invoke (send p) (send_through-Throws p s.context)).at s;
  }

  -- The exceptions of the transport stage itself.
  abbrev pub IsTransportFailure : Exception → Type 0
  IsTransportFailure e =
      (e ≡ application provider_not_found)
      ⊎ ((e ≡ infrastructure provider_unavailable 500) ⊎ (e ≡ infrastructure delivery_failed 500))

  get_provider-Within :
      (configured : Option Text) (c : Context)
      → Within (λ e. e ≡ application provider_not_found) (get_provider configured c)
  unfolding get_provider
  get_provider-Within configured c = ground arith

  get_provider-IsTransportFailure :
      (P : Exception → Type 0) (configured : Option Text) (c : Context)
      → Within (λ e. IsTransportFailure e ⊎ P e) (get_provider configured c)
  get_provider-IsTransportFailure P configured c =
      Within-weaken {A = Provider} {P = λ e. e ≡ application provider_not_found}
        {Q = λ e. IsTransportFailure e ⊎ P e} (get_provider configured c)
        (get_provider-Within configured c) (λ e h. inl (inl h))

  module _ {P : Exception → Type 0} where
    refuse_unless-Throws :
        (b : Bool) → Throws (λ e. IsTransportFailure e ⊎ P e) (refuse_unless adapted b)
    refuse_unless-Throws true = Throws-pure tt
    refuse_unless-Throws false = Throws-throw (inl (inr (inl refl)))

    refuse_failed-Throws :
        (b : Bool) → Throws (λ e. IsTransportFailure e ⊎ P e) (refuse_failed adapted b)
    refuse_failed-Throws true = Throws-throw (inl (inr (inr refl)))
    refuse_failed-Throws false = Throws-pure tt

    deliver-Throws : (p : Provider) → Throws (λ e. IsTransportFailure e ⊎ P e) (deliver adapted p)
    unfolding deliver
    deliver-Throws p =
        Throws-bind (Throws-invoke (is_available p) (ask_available-Throws p)) (λ ready.
          Throws-bind (refuse_unless-Throws ready) (λ _.
            Throws-bind (send_by-Throws p) (λ (d : Delivery).
              Throws-bind
                (Throws-modify
                  (with_metadata λ m. record m { provider_used = d.provider; result = some d }))
                (λ _. refuse_failed-Throws (is_failed d.status)))))

    weaken-Throws :
        {m : Exec (Run (Adapters G R W)) (Unit {0})}
        → Throws P m
        → Throws (λ e. IsTransportFailure e ⊎ P e) m
    weaken-Throws {m} hm = record { at = λ s. Within-weaken (m s).0 (hm.at s) (λ e. inr) }

    -- With the two email adapters for its providers, the transport stage throws nothing but its three
    -- exceptions and what the later stages throw, whatever the packages and the configuration do: no
    -- failure of a client passes through.
    pub transport-Throws :
        (next : Exec (Run (Adapters G R W)) (Unit {0}))
        → Throws P next
        → Throws (λ e. IsTransportFailure e ⊎ P e) (transport adapted next)
    unfolding transport
    transport-Throws next hn = record {
      at = λ s.
          (Throws-bind
              (Throws-lift (
                get_provider-IsTransportFailure P (base.config_get (text "EMAIL_PROVIDER"))
                  s.context))
              (λ p. Throws-bind (deliver-Throws p) (λ _. weaken-Throws hn))).at
            s;
    }
