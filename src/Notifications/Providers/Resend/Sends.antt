-- ===== src/Notifications/Providers/Resend/Sends.antt =====
-- When `ResendAdapter` delivers (providers/email/resend.adapter.ts), against a description of what a
-- delivery needs.
use interiors_api_client.Common.{
  Bool, true, false, ◌≡◌, ◌↔◌, ◌⊎◌, inl, inr, refl, ap, sym, subst, ◌∙◌, Option, none, some,
}
use interiors_api_client.Common.Text.{Text, text}
use interiors_api_client.Common.Exception.{error}
use interiors_api_client.Common.Exec.{
  ok, pure, throw, when, ◌>>◌, Result-cases, continue-eq-ok, continue_ok,
}
use interiors_api_client.Notifications.Context.{Context, Provider}
use interiors_api_client.Notifications.Providers.{Adapter, filled, delivered_by, failed_by}
use interiors_api_client.Notifications.Providers.Needs.{
  IsFilled, IsAddressed, filled_iff, address_of_iff, try_block_iff, keep_made-result,
  keep_made-outside,
}
use interiors_api_client.Notifications.Providers.Resend
use interiors_api_client.Notifications.Providers.Resend.{ResendPackage}

module _ {T W : Type 0} (config : Text → Option Text) (lib : ResendPackage T W) where
  -- The client is there, or is made from the key.
  abbrev pub IsConnected : Adapter T W → T → Type 0
  IsConnected s t =
      (s.client ≡ some t)
      ⊎ ((s.client ≡ none)
          × (key : Text) × IsFilled (config (text "RESEND_API_KEY")) key
          × (lib.create key ≡ ok t))

  connect_iff :
      (o : Option T) (s : Adapter T W) (t : T)
      → s.client ≡ o
      → ((Resend.client_or_connect config lib o s).0 ≡ ok t) ↔ IsConnected s t
  connect_iff (some t') s t e = (
    λ h. inl (e ∙ ap some (cc h)),
    λ n. elim n [ inl now ↦ cc | inr other ↦ absurd (cc (other.0)) ],
  )
  connect_iff none s t e = (
    λ h.
        let (key, k, h1) = continue-eq-ok _ _ s t h in
        inr (e, key, (filled_iff _ key).0 k, sym (keep_made-result (lib.create key) s) ∙ h1),
    λ n. elim n [
      | inl now ↦ absurd (cc)
      | inr (free, key, k, made) ↦
          continue_ok _ _ s key t ((filled_iff _ key).1 k)
            (keep_made-result (lib.create key) s ∙ made)
    ],
  )

  get_client_iff :
      (s : Adapter T W) (t : T) → ((Resend.get_client config lib s).0 ≡ ok t) ↔ IsConnected s t
  unfolding Resend.get_client
  get_client_iff s t = connect_iff s.client s t refl

  connect-outside : (s : Adapter T W) → (Resend.connect config lib s).1.outside ≡ s.outside
  connect-outside s = elim (Result-cases (filled (config (text "RESEND_API_KEY")))) [
    | inl (key, e) ↦ rw e (keep_made-outside (lib.create key) s)
    | inr (x, e) ↦ rw e refl
  ]

  client_or_connect-outside :
      (o : Option T) (s : Adapter T W)
      → (Resend.client_or_connect config lib o s).1.outside ≡ s.outside
  client_or_connect-outside (some t) s = refl
  client_or_connect-outside none s = connect-outside s

  get_client-outside : (s : Adapter T W) → (Resend.get_client config lib s).1.outside ≡ s.outside
  unfolding Resend.get_client
  get_client-outside s = client_or_connect-outside s.client s

  -- What a delivery by Resend needs of the context, the configuration and the package.
  abbrev pub CanSend : Context → Adapter T W → Type 0
  CanSend c s =
      (to : Text) × (html : Text) × (from : Text) × (t : T) × IsAddressed c to
      × IsFilled c.metadata.compiled_body html
      × (config (text "RESEND_FROM_EMAIL") ≡ some from)
      × IsConnected s t
      × ((lib.send t (Resend.mail_of from c.subject to html) c.notification_id c.category
            s.outside).0
          ≡ ok false)

  get_or_throw_iff : (o : Option Text) (v : Text) → (Resend.get_or_throw o ≡ ok v) ↔ (o ≡ some v)
  get_or_throw_iff none v = (λ h. absurd (cc), λ h. absurd (cc))
  get_or_throw_iff (some w) v = (λ h. cc, λ h. cc)

  -- The last step: an answer with an error is thrown.
  accepted :
      (refused : Bool) (w : Adapter T W)
      → ((when refused (throw error) >> pure (delivered_by Provider.resend)) w).0
        ≡ ok (delivered_by Provider.resend)
      → refused ≡ false
  accepted true w h = absurd (cc)
  accepted false w h = refl

  try_send_iff :
      (c : Context) (s : Adapter T W)
      → ((Resend.try_send config lib c s).0 ≡ ok (delivered_by Provider.resend)) ↔ CanSend c s
  unfolding Resend.try_send
  try_send_iff c s = (
    λ h.
        let (to, a, h1) = continue-eq-ok _ _ s _ h in
        let (html, b, h2) = continue-eq-ok _ _ s _ h1 in
        let (from, f, h3) = continue-eq-ok _ _ s _ h2 in
        let (t, n, h4) = continue-eq-ok _ _ _ _ h3 in
        let (refused, k, h5) = continue-eq-ok _ _ _ _ h4 in
        (
          to,
          html,
          from,
          t,
          (address_of_iff c.recipient to).0 a,
          (filled_iff c.metadata.compiled_body html).0 b,
          (get_or_throw_iff _ from).0 f,
          (get_client_iff s t).0 n,
          subst
                (λ w.
                  (lib.send t (Resend.mail_of from c.subject to html) c.notification_id c.category
                    w).0
                  ≡ ok refused)
                (get_client-outside s) k
              ∙ ap ok (accepted refused _ h5),
        ),
    λ (to, html, from, t, a, b, f, n, k).
        continue_ok _ _ s to _ ((address_of_iff c.recipient to).1 a) (
          continue_ok _ _ s html _ ((filled_iff c.metadata.compiled_body html).1 b) (
            continue_ok _ _ s from _ ((get_or_throw_iff _ from).1 f) (
              continue_ok _ _ _ t _ ((get_client_iff s t).1 n) (
                continue_ok _ _ _ false _
                  (subst
                    (λ w.
                      (lib.send t (Resend.mail_of from c.subject to html) c.notification_id
                        c.category w).0
                      ≡ ok false)
                    (sym (get_client-outside s)) k)
                  refl)))),
  )

  -- The Resend adapter answers that the mail is delivered exactly when the recipient has an address,
  -- the template is compiled to a text that is not empty, a sender is configured, the client is
  -- there or can be made from a key that is configured, and the package accepts this mail with its
  -- two tags, without an error in its answer.
  pub send_notification-accepts_iff :
      (c : Context) (s : Adapter T W)
      → ((Resend.send_notification config lib c s).0 ≡ ok (delivered_by Provider.resend))
        ↔ CanSend c s
  unfolding Resend.send_notification
  send_notification-accepts_iff c s =
      let block =
        try_block_iff (Resend.try_send config lib c s).0 (Resend.try_send config lib c s).1
          (delivered_by Provider.resend) (failed_by Provider.resend) (λ e. cc) in
      (λ h. (try_send_iff c s).0 (block.0 h), λ d. block.1 ((try_send_iff c s).1 d))
