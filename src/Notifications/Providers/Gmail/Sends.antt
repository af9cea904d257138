-- ===== src/Notifications/Providers/Gmail/Sends.antt =====
-- When `GmailAdapter` delivers (providers/email/gmail.adapter.ts), against a description of what a
-- delivery needs.
use interiors_api_client.Common.{
  ◌≡◌, ◌↔◌, ◌⊎◌, inl, inr, refl, ap, sym, subst, ◌∙◌, Option, none, some,
}
use interiors_api_client.Common.Text.{Text, text}
use interiors_api_client.Common.Exec.{ok, Result-cases, continue-eq-ok, continue_ok}
use interiors_api_client.Notifications.Context.{Context, Provider}
use interiors_api_client.Notifications.Providers.{Adapter, Mail, filled, delivered_by, failed_by}
use interiors_api_client.Notifications.Providers.Needs.{
  IsFilled, IsAddressed, filled_iff, address_of_iff, try_block_iff, keep_made-result,
  keep_made-outside,
}
use interiors_api_client.Notifications.Providers.Gmail
use interiors_api_client.Notifications.Providers.Gmail.{Nodemailer}

module _ {T W : Type 0} (config : Text → Option Text) (lib : Nodemailer T W) where
  -- The client is there, or is made from both credentials.
  abbrev pub IsConnected : Adapter T W → T → Type 0
  IsConnected s t =
      (s.client ≡ some t)
      ⊎ ((s.client ≡ none)
          × (user : Text) × (pass : Text) × IsFilled (config (text "GMAIL_USER")) user
          × IsFilled (config (text "GMAIL_APP_PASSWORD")) pass
          × (lib.create_transport user pass ≡ ok t))

  connect_iff :
      (o : Option T) (s : Adapter T W) (t : T)
      → s.client ≡ o
      → ((Gmail.client_or_connect config lib o s).0 ≡ ok t) ↔ IsConnected s t
  connect_iff (some t') s t e = (
    λ h. inl (e ∙ ap some (cc h)),
    λ n. elim n [ inl now ↦ cc | inr other ↦ absurd (cc (other.0)) ],
  )
  connect_iff none s t e = (
    λ h.
        let (user, u, h1) = continue-eq-ok _ _ s t h in
        let (pass, p, h2) = continue-eq-ok _ _ s t h1 in
        inr (
          e,
          user,
          pass,
          (filled_iff _ user).0 u,
          (filled_iff _ pass).0 p,
          sym (keep_made-result (lib.create_transport user pass) s) ∙ h2,
        ),
    λ n. elim n [
      | inl now ↦ absurd (cc)
      | inr (free, user, pass, u, p, made) ↦ continue_ok _ _ s user t ((filled_iff _ user).1 u) (
          continue_ok _ _ s pass t ((filled_iff _ pass).1 p)
            (keep_made-result (lib.create_transport user pass) s ∙ made))
    ],
  )

  get_transporter_iff :
      (s : Adapter T W) (t : T) → ((Gmail.get_transporter config lib s).0 ≡ ok t) ↔ IsConnected s t
  unfolding Gmail.get_transporter
  get_transporter_iff s t = connect_iff s.client s t refl

  connect-outside : (s : Adapter T W) → (Gmail.connect config lib s).1.outside ≡ s.outside
  connect-outside s = elim (Result-cases (filled (config (text "GMAIL_USER")))) [
    | inl (user, e) ↦ rw e (elim (Result-cases (filled (config (text "GMAIL_APP_PASSWORD")))) [
      | inl (pass, e') ↦ rw e' (keep_made-outside (lib.create_transport user pass) s)
      | inr (x, e') ↦ rw e' refl
    ])
    | inr (x, e) ↦ rw e refl
  ]

  client_or_connect-outside :
      (o : Option T) (s : Adapter T W)
      → (Gmail.client_or_connect config lib o s).1.outside ≡ s.outside
  client_or_connect-outside (some t) s = refl
  client_or_connect-outside none s = connect-outside s

  get_transporter-outside :
      (s : Adapter T W) → (Gmail.get_transporter config lib s).1.outside ≡ s.outside
  unfolding Gmail.get_transporter
  get_transporter-outside s = client_or_connect-outside s.client s

  -- The mail that is sent.
  abbrev pub mail_to : Context → Text → Text → Mail
  mail_to c = Gmail.mail_of (config (text "GMAIL_USER")) c.subject

  -- What a delivery by Gmail needs of the context, the configuration and the package.
  abbrev pub CanSend : Context → Adapter T W → Type 0
  CanSend c s =
      (to : Text) × (html : Text) × (t : T) × IsAddressed c to
      × IsFilled c.metadata.compiled_body html
      × IsConnected s t
      × ((lib.send_mail t (mail_to c to html) s.outside).0 ≡ ok tt)

  try_send_iff :
      (c : Context) (s : Adapter T W)
      → ((Gmail.try_send config lib c s).0 ≡ ok (delivered_by Provider.gmail)) ↔ CanSend c s
  unfolding Gmail.try_send
  try_send_iff c s = (
    λ h.
        let (to, a, h1) = continue-eq-ok _ _ s _ h in
        let (html, b, h2) = continue-eq-ok _ _ s _ h1 in
        let (t, n, h3) = continue-eq-ok _ _ _ _ h2 in
        let (done, k, h4) = continue-eq-ok _ _ _ _ h3 in
        (
          to,
          html,
          t,
          (address_of_iff c.recipient to).0 a,
          (filled_iff c.metadata.compiled_body html).0 b,
          (get_transporter_iff s t).0 n,
          subst (λ w. (lib.send_mail t (mail_to c to html) w).0 ≡ ok tt) (get_transporter-outside s)
              k,
        ),
    λ (to, html, t, a, b, n, k). continue_ok _ _ s to _ ((address_of_iff c.recipient to).1 a) (
        continue_ok _ _ s html _ ((filled_iff c.metadata.compiled_body html).1 b) (
          continue_ok _ _ _ t _ ((get_transporter_iff s t).1 n) (
            continue_ok _ _ _ tt _
              (subst (λ w. (lib.send_mail t (mail_to c to html) w).0 ≡ ok tt)
                (sym (get_transporter-outside s)) k)
              refl))),
  )

  -- The Gmail adapter answers that the mail is delivered exactly when the recipient has an address,
  -- the template is compiled to a text that is not empty, the client is there or can be made from a
  -- user and a password that are both configured, and the client accepts this mail.
  pub send_notification-delivers_iff :
      (c : Context) (s : Adapter T W)
      → ((Gmail.send_notification config lib c s).0 ≡ ok (delivered_by Provider.gmail))
        ↔ CanSend c s
  unfolding Gmail.send_notification
  send_notification-delivers_iff c s =
      let block =
        try_block_iff (Gmail.try_send config lib c s).0 (Gmail.try_send config lib c s).1
          (delivered_by Provider.gmail) (failed_by Provider.gmail) (λ e. cc) in
      (λ h. (try_send_iff c s).0 (block.0 h), λ d. block.1 ((try_send_iff c s).1 d))
