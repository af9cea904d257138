-- ===== src/Quotes/Submission.antt =====
-- What stands before the first change: the ways through `createQuoteRequest` up to the lock.
use interiors_api_client.Common.{
  ◌≡◌, ◌≢◌, refl, ap, subst, sym, ◌∙◌, ◌⊎◌, inl, inr, Bool, true, false, Option, none, some, List,
  [], ◌∷◌, ◌++◌, All, Bool-cases, is_empty,
}
use interiors_api_client.Common.Text.{Text, text}
use interiors_api_client.Common.Json.{Json}
use interiors_api_client.Common.Exception.{Exception}
use interiors_api_client.Common.Exec.{Result, ok, err, Exec, Result-cases}
use interiors_api_client.Quotes.Request.{Request}
use interiors_api_client.Quotes.Desk.{
  Layer, Call, fire, verify_token, records_find_one, Response, Desk, Services, invoke,
}
use interiors_api_client.Quotes.Limits.{check}
use interiors_api_client.Quotes.Idempotency.{get_saved_result, identity}
use interiors_api_client.Quotes.Replay.{get_saved_result-calls}
use interiors_api_client.Quotes.Admission.{check-calls}
use interiors_api_client.Quotes.Service.{
  context_of, submit_once, create_quote_request, key_required,
}

-- The calls that look and change no quote, customer, record or lock.
abbrev pub is_check : Call → Bool
is_check (fire l) = true
is_check (verify_token t) = true
is_check (records_find_one i) = true
is_check _ = false

abbrev pub OnlyChecks : List Call → List Call → Type 0
OnlyChecks before after =
    (made : List Call) × (after ≡ made ++ before) × All (λ c. is_check c ≡ true) made

module _ {W : Type 0} (services : Services W) where
  module _ (order : List Layer) (q : Request) (payload : Json) (client_ip key : Text) where
    abbrev pub verify : Exec (Desk W) (Unit {0})
    verify =
        invoke (verify_token q.recaptcha_token)
          (services.recaptcha_verify q.recaptcha_token (text "quote_submit"))

    -- The key is given, the limits and reCAPTCHA let the request pass, and the lookup of the key
    -- gave `previous`, in this order.
    abbrev pub Passes : Option Response → (s s3 : Desk W) → Type 0
    Passes previous s s3 =
        (key ≢ [])
        × ((s1 : Desk W) × (s2 : Desk W) × (check services order q.email q.phone client_ip s
              ≡ (ok tt, s1))
            × (verify s1 ≡ (ok tt, s2))
            × (get_saved_result services (context_of services q payload key) s2
                ≡ (ok previous, s3)))

    abbrev pub create : Exec (Desk W) Response
    create = create_quote_request services order q payload client_ip key

    refused_with :
        (e : Exception) (s s' : Desk W)
        → create s ≡ (err e, s')
        → OnlyChecks s.calls s'.calls
        → OnlyChecks s.calls (create s).1.calls
          × (((r : Response) × (s3 : Desk W) × Passes (some r) s s3 × (create s ≡ (ok r, s3)))
              ⊎ ((x : Exception) × ((create s).0 ≡ err x)))
    refused_with e s s' h only = (
      subst (λ (p : Result Response × Desk W). OnlyChecks s.calls p.1.calls) (sym h) only,
      inr (e, ap (λ (p : Result Response × Desk W). p.0) h),
    )

    module _ (s : Desk W) where
      s1 : Desk W
      s1 = (check services order q.email q.phone client_ip s).1

      s2 : Desk W
      unfolding s1
      s2 = (verify s1).1

      s3 : Desk W
      unfolding s2
      s3 = (get_saved_result services (context_of services q payload key) s2).1

      s1-OnlyChecks : OnlyChecks s.calls s1.calls
      unfolding s1
      s1-OnlyChecks = (
        fire Layer.global ∷ fire Layer.phone ∷ fire Layer.email ∷ fire Layer.ip ∷ [],
        check-calls services order q.email q.phone client_ip s,
        (refl, (refl, (refl, (refl, tt)))),
      )

      s2-OnlyChecks : OnlyChecks s.calls s2.calls
      unfolding s2
      s2-OnlyChecks =
          let (made, e, all) = s1-OnlyChecks in
          (
            verify_token q.recaptcha_token ∷ made,
            ap (λ cs. verify_token q.recaptcha_token ∷ cs) e,
            (refl, all),
          )

      s3-OnlyChecks : OnlyChecks s.calls s3.calls
      unfolding s3
      s3-OnlyChecks =
          let (made, e, all) = s2-OnlyChecks in
          let i = identity services (context_of services q payload key) in
          (
            records_find_one i ∷ made,
            get_saved_result-calls services (context_of services q payload key) s2
                ∙ ap (λ cs. records_find_one i ∷ cs) e,
            (refl, all),
          )

      create-unkeyed : is_empty key ≡ true → create s ≡ (err key_required, s)
      unfolding create_quote_request
      create-unkeyed blank = rw blank refl

      create-refused :
          (e : Exception)
          → is_empty key ≡ false
          → (check services order q.email q.phone client_ip s).0 ≡ err e
          → create s ≡ (err e, s1)
      unfolding create_quote_request s1
      create-refused e given h = rw (given, h) refl

      create-unverified :
          (e : Exception)
          → is_empty key ≡ false
          → (check services order q.email q.phone client_ip s).0 ≡ ok tt
          → (verify s1).0 ≡ err e
          → create s ≡ (err e, s2)
      unfolding create_quote_request s2
      create-unverified e given h v = rw (given, h, v) refl

      module _ (given : is_empty key ≡ false)
          (h : (check services order q.email q.phone client_ip s).0 ≡ ok tt)
          (v : (verify s1).0 ≡ ok tt) where
        Passes-when :
            (previous : Option Response)
            → (get_saved_result services (context_of services q payload key) s2).0 ≡ ok previous
            → Passes previous s s3
        unfolding s3
        Passes-when previous g = (
          (λ e. cc (given, ap is_empty e)),
          (s1, s2, ap (λ r. (r, s1)) h, ap (λ r. (r, s2)) v, ap (λ r. (r, s3)) g),
        )

        create-lookup_failed :
            (e : Exception)
            → (get_saved_result services (context_of services q payload key) s2).0 ≡ err e
            → create s ≡ (err e, s3)
        unfolding create_quote_request s3
        create-lookup_failed e g = rw (given, h, v, g) refl

        create-replayed :
            (r : Response)
            → (get_saved_result services (context_of services q payload key) s2).0 ≡ ok (some r)
            → create s ≡ (ok r, s3)
        unfolding create_quote_request s3
        create-replayed r g = rw (given, h, v, g) refl

        create-submitted :
            (get_saved_result services (context_of services q payload key) s2).0 ≡ ok none
            → create s ≡ submit_once services q (context_of services q payload key) s3
        unfolding create_quote_request s3
        create-submitted g = rw (given, h, v, g) refl

    -- The ways through the guards.
    abbrev pub Gated : Desk W → Type 0
    Gated s =
        ((s3 : Desk W) × Passes none s s3
          × (create s ≡ submit_once services q (context_of services q payload key) s3))
        ⊎ (OnlyChecks s.calls (create s).1.calls
            × (((r : Response) × (s3 : Desk W) × Passes (some r) s s3 × (create s ≡ (ok r, s3)))
                ⊎ ((e : Exception) × ((create s).0 ≡ err e))))

    looked_up :
        (s : Desk W)
        → is_empty key ≡ false
        → (check services order q.email q.phone client_ip s).0 ≡ ok tt
        → (verify (s1 s)).0 ≡ ok tt
        → Gated s
    looked_up s given h v =
        elim (Result-cases
          (get_saved_result services (context_of services q payload key) (s2 s)).0) [
            | inr (e, g) ↦
                inr (refused_with e s _ (create-lookup_failed s given h v e g) (s3-OnlyChecks s))
            | inl (none, g) ↦
                inl (s3 s, Passes-when s given h v none g, create-submitted s given h v g)
            | inl (some r, g) ↦
                let h' = create-replayed s given h v r g in
                inr (
                  subst (λ (p : Result Response × Desk W). OnlyChecks s.calls p.1.calls) (sym h')
                      (s3-OnlyChecks s),
                  inl (r, s3 s, Passes-when s given h v (some r) g, h'),
                )
          ]

    -- A submission is gated: either the key is given, the rate limits and reCAPTCHA admit the
    -- request, no result is saved under the key, and the call goes on to the lock from where that
    -- lookup ended; or a result is saved after the same checks, and is returned with nothing else
    -- done; or an exception is thrown. In the last two cases nothing was called but the rate
    -- limits, reCAPTCHA and the lookup: no lock, quote, customer or record was written and nobody
    -- was notified.
    pub create_quote_request-Gated : (s : Desk W) → Gated s
    unfolding create_quote_request
    create_quote_request-Gated s = elim (Bool-cases (is_empty key)) [
      | inl blank ↦ inr (refused_with _ s s (create-unkeyed s blank) ([], refl, tt))
      | inr given ↦ elim (Result-cases (check services order q.email q.phone client_ip s).0) [
        | inr (e, h) ↦ inr (refused_with e s _ (create-refused s e given h) (s1-OnlyChecks s))
        | inl (u, h) ↦ elim (Result-cases (verify (s1 s)).0) [
          | inr (e, v) ↦
              inr (refused_with e s _ (create-unverified s e given h v) (s2-OnlyChecks s))
          | inl (u', v) ↦ looked_up s given h v
        ]
      ]
    ]
