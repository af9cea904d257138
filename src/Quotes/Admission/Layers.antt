-- ===== src/Quotes/Admission/Layers.antt =====
-- What the limiter makes of the answers of the four limits.
use interiors_api_client.Common.{
  ◌≡◌, ◌≢◌, ◌↔◌, ◌⊎◌, refl, ap, sym, subst, ◌∙◌, inl, inr, Bool, true, false, List, [], ◌∷◌, ◌++◌,
}
use interiors_api_client.Common.Text.{Text, text}
use interiors_api_client.Common.Exception.{
  ErrorCode, Exception, rate_limit, service_unavailable, rate_limit_ip_exceeded,
  rate_limit_email_exceeded, rate_limit_phone_exceeded, rate_limit_global_exceeded,
}
use interiors_api_client.Common.Exec.{Exec, Result, ok, err, continue, handle_result}
use interiors_api_client.Quotes.Desk.{Layer, ip, email, phone, global, fire, Desk, Services}
use interiors_api_client.Quotes.Limits.{
  code_of, first_rejection, execute_with_circuit_breaker, refuse_unless, check_layer, check_each,
  on_failure, subject_of, check, operation, limit_key, secret, normalize_email, normalize_phone,
}
use interiors_api_client.Quotes.Admission.{
  EveryLayer, first_rejection-ok, first_rejection-all, check-calls, continue-state,
  handle_result-state,
}
use mathlib.Core.List.{Memᴰ}

-- What is thrown for the answer of a layer's limit: too many requests if it says no, the rate limit
-- exception that its breaker threw, and for any other failure of the limiter the exception for an
-- unavailable service.
pub data IsRefused : Layer → Result Bool → Exception → Type 0 where
  over_ip : IsRefused ip (ok false) (rate_limit rate_limit_ip_exceeded)
  over_email : IsRefused email (ok false) (rate_limit rate_limit_email_exceeded)
  over_phone : IsRefused phone (ok false) (rate_limit rate_limit_phone_exceeded)
  over_global : IsRefused global (ok false) (rate_limit rate_limit_global_exceeded)
  passed_on : {l : Layer} (code : ErrorCode) → IsRefused l (err (rate_limit code)) (rate_limit code)
  limiter_down :
      {l : Layer} (e : Exception)
      → ((code : ErrorCode) → e ≢ rate_limit code)
      → IsRefused l (err e) service_unavailable

over_limit : (l : Layer) → IsRefused l (ok false) (rate_limit (code_of l))
over_limit ip = over_ip
over_limit email = over_email
over_limit phone = over_phone
over_limit global = over_global

-- The result of a layer, from the answer of its limit.
abbrev Decides : Layer → Result Bool → Result (Unit {0}) → Type 0
Decides l a r = ((a ≡ ok true) × (r ≡ ok tt)) ⊎ ((e : Exception) × (r ≡ err e) × IsRefused l a e)

refused_ne : {l : Layer} {a : Result Bool} {e : Exception} → IsRefused l a e → a ≢ ok true
refused_ne over_ip h = cc
refused_ne over_email h = cc
refused_ne over_phone h = cc
refused_ne over_global h = cc
refused_ne (passed_on code) h = cc
refused_ne (limiter_down e n) h = cc

decided_ok :
    {l : Layer} {a : Result Bool} {r : Result (Unit {0})} → Decides l a r → r ≡ ok tt → a ≡ ok true
decided_ok (inl (granted, passed)) h = granted
decided_ok (inr (e, thrown, refused)) h = absurd (cc)

decided_yes :
    {l : Layer} {a : Result Bool} {r : Result (Unit {0})} → Decides l a r → a ≡ ok true → r ≡ ok tt
decided_yes (inl (granted, passed)) h = passed
decided_yes (inr (e, thrown, refused)) h = absurd (refused_ne refused h)

among :
    {k : Layer} {ks : List Layer} {P : Layer → Type 0}
    → ((l : Layer) → Memᴰ l ks → P l)
    → P k
    → {l : Layer} → Memᴰ l (k ∷ ks)
    → P l
among {P = P} each here (Memᴰ.head e) = subst P (sym e) here
among each here (Memᴰ.tail m) = each _ m

module _ {W : Type 0} (services : Services W) where
  decide :
      (l : Layer) (a : Result Bool) (s : Desk W)
      → Decides l a
          (continue
            (handle_result a (on_failure services) s).0
            (refuse_unless services (code_of l))
            (handle_result a (on_failure services) s).1).0
  decide l (ok true) s = inl (refl, refl)
  decide l (ok false) s = inr (rate_limit (code_of l), refl, over_limit l)
  decide l (err (rate_limit code)) s = inr (rate_limit code, refl, passed_on code)
  decide l (err e) s = inr (service_unavailable, refl, limiter_down e (λ code h. cc))

  check_layer-Decides :
      (l : Layer) (x : Text) (s : Desk W)
      → Decides l
          (services.breaker_fire l (operation services l (limit_key services l x)) s.outside).0
          (check_layer services l x s).0
  unfolding check_layer execute_with_circuit_breaker
  check_layer-Decides l x s = decide l _ _

  module _ (address number client_ip : Text) where
    -- The limit of each layer: its requests and seconds, and the key that it counts under.
    abbrev pub limit_of : Layer → Exec W Bool
    limit_of ip = services.token_bucket (text "ratelimit:quote:ip:" ++ client_ip) 200 480 400
    limit_of email =
        services.sliding_window
          (text "ratelimit:quote:identity:"
            ++ services.hmac (secret services) (normalize_email address))
          10 600
    limit_of phone =
        services.sliding_window
          (text "ratelimit:quote:phone:"
            ++ services.hmac (secret services) (normalize_phone number))
          3 3600
    limit_of global = services.token_bucket (text "ratelimit:quote:global") 1000 60 2000

    -- The outside after a layer has been asked.
    abbrev after : Layer → W → W
    after l w = (services.breaker_fire l (limit_of l) w).1

    -- The outside when a layer is asked: they are started one after the other.
    abbrev pub turn : Layer → W → W
    turn ip w = w
    turn email w = after ip w
    turn phone w = after email (after ip w)
    turn global w = after phone (after email (after ip w))

    -- What the breaker of a layer answers for its limit.
    abbrev pub answer_of : Layer → W → Result Bool
    answer_of l w = (services.breaker_fire l (limit_of l) (turn l w)).0

    operation-limit_of :
        (l : Layer)
        → operation services l
            (limit_key services l (subject_of services address number client_ip l))
          ≡ limit_of l
    unfolding operation limit_key
    operation-limit_of ip = refl
    operation-limit_of email = refl
    operation-limit_of phone = refl
    operation-limit_of global = refl

    subject : Layer → Text
    subject = subject_of services address number client_ip

    check_layer-after :
        (l : Layer) (s : Desk W)
        → (check_layer services l (subject l) s).1.outside ≡ after l s.outside
    unfolding subject check_layer execute_with_circuit_breaker
    check_layer-after l s =
        let op = operation services l (limit_key services l (subject l)) in
        ap (λ (t : Desk W). t.outside)
          (continue-state services (code_of l) (execute_with_circuit_breaker services l op s).0 _
            ∙ handle_result-state services (services.breaker_fire l op s.outside).0 _)
        ∙ ap (λ (o : Exec W Bool). (services.breaker_fire l o s.outside).1) (operation-limit_of l)

    check_layer-answer :
        (l : Layer) (s : Desk W) (w : W)
        → s.outside ≡ w
        → Decides l
            (services.breaker_fire l (limit_of l) w).0
            (check_layer services l (subject l) s).0
    unfolding subject
    check_layer-answer l s w at =
        subst
          (λ v.
            Decides l (services.breaker_fire l (limit_of l) v).0
              (check_layer services l (subject l) s).0)
          at
          (subst
            (λ (op : Exec W Bool).
              Decides l (services.breaker_fire l op s.outside).0
                (check_layer services l (subject l) s).0)
            (operation-limit_of l) (check_layer-Decides l (subject l) s))

    check_each-Decides :
        (s : Desk W) (l : Layer)
        → Decides l (answer_of l s.outside) ((check_each services subject s).0 l)
    unfolding check_each
    check_each-Decides s ip = check_layer-answer ip s s.outside refl
    check_each-Decides s email = check_layer-answer email _ _ (check_layer-after ip s)
    check_each-Decides s phone =
        check_layer-answer phone _ _
          (check_layer-after email _ ∙ ap (after email) (check_layer-after ip s))
    check_each-Decides s global = check_layer-answer global _ _ (
        check_layer-after phone _
        ∙ ap (after phone) (check_layer-after email _ ∙ ap (after email) (check_layer-after ip s)))

    -- If every layer settles at some time, the check passes exactly when the breaker of each layer
    -- answers yes for its limit, in whichever order they settle, and in any case each of the four
    -- limits is asked once. The limits are those of the client's address, of the keyed hashes of the
    -- normalized email address and phone number, and of all requests together.
    pub check-admits_iff :
        (order : List Layer) (s : Desk W)
        → EveryLayer order
        → (((check services order address number client_ip s).0 ≡ ok tt)
            ↔ ((l : Layer) → answer_of l s.outside ≡ ok true))
          × ((check services order address number client_ip s).1.calls
              ≡ fire global ∷ fire phone ∷ fire email ∷ fire ip ∷ s.calls)
    unfolding check subject
    check-admits_iff order s every = (
      (
        λ h l. decided_ok (check_each-Decides s l) (first_rejection-all _ order l h (every l)),
        λ h. first_rejection-ok _ order (λ l. decided_yes (check_each-Decides s l) (h l)),
      ),
      check-calls services order address number client_ip s,
    )

    rejections :
        (order : List Layer) (s : Desk W)
        → ((first_rejection (check_each services subject s).0 order ≡ ok tt)
            × ((l : Layer) → Memᴰ l order → answer_of l s.outside ≡ ok true))
          ⊎ ((l : Layer) × (e : Exception) × Memᴰ l order
              × (first_rejection (check_each services subject s).0 order ≡ err e)
              × IsRefused l (answer_of l s.outside) e)
    unfolding first_rejection
    rejections [] s = inl (refl, λ l m. elim m [ ])
    rejections (k ∷ ks) s = elim (check_each-Decides s k) [
      | inl (granted, passed) ↦ elim (rejections ks s) [
        | inl (all, each) ↦ inl (rw passed all, λ l m. among each granted m)
        | inr (l, e, m, thrown, refused) ↦ inr (l, e, Memᴰ.tail m, rw passed thrown, refused)
      ]
      | inr (e, thrown, refused) ↦ inr (k, e, Memᴰ.head refl, rw thrown refl, refused)
    ]

    -- The limiter fails closed: either the check passes and the breaker of each layer that settles
    -- answered yes, or it throws what one of these layers is refused with, which is for a no its rate
    -- limit exception, for a rate limit exception of its breaker this one, and for any other failure
    -- of the breaker or the cache the exception for an unavailable service.
    pub check-IsRefused :
        (order : List Layer) (s : Desk W)
        → (((check services order address number client_ip s).0 ≡ ok tt)
            × ((l : Layer) → Memᴰ l order → answer_of l s.outside ≡ ok true))
          ⊎ ((l : Layer) × (e : Exception) × Memᴰ l order
              × ((check services order address number client_ip s).0 ≡ err e)
              × IsRefused l (answer_of l s.outside) e)
    unfolding check subject
    check-IsRefused order s = rejections order s
