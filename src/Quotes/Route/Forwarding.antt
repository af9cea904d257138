-- ===== src/Quotes/Route/Forwarding.antt =====
-- Which requests of the quote route reach the service, and what the others get.
use interiors_api_client.Common.{
  ◌≡◌, ◌⊎◌, inl, inr, refl, true, Option, none, some, List, Bool-cases, Option-cases, arith,
}
use interiors_api_client.Common.Text.{Text, text}
use interiors_api_client.Common.Text.Laws.{text_eq_iff}
use interiors_api_client.Common.Json.{Json, str, obj, Fields}
use interiors_api_client.Common.Exception.{Exception, bad_request}
use interiors_api_client.Common.Exception.Filter.{reply_of}
use interiors_api_client.Common.Exec.{ok, err, Result-cases}
use interiors_api_client.Quotes.Request.{CalculatorType}
use interiors_api_client.Quotes.Desk.{Layer, Desk, Services}
use interiors_api_client.Quotes.Service.{create_quote_request}
use interiors_api_client.Quotes.Route.{
  Valid, Validators, field_of, calculator_named, found_valid, transform, HttpRequest, failed,
  client_ip, key_of, respond, answer,
}

-- The values of the enumeration
abbrev pub calculator_name : CalculatorType → Text
calculator_name CalculatorType.full_home = text "full_home"
calculator_name CalculatorType.kitchen = text "kitchen"
calculator_name CalculatorType.wardrobe = text "wardrobe"

-- The body is an object that names a calculator and is valid for it.
pub record IsValidBody (v : Validators) (body : Json) (d : Valid) : Type 0 where
  pub fields : Fields
  pub calculator : CalculatorType
  pub is_object : body ≡ obj fields
  pub names : field_of (text "calculatorType") fields ≡ some (str (calculator_name calculator))
  pub validates : v.validate calculator fields ≡ some d

calculator_named-eq-some :
    (o : Option Json) (t : CalculatorType)
    → calculator_named o ≡ some t
    → o ≡ some (str (calculator_name t))
calculator_named-eq-some (some (str n)) CalculatorType.full_home h =
    ground (arith, text_eq_iff n (text "full_home"))
calculator_named-eq-some (some (str n)) CalculatorType.kitchen h =
    ground (arith, text_eq_iff n (text "kitchen"))
calculator_named-eq-some (some (str n)) CalculatorType.wardrobe h =
    ground (arith, text_eq_iff n (text "wardrobe"))
calculator_named-eq-some _ t h = absurd (cc)

found_valid-eq-ok :
    (v : Validators) (o : Option Valid) (d : Valid) → found_valid v o ≡ ok d → o ≡ some d
found_valid-eq-ok v none d h = absurd (cc)
found_valid-eq-ok v (some d') d h = cc

transform-valid :
    (v : Validators) (body : Json) (d : Valid) → transform v body ≡ ok d → IsValidBody v body d
unfolding transform
transform-valid v (obj fs) d h =
    elim (Option-cases (calculator_named (field_of (text "calculatorType") fs))) [
      | inl e ↦ absurd (let k = rw e at h in cc)
      | inr (t, e) ↦
          let k = rw e at h in
          record {
            fields = fs;
            calculator = t;
            is_object = refl;
            names = calculator_named-eq-some _ t e;
            validates = found_valid-eq-ok v (v.validate t fs) d k;
          }
    ]
transform-valid v _ d h = absurd (cc)

-- Whatever the pipe refuses is a bad request.
transform-err :
    (v : Validators) (body : Json) (e : Exception) → transform v body ≡ err e → e ≡ bad_request
unfolding transform
transform-err v (obj fs) e h = ground arith
transform-err v _ e h = cc

module _ {W : Type 0} (v : Validators) (services : Services W) (order : List Layer) where
  -- The request reaches the service.
  pub record IsForwarded (q : HttpRequest) (s : Desk W) : Type 0 where
    pub valid : Valid
    pub body : IsValidBody v q.body valid
    pub key : v.is_uuid q.idempotency_key ≡ true
    pub answers : answer v services order q s ≡ (
      respond v services order q
          (create_quote_request services order valid.request valid.payload
            (client_ip q)
            (key_of q.idempotency_key)
            s).0,
      (create_quote_request services order valid.request valid.payload
          (client_ip q)
          (key_of q.idempotency_key)
          s).1,
    )

  -- Every request of the route either has a valid body for the calculator that it names and a UUID
  -- for its key, and is answered with what the service returns or, by the filter, throws for it; or
  -- it is answered as a bad request, and nothing is called.
  pub answer-forwards :
      (q : HttpRequest) (s : Desk W)
      → IsForwarded q s ⊎ (answer v services order q s ≡ (failed (reply_of bad_request q.about), s))
  unfolding answer
  answer-forwards q s = elim (Result-cases (transform v q.body)) [
    | inr (e, refused) ↦ inr (rw (refused, transform-err v q.body e refused) refl)
    | inl (d, passed) ↦ elim (Bool-cases (v.is_uuid q.idempotency_key)) [
      | inl key ↦ inl (record {
        valid = d;
        body = transform-valid v q.body d passed;
        key = key;
        answers = rw (passed, key) refl;
      })
      | inr no_key ↦ inr (rw (passed, no_key) refl)
    ]
  ]
