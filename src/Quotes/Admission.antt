-- ===== src/Quotes/Admission.antt =====
-- What the four rate limits of a quote request decide together.
pub mod Layers
use interiors_api_client.Common.{
  ◌≡◌, refl, ap, ◌∙◌, ◌↔◌, ◌⊎◌, inl, inr, Bool, true, false, List, [], ◌∷◌, Bool-cases,
}
use interiors_api_client.Common.Text.{Text}
use interiors_api_client.Common.Exception.{ErrorCode, Exception, rate_limit, service_unavailable}
use interiors_api_client.Common.Exec.{Result, ok, err, handle_result, continue}
use interiors_api_client.Common.Exec.Throws.{
  Within, Throws, Throws-try_catch, Throws-bind, Throws-pure, Throws-throw,
}
use interiors_api_client.Quotes.Desk.{Layer, ip, email, phone, global, fire, Desk, Services}
use interiors_api_client.Quotes.Limits.{
  code_of, or_next, first_rejection, passes_through, execute_with_circuit_breaker, on_failure,
  refuse_unless, check_layer, check_each, subject_of, check, operation, limit_key,
}
use mathlib.Core.List.{Memᴰ}

-- Too many requests, or a limiter that does not answer.
abbrev pub IsRefusal : Exception → Type 0
IsRefusal e = (e ≡ service_unavailable) ⊎ ((code : ErrorCode) × (e ≡ rate_limit code))

abbrev pub EveryLayer : List Layer → Type 0
EveryLayer order = (l : Layer) → Memᴰ l order

or_next-Within :
    (P : Exception → Type 0) (a b : Result (Unit {0}))
    → Within P a
    → Within P b
    → Within P (or_next a b)
or_next-Within P (ok u) b ha hb = hb
or_next-Within P (err e) b ha hb = ha

or_next-ok : (a b : Result (Unit {0})) → or_next a b ≡ ok tt → (a ≡ ok tt) × (b ≡ ok tt)
or_next-ok (ok u) b h = (refl, h)
or_next-ok (err e) b h = cc

first_rejection-Within :
    (P : Exception → Type 0) (results : Layer → Result (Unit {0})) (order : List Layer)
    → ((l : Layer) → Within P (results l))
    → Within P (first_rejection results order)
unfolding first_rejection
first_rejection-Within P results [] h = tt
first_rejection-Within P results (l ∷ ls) h =
    or_next-Within P (results l) _ (h l) (first_rejection-Within P results ls h)

pub first_rejection-ok :
    (results : Layer → Result (Unit {0})) (order : List Layer)
    → ((l : Layer) → results l ≡ ok tt)
    → first_rejection results order ≡ ok tt
unfolding first_rejection
first_rejection-ok results [] h = refl
first_rejection-ok results (l ∷ ls) h = rw (h l) (first_rejection-ok results ls h)

pub first_rejection-all :
    (results : Layer → Result (Unit {0})) (order : List Layer) (l : Layer)
    → first_rejection results order ≡ ok tt
    → Memᴰ l order
    → results l ≡ ok tt
unfolding first_rejection
first_rejection-all results [] l h m = elim m [ ]
first_rejection-all results (k ∷ ks) l h (Memᴰ.head e) = rw e (or_next-ok (results k) _ h).0
first_rejection-all results (k ∷ ks) l h (Memᴰ.tail m) =
    first_rejection-all results ks l (or_next-ok (results k) _ h).1 m

module _ {W : Type 0} (services : Services W) where
  on_failure-IsRefusal : (e : Exception) → Throws IsRefusal (on_failure services e)
  on_failure-IsRefusal (rate_limit code) = Throws-throw (inr (code, refl))
  on_failure-IsRefusal service_unavailable = Throws-throw (inl refl)
  on_failure-IsRefusal _ = Throws-throw (inl refl)

  refuse_unless-IsRefusal :
      (code : ErrorCode) (b : Bool) → Throws IsRefusal (refuse_unless services code b)
  refuse_unless-IsRefusal code true = Throws-pure tt
  refuse_unless-IsRefusal code false = Throws-throw (inr (code, refl))

  check_layer-IsRefusal : (l : Layer) (x : Text) → Throws IsRefusal (check_layer services l x)
  unfolding check_layer execute_with_circuit_breaker
  check_layer-IsRefusal l x =
      Throws-bind (Throws-try_catch _ _ on_failure-IsRefusal) (refuse_unless-IsRefusal (code_of l))

  pub handle_result-state :
      (r : Result Bool) (s : Desk W) → (handle_result r (on_failure services) s).1 ≡ s
  handle_result-state (ok b) s = refl
  handle_result-state (err e) s = elim (Bool-cases (passes_through e)) [
    | inl p ↦ rw p refl
    | inr p ↦ rw p refl
  ]

  pub continue-state :
      (code : ErrorCode) (r : Result Bool) (s : Desk W)
      → (continue r (refuse_unless services code) s).1 ≡ s
  continue-state code (ok true) s = refl
  continue-state code (ok false) s = refl
  continue-state code (err e) s = refl

  check_layer-calls :
      (l : Layer) (x : Text) (s : Desk W) → (check_layer services l x s).1.calls ≡ fire l ∷ s.calls
  unfolding check_layer execute_with_circuit_breaker
  check_layer-calls l x s =
      ap (λ (t : Desk W). t.calls)
        (continue-state (code_of l)
            (execute_with_circuit_breaker services l (operation services l (limit_key services l x))
              s).0
            _
          ∙ handle_result-state (services.breaker_fire l _ s.outside).0 _)

  check_each-calls :
      (subject : Layer → Text) (s : Desk W)
      → (check_each services subject s).1.calls
        ≡ fire global ∷ fire phone ∷ fire email ∷ fire ip ∷ s.calls
  unfolding check_each
  check_each-calls subject s =
      let s1 = (check_layer services ip (subject ip) s).1 in
      let s2 = (check_layer services email (subject email) s1).1 in
      let s3 = (check_layer services phone (subject phone) s2).1 in
      check_layer-calls global (subject global) s3
      ∙ ap (λ cs. fire global ∷ cs)
          (check_layer-calls phone (subject phone) s2
            ∙ ap (λ cs. fire phone ∷ cs)
                (check_layer-calls email (subject email) s1
                  ∙ ap (λ cs. fire email ∷ cs) (check_layer-calls ip (subject ip) s)))

  check_each-Within :
      (subject : Layer → Text) (s : Desk W) (l : Layer)
      → Within IsRefusal ((check_each services subject s).0 l)
  unfolding check_each
  check_each-Within subject s ip = (check_layer-IsRefusal ip (subject ip)).at _
  check_each-Within subject s email = (check_layer-IsRefusal email (subject email)).at _
  check_each-Within subject s phone = (check_layer-IsRefusal phone (subject phone)).at _
  check_each-Within subject s global = (check_layer-IsRefusal global (subject global)).at _

  -- Whatever the breaker, the cache and the order in which the checks settle do, the check of a
  -- request either lets it pass or throws one of the rate limit exceptions or the one for an
  -- unavailable service.
  pub check-IsRefusal :
      (order : List Layer) (address number client_ip : Text) (s : Desk W)
      → Within IsRefusal (check services order address number client_ip s).0
  unfolding check
  check-IsRefusal order address number client_ip s =
      first_rejection-Within IsRefusal _ order
        (check_each-Within (subject_of services address number client_ip) s)

  -- Each of the four limits is asked, whatever the others answer.
  pub check-calls :
      (order : List Layer) (address number client_ip : Text) (s : Desk W)
      → (check services order address number client_ip s).1.calls
        ≡ fire global ∷ fire phone ∷ fire email ∷ fire ip ∷ s.calls
  unfolding check
  check-calls order address number client_ip s =
      check_each-calls (subject_of services address number client_ip) s
