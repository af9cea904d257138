-- ===== src/Notifications/Webhook/Gate.antt =====
-- Which requests reach the pipeline.
use interiors_api_client.Common.{
  ◌≡◌, ◌⊎◌, refl, ap, ◌∙◌, Option, none, some, is_some, if◌then◌else◌, Bool, true, false, not, ◌&&◌,
  inl, inr, Bool-cases, Option-cases, arith,
}
use interiors_api_client.Common.Text.{Text, text}
use interiors_api_client.Common.Text.Laws.{text_eq_iff}
use interiors_api_client.Common.Exception.{Exception, unauthorized, error}
use interiors_api_client.Common.Exec.{
  Exec, Result, ok, err, pure, throw, continue, Result-cases, continue-eq-ok,
}
use interiors_api_client.Notifications.Context.{Context, Services, Run}
use interiors_api_client.Notifications.Pipeline.{execute}
use interiors_api_client.Notifications.Dispatch.{get_or_throw}
use interiors_api_client.Notifications.Webhook.{
  Payload, Gateway, expected_audience, bearer_of, is_trusted, is_given, with_trace, check_token,
  verify_cloud_tasks_token, admit, process_notification, run_pipeline,
}

-- The request names a task and carries a token which Google's client verifies for the webhook's own
-- address, with the verified email address of the configured account.
pub record IsTrusted {W : Type 0} (gate : Gateway W) (header task_name : Option Text) (w : W)
    : Type 0 where
  pub named : is_given task_name ≡ true
  pub token : Text
  pub bearer : bearer_of header ≡ ok token
  pub base : Text
  pub addressed : gate.config (text "API_BASE_URL") ≡ some base
  pub email : Text
  pub expected : gate.config (text "GCP_TASKS_INVOKER_SERVICE_ACCOUNT_EMAIL") ≡ some email
  pub payload : Payload
  pub verified : (gate.verify_id_token token (expected_audience base) w).0 ≡ ok (some payload)
  pub same : payload.email ≡ some email
  pub confirmed : payload.email_verified ≡ true

get_or_throw-eq-ok :
    (config : Text → Option Text) (name v : Text)
    → get_or_throw config name ≡ ok v
    → config name ≡ some v
get_or_throw-eq-ok config name v h = elim (Option-cases (config name)) [
  | inl e ↦ absurd (ground (arith, e))
  | inr (u, e) ↦ ground (arith, e)
]

is_trusted-eq :
    (expected : Text) (o : Option Payload)
    → is_trusted expected o ≡ true
    → (p : Payload) × (o ≡ some p) × (p.email ≡ some expected) × (p.email_verified ≡ true)
is_trusted-eq expected none h = cc
is_trusted-eq expected (some p) h = elim (Option-cases p.email) [
  | inl e ↦ absurd (ground (arith, e))
  | inr (m, e) ↦ (p, refl, ground (arith, e, text_eq_iff m expected), ground (arith, e))
]

with_trace-recipient :
    (active : Option Text) (c : Context) → (with_trace active c).recipient ≡ c.recipient
unfolding with_trace
with_trace-recipient active c = elim (Bool-cases (not (is_given c.trace_id) && is_given active)) [
  | inl e ↦ rw e refl
  | inr e ↦ rw e refl
]

-- The guard, by its two tests.
guarded-ok :
    {S : Type 0} (production named : Bool) (m : Exec S (Unit {0})) (s : S)
    → production ≡ true
    → ((if production then (if named then m else throw unauthorized) else pure tt) s).0 ≡ ok tt
    → (named ≡ true) × ((m s).0 ≡ ok tt)
guarded-ok true true m s p h = (refl, h)
guarded-ok true false m s p h = cc
guarded-ok false named m s p h = cc

-- The guard leaves the context and the calls alone.
abbrev Untouched : {W : Type 0} → Run W → Run W → Type 0
Untouched s t = (t.calls ≡ s.calls) × (t.context ≡ s.context)

guarded-Untouched :
    {W : Type 0} (production named : Bool) (m : Exec (Run W) (Unit {0})) (s : Run W)
    → Untouched s (m s).1
    → Untouched s ((if production then (if named then m else throw unauthorized) else pure tt) s).1
guarded-Untouched true true m s u = u
guarded-Untouched true false m s u = (refl, refl)
guarded-Untouched false named m s u = (refl, refl)

continue-Untouched :
    {W A : Type 0} (r : Result A) (f : A → Exec (Run W) (Unit {0})) (s : Run W)
    → ((a : A) → Untouched s (f a s).1)
    → Untouched s (continue r f s).1
continue-Untouched (ok a) f s u = u a
continue-Untouched (err e) f s u = (refl, refl)

module _ {W : Type 0} (services : Services W) (gate : Gateway W) where
  check_token-ok :
      (token audience expected : Text) (s : Run W)
      → (check_token services gate token audience expected s).0 ≡ ok tt
      → (p : Payload) × ((gate.verify_id_token token audience s.services).0 ≡ ok (some p))
        × (p.email ≡ some expected)
        × (p.email_verified ≡ true)
  unfolding check_token
  check_token-ok token audience expected s h =
      elim (Result-cases (gate.verify_id_token token audience s.services).0) [
        | inl (o, e) ↦ elim (Bool-cases (is_trusted expected o)) [
          | inl f ↦
              let (p, there, same, confirmed) = is_trusted-eq expected o f in
              (p, e ∙ ap ok there, same, confirmed)
          | inr f ↦ absurd (ground (arith, e, f))
        ]
        | inr (x, e) ↦ absurd (ground (arith, e))
      ]

  check_token-Untouched :
      (token audience expected : Text) (s : Run W)
      → Untouched s (check_token services gate token audience expected s).1
  unfolding check_token
  check_token-Untouched token audience expected s =
      elim (Result-cases (gate.verify_id_token token audience s.services).0) [
        | inl (o, e) ↦ elim (Bool-cases (is_trusted expected o)) [
          | inl f ↦ rw (e, f) (refl, refl)
          | inr f ↦ rw (e, f) (refl, refl)
        ]
        | inr (x, e) ↦ rw e (refl, refl)
      ]

  admit-IsTrusted :
      (header task_name : Option Text) (s : Run W)
      → gate.is_production ≡ true
      → (admit services gate header task_name s).0 ≡ ok tt
      → IsTrusted gate header task_name s.services
  unfolding admit verify_cloud_tasks_token
  admit-IsTrusted header task_name s p h =
      let (named, h') =
        guarded-ok gate.is_production (is_given task_name)
          (verify_cloud_tasks_token services gate header) s p h in
      let (token, bearer, h2) = continue-eq-ok (bearer_of header) _ s tt h' in
      let (base, addressed, h3) =
        continue-eq-ok (get_or_throw gate.config (text "API_BASE_URL")) _ s tt h2 in
      let (email, expected, h4) =
        continue-eq-ok (get_or_throw gate.config (text "GCP_TASKS_INVOKER_SERVICE_ACCOUNT_EMAIL")) _
          s tt h3 in
      let (payload, verified, same, confirmed) =
        check_token-ok token (expected_audience base) email s h4 in
      record {
        named = named;
        token = token;
        bearer = bearer;
        base = base;
        addressed = get_or_throw-eq-ok gate.config (text "API_BASE_URL") base addressed;
        email = email;
        expected =
            get_or_throw-eq-ok gate.config (text "GCP_TASKS_INVOKER_SERVICE_ACCOUNT_EMAIL") email
              expected;
        payload = payload;
        verified = verified;
        same = same;
        confirmed = confirmed;
      }

  admit-Untouched :
      (header task_name : Option Text) (s : Run W)
      → Untouched s (admit services gate header task_name s).1
  unfolding admit verify_cloud_tasks_token
  admit-Untouched header task_name s =
      guarded-Untouched gate.is_production (is_given task_name)
        (verify_cloud_tasks_token services gate header) s
        (continue-Untouched (bearer_of header) _ s (λ token.
          continue-Untouched (get_or_throw gate.config (text "API_BASE_URL")) _ s (λ base.
            continue-Untouched
              (get_or_throw gate.config (text "GCP_TASKS_INVOKER_SERVICE_ACCOUNT_EMAIL")) _ s
              (λ email. check_token-Untouched token (expected_audience base) email s))))

  -- The run that the pipeline starts from: the request's, with the active trace where the context has
  -- none, after the guard's call.
  abbrev pub traced : Option Text → Option Text → Run W → Run W
  traced header task_name s =
      let t = (admit services gate header task_name s).1 in
      record t { context = with_trace gate.active_trace s.context }

  -- In production, a request is processed by the pipeline only if it is trusted, and then the result
  -- is the pipeline's, on the context of the request, completed with the active trace where it has
  -- none, or an exception before the pipeline if the context has no recipient; every other request
  -- ends with an exception, and neither a service of the pipeline is
  -- called nor the context changed.
  pub process_notification-Gated :
      (header task_name : Option Text) (s : Run W)
      → gate.is_production ≡ true
      → (IsTrusted gate header task_name s.services
          × (process_notification services gate header task_name s
              ≡ (if is_some s.context.recipient then execute services else throw error)
                  (traced header task_name s)))
        ⊎ ((e : Exception) × ((process_notification services gate header task_name s).0 ≡ err e)
            × ((process_notification services gate header task_name s).1.calls ≡ s.calls)
            × ((process_notification services gate header task_name s).1.context ≡ s.context))
  unfolding process_notification run_pipeline
  process_notification-Gated header task_name s p =
      let (calls, context) = admit-Untouched header task_name s in
      elim (Result-cases (admit services gate header task_name s).0) [
        | inl (u, e) ↦ inl (
          admit-IsTrusted header task_name s p e,
          rw (e, context, with_trace-recipient gate.active_trace s.context) refl,
        )
        | inr (x, e) ↦ inr (x, rw e refl, rw e calls, rw e context)
      ]
