-- ===== src/Notifications/Reported.antt =====
-- Which exceptions a run of the pipeline reports to the task queue.
use interiors_api_client.Common.{
  ℕ, ◌≡◌, refl, not, ◌⊎◌, inl, inr, Bool, true, false, Option, none, some, Bool-cases,
  if◌then◌else◌, [], ◌∷◌,
}
use interiors_api_client.Common.Exception.{
  Exception, domain, infrastructure, application, duplicate_detected, rate_limited, no_entry,
  invalid_context, template_not_found, template_compile_failed, is_application,
}
use interiors_api_client.Common.Exec.{Result, ok, err, Exec, throw, pure, ◌>>◌}
use interiors_api_client.Common.Exec.Throws.{
  Within, Throws, Throws-try_catch, Throws-finally, Throws-catch, Throws-weaken, Throws-bind,
  Throws-pure, Throws-throw, Throws-lift,
}
use interiors_api_client.Common.Text.{Text}
use interiors_api_client.Common.Json.{Fields}
use interiors_api_client.Notifications.Context.{Context, Recipient, Call, Services, Run, invoke}
use interiors_api_client.Notifications.Stages.Enrich.{enrich}
use interiors_api_client.Notifications.Stages.Deduplicate.{
  deduplicate, deduplicate_for, stringified, data_of, sort_fields, generate_fingerprint, acquire,
  commit, release, refuse_if,
}
use interiors_api_client.Notifications.Stages.RateLimit.{
  limit_rate, check_rate, check_identity, check_limit, refuse_unless,
}
use interiors_api_client.Notifications.Stages.CompileTemplate.{
  compile, compile_body, template_failure,
}
use interiors_api_client.Notifications.Stages.Track.{track}
use interiors_api_client.Notifications.Stages.Transport.{transport}
use interiors_api_client.Notifications.Pipeline.{runner, execute}
use interiors_api_client.Notifications.Validation.{Reachable, IsDeliverable, validate-IsDeliverable}

abbrev pub IsTemplateFailure : Exception → Type 0
IsTemplateFailure e =
    (e ≡ infrastructure template_not_found 500) ⊎ (e ≡ infrastructure template_compile_failed 500)

template_failure-IsTemplateFailure : (e : Exception) → IsTemplateFailure (template_failure e)
template_failure-IsTemplateFailure no_entry = inl refl
template_failure-IsTemplateFailure _ = inr refl

-- What a run may throw: nothing that only the tracker or the transport throws is among it.
abbrev pub IsReported : Exception → Type 0
IsReported e =
    (e ≡ domain invalid_context)
    ⊎ ((e ≡ application duplicate_detected)
        ⊎ ((e ≡ application rate_limited)
            ⊎ ((e ≡ infrastructure invalid_context 500) ⊎ IsTemplateFailure e)))

-- What is relied on of the cache: its client throws none of the program's `ApplicationException`s.
abbrev pub IsForeign : Exception → Type 0
IsForeign e = is_application e ≡ false

pub record IsCache {W : Type 0} (services : Services W) : Type 0 where
  pub exists_foreign : (k : Text) (w : W) → Within IsForeign (services.cache_exists k w).0
  pub set_foreign :
      (k v : Text) (seconds : ℕ) (nx : Bool) (w : W)
      → Within IsForeign (services.cache_set k v seconds nx w).0
  pub window_foreign :
      (k : Text) (n seconds : ℕ) (w : W)
      → Within IsForeign (services.cache_sliding_window k n seconds w).0

Reachable-recipient :
    (t : Option Text) (o : Option Recipient) → Reachable t o → (r : Recipient) × (o ≡ some r)
Reachable-recipient t none h = elim h [ ]
Reachable-recipient t (some r) h = (r, refl)

recipient_part : (c : Context) → IsDeliverable c → Reachable c.type c.recipient
recipient_part c (i, (t, (y, (p, (g, (n, (d, r))))))) = r

-- What the `try` blocks of the checks may throw.
abbrev Caught : Exception → Type 0
Caught e = IsForeign e ⊎ IsReported e

module _ {W : Type 0} (services : Services W) where
  -- Whatever the later stages throw, the template stage throws one of its own two exceptions.
  pub compile-IsTemplateFailure :
      (next : Exec (Run W) (Unit {0})) → Throws IsTemplateFailure (compile services next)
  unfolding compile
  compile-IsTemplateFailure next = record {
    at = λ s.
        (Throws-try_catch (compile_body services s.context >> next) _
            (λ e. Throws-throw (template_failure-IsTemplateFailure e))).at
          s;
  }

  -- A handler that rethrows an `ApplicationException`.
  rethrow-IsReported :
      {A : Type 0} (e : Exception) (m : Exec (Run W) A)
      → Caught e
      → Throws IsReported m
      → Throws IsReported (if is_application e then throw e else m)
  rethrow-IsReported e m (inl foreign) hm = rw foreign hm
  rethrow-IsReported e m (inr reported) hm = elim (Bool-cases (is_application e)) [
    | inl app ↦ rw app (Throws-throw reported)
    | inr other ↦ rw other hm
  ]

  foreign-Caught : {A : Type 0} (r : Result A) → Within IsForeign r → Within Caught r
  foreign-Caught (ok a) h = tt
  foreign-Caught (err e) h = inl h

  invoke-Caught :
      {A : Type 0} (c : Call) (f : Exec W A)
      → ((w : W) → Within IsForeign (f w).0)
      → Throws Caught (invoke c f)
  invoke-Caught c f h = record { at = λ s. foreign-Caught (f s.services).0 (h s.services) }

  refuse_unless-Caught : (b : Bool) → Throws Caught (refuse_unless services b)
  refuse_unless-Caught true = Throws-pure tt
  refuse_unless-Caught false = Throws-throw (inr (inr (inr (inl refl))))

  refuse_if-Caught : (b : Bool) → Throws Caught (refuse_if services b)
  refuse_if-Caught true = Throws-throw (inr (inr (inl refl)))
  refuse_if-Caught false = Throws-pure tt

  module _ (cache : IsCache services) where
    check_identity-Caught :
        (c : Context) (o : Option Text) → Throws Caught (check_identity services c o)
    unfolding check_identity check_limit
    check_identity-Caught c none = Throws-pure tt
    check_identity-Caught c (some identifier) =
        Throws-bind (invoke-Caught _ _ (cache.window_foreign _ _ _)) refuse_unless-Caught

    check_rate-Caught :
        (o : Option Recipient) (c : Context) → Throws Caught (check_rate services o c)
    unfolding check_rate
    check_rate-Caught none c = Throws-throw (inl refl)
    check_rate-Caught (some r) c = check_identity-Caught c _

    limit_rate-IsReported :
        (next : Exec (Run W) (Unit {0}))
        → Throws IsReported next
        → Throws IsReported (limit_rate services next)
    unfolding limit_rate
    limit_rate-IsReported next h = record {
      at = λ s.
          (Throws-catch
              (Throws-bind (check_rate-Caught s.context.recipient s.context)
                (λ _. Throws-weaken (λ e r. inr r) h))
              (λ e caught. rethrow-IsReported e next caught h)).at
            s;
    }

    acquire-IsReported :
        (dedup processing : Text) → Throws IsReported (acquire services dedup processing)
    unfolding acquire
    acquire-IsReported dedup processing =
        Throws-catch
          (Throws-bind (invoke-Caught _ _ (cache.exists_foreign dedup)) (λ delivered.
            Throws-bind (refuse_if-Caught delivered) (λ _.
              Throws-bind (invoke-Caught _ _ (cache.set_foreign processing _ _ _)) (λ acquired.
                Throws-bind (refuse_if-Caught (not acquired)) (λ _. Throws-pure true)))))
          (λ e caught. rethrow-IsReported e (pure false) caught (Throws-pure false))

    commit-IsReported : (dedup : Text) → Throws IsReported (commit services dedup)
    unfolding commit
    commit-IsReported dedup = Throws-try_catch _ (λ _. pure tt) (λ e. Throws-pure tt)

    release-IsReported :
        (acquired : Bool) (processing : Text)
        → Throws IsReported (release services acquired processing)
    unfolding release
    release-IsReported true processing = Throws-try_catch _ (λ _. pure tt) (λ e. Throws-pure tt)
    release-IsReported false processing = Throws-pure tt

    stringified-IsReported :
        (c : Context) (r : Recipient) (fs : Option Fields) → Within IsReported (stringified c r fs)
    stringified-IsReported c r none = inr (inr (inr (inl refl)))
    stringified-IsReported c r (some fs) = tt

    deduplicate_for-IsReported :
        (next : Exec (Run W) (Unit {0})) (c : Context) (r : Recipient)
        → Throws IsReported next
        → Throws IsReported (deduplicate_for services next c (some r))
    unfolding deduplicate_for generate_fingerprint
    deduplicate_for-IsReported next c r h =
        Throws-bind
          (Throws-lift (stringified-IsReported c r (sort_fields 0 (data_of c.template_data))))
          (λ f. Throws-bind (acquire-IsReported _ _) (λ acquired.
            Throws-finally (Throws-bind h (λ _. commit-IsReported _))
              (release-IsReported acquired _)))

    -- A deliverable context has a recipient, so its fields can be read.
    enriched-IsReported :
        (next : Exec (Run W) (Unit {0})) (s : Run W)
        → Throws IsReported next
        → IsDeliverable s.context
        → Within IsReported (enrich services (deduplicate services next) s).0
    unfolding enrich deduplicate
    enriched-IsReported next s h deliverable =
        let (r, e) =
          Reachable-recipient s.context.type s.context.recipient
            (recipient_part s.context deliverable) in
        rw e ((deduplicate_for-IsReported next _ r h).at _)

    -- If the cache throws none of the program's `ApplicationException`s, a run of the pipeline throws
    -- nothing but the refusal of its context, a duplicate, an exceeded rate limit, the refusal of a
    -- payload that is nested too deep, or one of the two template failures: whatever the tracker or
    -- the transport threw, it is none of their exceptions.
    pub execute-IsReported : (s : Run W) → Within IsReported (execute services s).0
    unfolding execute
    execute-IsReported s =
        let later = runner (track services ∷ transport services ∷ []) in
        let compiled = compile services later in
        let limited = limit_rate services compiled in
        let h =
          limit_rate-IsReported compiled
            (Throws-weaken (λ e t. inr (inr (inr (inr t)))) (compile-IsTemplateFailure later)) in
        elim (validate-IsDeliverable (enrich services (deduplicate services limited)) s) [
          | inl (p, e) ↦ rw e (enriched-IsReported limited s h p)
          | inr (np, e) ↦ rw e (inl refl)
        ]
