-- ===== src/Notifications/Delivery.antt =====
-- A whole run of the pipeline for an email that passes every check and that the provider refuses.
use interiors_api_client.Common.{
  ℕ, ◌+◌, ◌≡◌, refl, ap, inl, inr, true, false, Option, none, some, ◌∙◌, arith, Option-cases,
}
use interiors_api_client.Common.Exception.{infrastructure, template_compile_failed}
use interiors_api_client.Common.Exec.{ok, err, Exec, pure}
use interiors_api_client.Common.Text.{Text, text}
use interiors_api_client.Notifications.Context.{Context, Recipient, Services, Run}
use interiors_api_client.Notifications.Stages.Enrich.{enrich, enriched}
use interiors_api_client.Notifications.Stages.Deduplicate.{
  deduplicate, deduplicate_for, generate_fingerprint, acquire, protected, processing_lock_seconds,
  dedup_key, processing_key,
}
use interiors_api_client.Notifications.Stages.RateLimit.{
  limit_rate, check_rate, is_named, or_else, identifier_of, limit_key, limit_of,
}
use interiors_api_client.Notifications.Stages.CompileTemplate.{compile}
use interiors_api_client.Notifications.Stages.Track.{track}
use interiors_api_client.Notifications.Stages.Transport.{transport}
use interiors_api_client.Notifications.Pipeline.{execute}
use interiors_api_client.Notifications.Validation.{IsDeliverable, validate-IsDeliverable}
use interiors_api_client.Notifications.Deduplication.{protected_lem}
use interiors_api_client.Notifications.Retry.{
  sends, RefusesDelivery, SendsOnce, transport-SendsOnce, track-SendsOnce, compile-SendsOnce,
  limit_rate-SendsTwice,
}

-- The cache answers, has no record of the notification, and counts it as allowed.
pub record PassesChecks {W : Type 0} (services : Services W) : Type 0 where
  pub unseen : (key : Text) (w : W) → (services.cache_exists key w).0 ≡ ok false
  pub locks :
      (key value : Text) (ttl : ℕ) (w : W) → (services.cache_set key value ttl true w).0 ≡ ok true
  pub allows :
      (key : Text) (n m : ℕ) (w : W) → (services.cache_sliding_window key n m w).0 ≡ ok true

module _ {W : Type 0} (services : Services W) (g : PassesChecks services) where
  check_rate_passes :
      (r : Recipient) (c : Context) (s : Run W) → (check_rate services (some r) c s).0 ≡ ok tt
  unfolding check_rate
  check_rate_passes r c s = elim (Option-cases (or_else (identifier_of r) none)) [
    | inl e ↦ rw e refl
    | inr (i, e) ↦ rw (e, g.allows (limit_key c i) (limit_of c).0 (limit_of c).1 s.services) refl
  ]

  acquire_passes :
      (dedup processing : Text) (s : Run W)
      → let t = (acquire services dedup processing s).1 in
        ((acquire services dedup processing s).0 ≡ ok true)
        × (t.context ≡ s.context)
        × (sends t.calls ≡ sends s.calls)
  unfolding acquire
  acquire_passes dedup processing s =
      let w = (services.cache_exists dedup s.services).1 in
      rw
        (
          g.unseen dedup s.services,
          g.locks processing (text "processing") processing_lock_seconds w,
        )
        (refl, refl, refl)

  module _ (h : RefusesDelivery services) where
    deduplicate_unfolds :
        (next : Exec (Run W) (Unit {0})) (s : Run W) (r : Recipient) (f : Text)
        → s.context.recipient ≡ some r
        → generate_fingerprint s.context r ≡ ok f
        → deduplicate services next s
          ≡ protected services next (dedup_key services r f) (processing_key services r f) s
    unfolding deduplicate deduplicate_for
    deduplicate_unfolds next s r f known printed =
        ap (λ (o : Option Recipient). deduplicate_for services next s.context o s) known
        ∙ rw printed refl

    -- The stages behind the limit.
    abbrev later : Exec (Run W) (Unit {0})
    later = compile services (track services (transport services (pure tt)))

    later-SendsOnce : SendsOnce services (infrastructure template_compile_failed 500) later
    later-SendsOnce =
        compile-SendsOnce services h _ refl
          (track-SendsOnce services h _ (transport-SendsOnce services h))

    deduplicate-SendsTwice :
        (s : Run W) (r : Recipient) (f : Text)
        → s.context.recipient ≡ some r
        → generate_fingerprint s.context r ≡ ok f
        → is_named s.context.type (text "email") ≡ true
        → let m = deduplicate services (limit_rate services later) in
          ((m s).0 ≡ err (infrastructure template_compile_failed 500))
          × (sends (m s).1.calls ≡ sends s.calls + 2)
    deduplicate-SendsTwice s r f known printed email =
        let dedup = dedup_key services r f in
        let processing = processing_key services r f in
        let next = limit_rate services later in
        let (acquired, same, kept) = acquire_passes dedup processing s in
        let t : Run W = (acquire services dedup processing s).1 in
        let passed = check_rate_passes r t.context t in
        let same_recipient : t.context.recipient ≡ some r =
          ap (λ (c : Context). c.recipient) same ∙ known in
        let (failed, more) =
          limit_rate-SendsTwice services later _ t later-SendsOnce refl (rw same email)
            (rw same_recipient passed) in
        let u : Run W = (next t).1 in
        let (result, calls) =
          protected_lem services dedup processing next s t u true
            (err (infrastructure template_compile_failed 500)) (λ i. (acquired i, t))
            (λ i. (failed i, u)) in
        rw (deduplicate_unfolds next s r f known printed) (result, ap sends calls ∙ omega arith)

    -- If the cache has not seen the notification, grants its lock and counts it as allowed, the
    -- template file is read and compiled, the tracker answers and an available provider answers
    -- that the delivery failed, then for a deliverable email a run of the pipeline asks a provider
    -- to send twice, and throws the failure to compile the template.
    pub execute-SendsTwice :
        (s : Run W) (r : Recipient) (f : Text)
        → IsDeliverable s.context
        → s.context.recipient ≡ some r
        → generate_fingerprint (enriched services s.services s.context) r ≡ ok f
        → is_named s.context.type (text "email") ≡ true
        → ((execute services s).0 ≡ err (infrastructure template_compile_failed 500))
          × (sends (execute services s).1.calls ≡ sends s.calls + 2)
    unfolding execute enrich enriched
    execute-SendsTwice s r f valid known printed email =
        let next = enrich services (deduplicate services (limit_rate services later)) in
        elim (validate-IsDeliverable next s) [
          | inl (p, e) ↦ rw e (
              deduplicate-SendsTwice (record s { context = enriched services s.services s.context })
                r f known printed email)
          | inr (np, e) ↦ absurd (np valid)
        ]
