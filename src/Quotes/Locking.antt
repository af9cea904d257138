-- ===== src/Quotes/Locking.antt =====
-- The lock of a submission: it is given back however the transaction of a new quote ends.
use interiors_api_client.Common.{◌≡◌, refl, true, ◌∷◌}
use interiors_api_client.Common.Text.{Text}
use interiors_api_client.Common.Decimal.{Decimal}
use interiors_api_client.Common.Exception.{Exception}
use interiors_api_client.Common.Exec.{
  Result, ok, err, ◌>>◌, try_catch, pure, handle_result, after_cleanup, continue,
}
use interiors_api_client.Quotes.Request.{Request}
use interiors_api_client.Quotes.Normalize.{NormalizedQuoteData, normalize_quote_data}
use interiors_api_client.Quotes.Pricing.Resolver.{Strategy}
use interiors_api_client.Quotes.Desk.{
  Call, cache_delete, count_quote, Saved, Desk, Services, invoke,
}
use interiors_api_client.Quotes.Guard.{create_lock_key, release_lock}
use interiors_api_client.Quotes.Idempotency.{IdempotencyContext}
use interiors_api_client.Quotes.Pricing.Amounts.{normalize_quote_data-IsPriced}
use interiors_api_client.Quotes.Service.{
  Outcome, saved, answered, recover, run_transaction, transaction, conclude, create_new,
}
use interiors_api_client.Quotes.Keeps.{
  Keeps-pure, Keeps-bind, handle_result-Keeps, continue-Keeps, recover_by-Keeps, send_notice-Keeps,
}
use mathlib.Core.List.{Memᴰ}

-- Every result but a saved quote has the call in its history.
abbrev MadeUnlessSaved : {W : Type 0} → Call → Result Outcome × Desk W → Type 0
MadeUnlessSaved c (ok (saved x), s) = Unit
MadeUnlessSaved c (ok (answered r), s) = Memᴰ c s.calls
MadeUnlessSaved c (err e, s) = Memᴰ c s.calls

made-MadeUnlessSaved :
    {W : Type 0} {c : Call} (p : Result Outcome × Desk W) → Memᴰ c p.1.calls → MadeUnlessSaved c p
made-MadeUnlessSaved (ok (saved x), s) h = tt
made-MadeUnlessSaved (ok (answered r), s) h = h
made-MadeUnlessSaved (err e, s) h = h

-- What the body of the `try` statement gives: a saved quote, if anything.
abbrev IsSaved : Result Outcome → Type 0
IsSaved (ok (saved x)) = Unit
IsSaved (ok (answered r)) = ⊥
IsSaved (err e) = Unit

module _ {W : Type 0} (services : Services W) where
  module _ (i : IdempotencyContext) (fp : Text) where
    abbrev unlock : Call
    unlock = cache_delete (create_lock_key fp)

    recover-unlocks : (e : Exception) (s : Desk W) → Memᴰ unlock (recover services i fp e s).1.calls
    unfolding recover release_lock
    recover-unlocks e s =
        let released = try_catch (release_lock services fp) (λ _. pure tt) s in
        continue-Keeps released.0 _ released.1 (λ _. recover_by-Keeps services i e)
          (handle_result-Keeps (services.lock_delete (create_lock_key fp) s.outside).0 _ _
            (λ _. Keeps-pure) (Memᴰ.head refl))

    handled-unlocks :
        (r : Result Outcome) (s : Desk W)
        → IsSaved r
        → MadeUnlessSaved unlock (handle_result r (recover services i fp) s)
    handled-unlocks (ok (saved x)) s h = tt
    handled-unlocks (ok (answered r)) s h = absurd h
    handled-unlocks (err e) s h = made-MadeUnlessSaved _ (recover-unlocks e s)

    counted-IsSaved :
        (x : Saved) (r : Result (Unit {0})) (s : Desk W)
        → IsSaved (continue r (λ _. pure (saved x)) s).0
    counted-IsSaved x (ok u) s = tt
    counted-IsSaved x (err e) s = tt

    body-IsSaved :
        (r : Result Saved) (s : Desk W)
        → IsSaved
            (continue r
              (λ x. invoke (count_quote true) (services.counter_inc true) >> pure (saved x))
              s).0
    body-IsSaved (ok x) s = counted-IsSaved x (services.counter_inc true s.outside).0 _
    body-IsSaved (err e) s = tt

    closed-unlocks :
        (p : Result Outcome × Desk W) (r : Result (Unit {0})) (d : Call) (w : W)
        → r ≡ ok tt
        → MadeUnlessSaved unlock p
        → MadeUnlessSaved unlock
            (after_cleanup p.0 (r, record { calls = d ∷ p.1.calls; outside = w }))
    closed-unlocks (ok (saved x), s) r d w e h = rw e tt
    closed-unlocks (ok (answered a), s) r d w e h = rw e (Memᴰ.tail h)
    closed-unlocks (err x, s) r d w e h = rw e (Memᴰ.tail h)

    concluded-unlocks :
        (q : Request) (price : Decimal) (r : Result Outcome) (s : Desk W)
        → MadeUnlessSaved unlock (r, s)
        → Memᴰ unlock (continue r (conclude services q fp price) s).1.calls
    unfolding conclude release_lock
    concluded-unlocks q price (ok (saved x)) s h =
        continue-Keeps (services.lock_delete (create_lock_key fp) s.outside).0 _ _
          (λ _. Keeps-bind (send_notice-Keeps services _) (λ _. Keeps-pure)) (Memᴰ.head refl)
    concluded-unlocks q price (ok (answered a)) s h = h
    concluded-unlocks q price (err e) s h = h

    module _ (session_end-ok : (w : W) → (services.session_end w).0 ≡ ok tt) where
      run_transaction-unlocks :
          (q : Request) (strategy : Strategy) (price : Decimal) (s : Desk W)
          → MadeUnlessSaved unlock (run_transaction services q i fp strategy price s)
      unfolding run_transaction
      run_transaction-unlocks q strategy price s =
          let t = services.with_transaction (transaction services q i fp strategy price) s in
          closed-unlocks _ _ _ _ (session_end-ok _) (handled-unlocks _ _ (body-IsSaved t.0 t.1))

      -- If the request's data can be normalized, as they are before the lock is taken, ending a
      -- session cannot fail and the session of this submission starts, the history of calls after
      -- a new quote has the deletion of its lock, whatever the transaction, the cache,
      -- the counter and the dispatcher do: when the quote is saved, when an earlier result is
      -- returned, and when an exception is thrown.
      pub create_new-unlocks :
          (q : Request) (n : NormalizedQuoteData) (s : Desk W)
          → normalize_quote_data q ≡ ok n
          → (services.session_start s.outside).0 ≡ ok tt
          → Memᴰ (cache_delete (create_lock_key fp)) (create_new services q i fp s).1.calls
      unfolding create_new
      create_new-unlocks q n s normalized started =
          let (strategy, price, found, supported, priced) =
            normalize_quote_data-IsPriced q n normalized in
          rw (found, priced, started)
            (concluded-unlocks q price _ _ (run_transaction-unlocks q strategy price _))
