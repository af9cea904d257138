-- ===== src/Infrastructure/Sessions/Expiry.antt =====
-- How long a session is kept.
use interiors_api_client.Common.{
  ℕ, ◌+◌, ◌*◌, ◌/◌, ◌<◌, ◌≤◌, ◌≡◌, refl, Option, none, some, false, inl, inr, ◌==◌, arith,
  Bool-cases,
}
use interiors_api_client.Common.Text.{Text}
use interiors_api_client.Common.Exec.{Exec, try_catch, ◌>>◌}
use interiors_api_client.Infrastructure.Cache.{Client, given_ttl}
use interiors_api_client.Infrastructure.Sessions.{
  ttl_of, session_key, Callback, set_session, touch_session,
}

-- The seconds of an expiry against the milliseconds of the cookie: 8 hours if it has none or 0, no
-- expiry below a second, and else the whole seconds.
abbrev pub Fits : Option ℕ → Option ℕ → Type 0
Fits none e = e ≡ some 28800
Fits (some m) none = (0 < m) × (m < 1000)
Fits (some m) (some t) =
    (m ≡ 0 → t ≡ 28800) × (0 < m → (0 < t) × (t * 1000 ≤ m) × (m < t * 1000 + 1000))

given_ttl-Fits : (max_age : Option ℕ) → Fits max_age (given_ttl (some (ttl_of max_age)))
unfolding ttl_of
given_ttl-Fits none = refl
given_ttl-Fits (some m) = elim (Bool-cases (m == 0)) [
  | inl e ↦ rw e (λ z. refl, λ h. absurd (ground (arith, e)))
  | inr e ↦ elim (Bool-cases ((m / 1000) == 0)) [
    | inl f ↦ rw (e, f) (ground (arith, e), ground (arith, f))
    | inr f ↦
        rw (e, f)
          (λ z. absurd (ground (arith, e)), λ h. (ground (arith, f), omega arith, omega arith))
  ]
]

module _ {V W : Type 0} (client : Client V W) (cache_get : Text → Exec W (Option V)) where
  -- Storing and touching a session are the same command of the client: the session is put under its
  -- key, whether or not there is one, with an expiry of 8 hours if the age of the cookie is absent
  -- or 0, of the age's whole seconds if it is at least a second, and with no expiry if it is less;
  -- the callback is then called, and once more with the exception if any of this throws.
  pub set_session-Fits :
      (max_age : Option ℕ) (sid : Text) (session : V) (callback : Callback client cache_get)
      → (e : Option ℕ) × Fits max_age e
        × (set_session client cache_get max_age sid session callback
            ≡ try_catch
                (client.set (session_key sid) session e false >> callback none none)
                (λ x. callback (some x) none))
        × (touch_session client cache_get max_age sid session callback
            ≡ set_session client cache_get max_age sid session callback)
  unfolding set_session touch_session
  set_session-Fits max_age sid session callback =
      (given_ttl (some (ttl_of max_age)), given_ttl-Fits max_age, refl, refl)
