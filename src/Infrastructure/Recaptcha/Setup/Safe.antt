-- ===== src/Infrastructure/Recaptcha/Setup/Safe.antt =====
-- When the service starts, and with what.
use interiors_api_client.Common.{
  ◌≡◌, ◌≢◌, ◌↔◌, refl, sym, ap, subst, ◌∙◌, Bool, true, false, not, ◌||◌, Option, List, [], ◌∷◌,
  if◌then◌else◌, is_empty, any, All, inl, inr, Bool-cases,
}
use interiors_api_client.Common.Text.{Text, text, trim}
use interiors_api_client.Common.Decimal.{whole}
use interiors_api_client.Common.Exception.{error}
use interiors_api_client.Common.Exec.{Result, ok, err}
use interiors_api_client.Infrastructure.Recaptcha.{
  Number, below_zero, not_finite, finite, Recaptcha, less,
}
use interiors_api_client.Infrastructure.Recaptcha.Setup.{
  or_else, split_commas, host_names, is_hostname, with_score, validated, configure,
}
use interiors_api_client.Infrastructure.Recaptcha.Setup.Hostnames.{
  IsHostname, is_hostname-IsHostname,
}

is_empty_iff {ℓ} : {A : Type ℓ} → (l : List A) → (is_empty l ≡ false) ↔ (l ≢ [])
is_empty_iff [] = (λ h. absurd (cc), λ n. absurd (n refl))
is_empty_iff (a ∷ l) = (λ h e. cc, λ n. refl)

false-ne-true : false ≢ true
false-ne-true e = cc

none_true : (a b : Bool) → a || b ≡ false → (a ≡ false) × (b ≡ false)
none_true true b h = absurd (cc)
none_true false b h = (refl, h)

-- What a guard that throws lets through.
refused_or :
    (b : Bool) (x : Result Recaptcha) (r : Recaptcha)
    → (if b then err error else x) ≡ ok r
    → (b ≡ false) × (x ≡ ok r)
refused_or true x r h = absurd (cc)
refused_or false x r h = (refl, h)

none_refused :
    (hosts : List Text)
    → (any (λ host. not (is_hostname host)) hosts ≡ false) ↔ All IsHostname hosts
none_refused [] = (λ h. tt, λ a. refl)
none_refused (h ∷ hs) = elim (Bool-cases (is_hostname h)) [
  | inl e ↦ rw e (
    λ k. ((is_hostname-IsHostname h).0 e, (none_refused hs).0 k),
    λ (a, b). (none_refused hs).1 b,
  )
  | inr n ↦
      rw n (
        λ k. absurd (cc),
        λ (a, b). absurd (false-ne-true (sym n ∙ (is_hostname-IsHostname h).1 a)),
      )
]

-- A service with the secret and the hostnames that are given, each of which fits the pattern of
-- hostnames, and the least score that is given, from 0 to 1.
pub record IsValid (secret : Text) (hosts : List Text) (score : Text) (n : Number) (r : Recaptcha)
    : Type 0 where
  pub secret_is : r.secret ≡ secret
  pub secret_given : secret ≢ []
  pub hosts_are : r.hostnames ≡ hosts
  pub hosts_given : hosts ≢ []
  pub hosts_fit : All IsHostname hosts
  pub score_given : trim score ≢ []
  pub score_is : n ≡ finite r.min_score
  pub score_fits : less (whole 1) r.min_score ≡ false

with_score-eq-ok :
    (secret : Text) (hosts : List Text) (n : Number) (r : Recaptcha)
    → with_score secret hosts n ≡ ok r
    → (r.secret ≡ secret)
      × (r.hostnames ≡ hosts)
      × (n ≡ finite r.min_score)
      × (less (whole 1) r.min_score ≡ false)
with_score-eq-ok secret hosts below_zero r h = absurd (cc)
with_score-eq-ok secret hosts not_finite r h = absurd (cc)
with_score-eq-ok secret hosts (finite d) r h = elim (Bool-cases (less (whole 1) d)) [
  | inl high ↦ absurd (cc)
  | inr fits ↦
      let made : record { secret = secret; hostnames = hosts; min_score = d } ≡ r =
        (let made = rw fits at h in cc) in
      (
        sym (ap Recaptcha.secret made),
        sym (ap Recaptcha.hostnames made),
        ap (λ q. finite (Recaptcha.min_score q)) made,
        subst (λ q. less (whole 1) (Recaptcha.min_score q) ≡ false) made fits,
      )
]

validated-eq-ok_iff :
    (secret : Text) (hosts : List Text) (score : Text) (n : Number) (r : Recaptcha)
    → (validated secret hosts score n ≡ ok r) ↔ IsValid secret hosts score n r
validated-eq-ok_iff secret hosts score n r = (
  λ h.
      let (secret_given, after_secret) = refused_or (is_empty secret) _ r h in
      let (hosts_taken, after_hosts) =
        refused_or (is_empty hosts || any (λ host. not (is_hostname host)) hosts) _ r
          after_secret in
      let (score_given, after_score) = refused_or (is_empty (trim score)) _ r after_hosts in
      let (named, fitting) = none_true (is_empty hosts) _ hosts_taken in
      let (secret_is, hosts_are, score_is, score_fits) =
        with_score-eq-ok secret hosts n r after_score in
      record {
        secret_is = secret_is;
        secret_given = (is_empty_iff secret).0 secret_given;
        hosts_are = hosts_are;
        hosts_given = (is_empty_iff hosts).0 named;
        hosts_fit = (none_refused hosts).0 fitting;
        score_given = (is_empty_iff (trim score)).0 score_given;
        score_is = score_is;
        score_fits = score_fits;
      },
  λ v.
      rw
        (
          (is_empty_iff secret).1 v.secret_given,
          (is_empty_iff hosts).1 v.hosts_given,
          (none_refused hosts).1 v.hosts_fit,
          (is_empty_iff (trim score)).1 v.score_given,
          v.score_is,
          v.score_fits,
          ← v.secret_is,
          ← v.hosts_are,
        )
        refl,
)

-- `IsValid`, for what the environment gives.
abbrev pub IsConfigured : (Text → Number) → (Text → Option Text) → Recaptcha → Type 0
IsConfigured to_number config r =
    let score = or_else (config (text "RECAPTCHA_MIN_SCORE")) (text "0.5") in
    IsValid (trim (or_else (config (text "RECAPTCHA_SECRET_KEY")) []))
      (host_names (split_commas (or_else (config (text "RECAPTCHA_ALLOWED_HOSTNAMES")) []))) score
      (to_number score) r

-- The constructor makes the service exactly when it is the configured one.
pub configure-eq-ok_iff :
    (to_number : Text → Number) (config : Text → Option Text) (r : Recaptcha)
    → (configure to_number config ≡ ok r) ↔ IsConfigured to_number config r
unfolding configure
configure-eq-ok_iff to_number config r = validated-eq-ok_iff _ _ _ _ r
