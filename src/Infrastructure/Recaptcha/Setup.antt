-- ===== src/Infrastructure/Recaptcha/Setup.antt =====
-- The configuration of reCAPTCHA (src/infrastructure/recaptcha/recaptcha.service.ts): the constructor
-- of `RecaptchaService`. The values of the environment are texts, and `Number` of a text is a
-- parameter. The set of hostnames is a list, which may name one twice.
pub mod Hostnames
pub mod Safe
use interiors_api_client.Common.{
  ℕ, Bool, true, false, not, ◌&&◌, ◌||◌, Option, none, some, List, [], ◌∷◌, if◌then◌else◌, leb,
  ◌==◌, is_empty, any,
}
use interiors_api_client.Common.Text.{Text, text, trim, to_lower_case}
use interiors_api_client.Common.Decimal.{whole}
use interiors_api_client.Common.Exception.{error}
use interiors_api_client.Common.Exec.{Result, ok, err}
use interiors_api_client.Infrastructure.Recaptcha.{
  Number, below_zero, not_finite, finite, Recaptcha, less,
}

-- `config.get(name) ?? other`
abbrev pub or_else : Option Text → Text → Text
or_else none t = t
or_else (some s) t = s

-- The first part before a comma gets one more code unit.
abbrev pub onto_first : ℕ → List Text → List Text
onto_first c [] = (c ∷ []) ∷ []
onto_first c (p ∷ ps) = (c ∷ p) ∷ ps

-- `hosts.split(",")`
unfoldable pub split_commas : Text → List Text
split_commas [] = [] ∷ []
split_commas (c ∷ s) =
    let rest = split_commas s in if c == b',' then [] ∷ rest else onto_first c rest

-- `.map((host) => host.trim().toLowerCase()).filter(Boolean)`
unfoldable pub host_names : List Text → List Text
host_names [] = []
host_names (p ∷ ps) =
    let rest = host_names ps in
    let host = to_lower_case (trim p) in if is_empty host then rest else host ∷ rest

-- `[a-z0-9]`
abbrev pub is_alphanumeric : ℕ → Bool
is_alphanumeric c = (leb b'a' c && leb c b'z') || (leb b'0' c && leb c b'9')

-- Where the pattern of a hostname is: before a label, after a letter or a digit of one, after a `-`.
pub data Place : Type 0 where
  before letter dash : Place

-- The rest of a text, from a place on.
unfoldable pub fits_from : Place → Text → Bool
fits_from letter [] = true
fits_from before [] = false
fits_from dash [] = false
fits_from before (c ∷ s) = is_alphanumeric c && fits_from letter s
fits_from letter (c ∷ s) =
    (is_alphanumeric c && fits_from letter s)
    || ((c == b'-') && fits_from dash s)
    || ((c == b'.') && fits_from before s)
fits_from dash (c ∷ s) =
    (is_alphanumeric c && fits_from letter s) || ((c == b'-') && fits_from dash s)

-- `/^(?:[a-z0-9](?:[a-z0-9-]*[a-z0-9])?)(?:\.[a-z0-9](?:[a-z0-9-]*[a-z0-9])?)*$/.test(host)`
abbrev pub is_hostname : Text → Bool
is_hostname host = fits_from before host

-- `this.minScore`, which must be from 0 to 1
abbrev pub with_score : Text → List Text → Number → Result Recaptcha
with_score secret hostnames below_zero = err error
with_score secret hostnames not_finite = err error
with_score secret hostnames (finite d) =
    if less (whole 1) d
    then err error
    else ok (record { secret = secret; hostnames = hostnames; min_score = d })

-- The tests of the constructor
abbrev pub validated : (secret : Text) → List Text → (score : Text) → Number → Result Recaptcha
validated secret hostnames score min_score =
    if is_empty secret
    then err error
    else if is_empty hostnames || any (λ host. not (is_hostname host)) hostnames
    then err error
    else if is_empty (trim score)
    then err error
    else with_score secret hostnames min_score

-- The constructor
unfoldable pub configure :
    (to_number : Text → Number) (config : Text → Option Text) → Result Recaptcha
configure to_number config =
    let score = or_else (config (text "RECAPTCHA_MIN_SCORE")) (text "0.5") in
    validated (trim (or_else (config (text "RECAPTCHA_SECRET_KEY")) []))
      (host_names (split_commas (or_else (config (text "RECAPTCHA_ALLOWED_HOSTNAMES")) []))) score
      (to_number score)
