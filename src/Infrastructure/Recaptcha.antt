-- ===== src/Infrastructure/Recaptcha.antt =====
-- The decision on a reCAPTCHA token (src/infrastructure/recaptcha/recaptcha.service.ts):
-- `RecaptchaService.verify`, for a service that was configured. The remote verifier is a parameter.
pub mod Accepted
pub mod Setup
use interiors_api_client.Common.{
  ℕ, ◌*◌, ◌^◌, Bool, true, false, not, ◌&&◌, ◌||◌, Option, none, some, List, [], ◌∷◌, if◌then◌else◌,
  ltb, is_empty, any,
}
use interiors_api_client.Common.Text.{Text, text, text_eq, trim, to_lower_case}
use interiors_api_client.Common.Decimal.{Decimal, whole}
use interiors_api_client.Common.Exception.{Exception, forbidden, service_unavailable, error}
use interiors_api_client.Common.Exec.{
  Exec, Result, ok, err, pure, throw, lift, try_catch, ◌>>=◌, ◌>>◌,
}

-- A number of JavaScript: a score is compared with numbers from 0 to 1.
pub data Number : Type 0 where
  below_zero not_finite : Number
  finite : Decimal → Number

-- A value of the answer: of an array, the elements that are strings; other values are not told
-- apart.
pub data Value : Type 0 where
  bool : Bool → Value
  number : Number → Value
  string : Text → Value
  array : List (Option Text) → Value
  other : Value

-- The answer: an object by its fields, or anything else.
pub data Body : Type 0 where
  object : List (Text × Value) → Body
  no_object : Body

pub record Recaptcha : Type 0 where
  pub secret : Text
  pub hostnames : List Text
  pub min_score : Decimal

-- `fetch` to the verifier with the secret and the token, which says whether `response.ok`, and
-- `response.json()`.
pub record Verifier (W : Type 0) : Type 0 where
  pub fetch : Text → Text → Exec W Bool
  pub json : Exec W Body

-- `data[name]`
unfoldable pub field_of : Text → List (Text × Value) → Option Value
field_of name [] = none
field_of name ((n, v) ∷ fields) = if text_eq n name then some v else field_of name fields

-- `a < b`
abbrev pub less : Decimal → Decimal → Bool
less a b = ltb (a.mantissa * 10 ^ b.places) (b.mantissa * 10 ^ a.places)

-- `typeof result.success === "boolean"`, where it is there
abbrev pub is_bool : Option Value → Bool
is_bool (some (bool b)) = true
is_bool _ = false

abbrev pub is_secret_code : Option Text → Bool
is_secret_code none = false
is_secret_code (some code) =
    text_eq code (text "missing-input-secret") || text_eq code (text "invalid-input-secret")

-- `Array.isArray(codes) && codes.some(…)`
abbrev pub secret_refused : Option Value → Bool
secret_refused (some (array codes)) = any is_secret_code codes
secret_refused _ = false

-- `data.success === true`
abbrev pub is_success : Option Value → Bool
is_success (some (bool b)) = b
is_success _ = false

-- `data.action === expectedAction`
abbrev pub is_action : Text → Option Value → Bool
is_action action (some (string a)) = text_eq a action
is_action action _ = false

-- `typeof data.hostname === "string" && this.hostnames.has(data.hostname.toLowerCase())`
abbrev pub is_known_host : List Text → Option Value → Bool
is_known_host hostnames (some (string h)) = any (λ k. text_eq k (to_lower_case h)) hostnames
is_known_host hostnames _ = false

-- The four tests of `data.score`
abbrev pub is_high_score : Decimal → Option Value → Bool
is_high_score min (some (number (finite d))) = not (less d min) && not (less (whole 1) d)
is_high_score min _ = false

module _ {W : Type 0} (r : Recaptcha) (io : Verifier W) where
  -- What is decided on the fields of the answer.
  unfoldable pub judge : Text → List (Text × Value) → Result (Unit {0})
  unfolding field_of
  judge action fields =
      if not (is_bool (field_of (text "success") fields))
      then err service_unavailable
      else if secret_refused (field_of (text "error-codes") fields)
      then err service_unavailable
      else if is_success (field_of (text "success") fields)
          && (is_action action (field_of (text "action") fields)
              && (is_known_host r.hostnames (field_of (text "hostname") fields)
                  && is_high_score r.min_score (field_of (text "score") fields)))
      then ok tt
      else err forbidden

  abbrev pub judge_body : Text → Body → Result (Unit {0})
  judge_body action (object fields) = judge action fields
  judge_body action no_object = err service_unavailable

  -- The `try` block, with its `catch`
  unfoldable pub ask : Text → Exec W Body
  ask token =
      try_catch (do reached ← io.fetch r.secret token; if reached then io.json else throw error)
        (λ e. throw service_unavailable)

  -- `verify`
  unfoldable pub verify : Text → Text → Exec W (Unit {0})
  unfolding ask judge
  verify token action =
      if is_empty (trim token)
      then throw forbidden
      else if is_empty (trim action)
      then throw error
      else do body ← ask token; lift (judge_body action body)
