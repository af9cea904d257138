-- ===== src/Common/Exception/Filter/Concealed.antt =====
-- What an error response tells of an exception (common/filters/global-exception.filter.ts).
use Prim.Native.Nat.{ℕ}
use mathlib.Core.Path.{◌≡◌, refl, ap}
use mathlib.Core.Logic.{◌↔◌, ◌⊎◌, inl, inr}
use mathlib.Core.List.{List}
use interiors_api_client.Common.Text.{Text, text}
use interiors_api_client.Common.Exception.{Exception, error, no_entry, driver}
use interiors_api_client.Common.Exception.Filter.{
  Reply, Request, something_went_wrong, trace_of, reply_of,
}

-- A failure of the program or of what it calls: no exception that was thrown to answer a request.
abbrev pub IsInternal : Exception → Type 0
IsInternal e =
    (e ≡ error) ⊎ ((e ≡ no_entry) ⊎ ((code : ℕ) × (keys : List Text) × (e ≡ driver code keys)))

-- The response that tells nothing.
abbrev pub unknown_reply : Request → Reply
unknown_reply q = record {
  message = something_went_wrong;
  error_code = text "COMMON_001";
  status_code = 500;
  trace_id = trace_of q.trace_id;
  path = q.url;
}

-- The response to an internal failure is one and the same for all of them: the status 500, the code
-- COMMON_001, and a message that says nothing; and no other exception is answered with it.
pub reply_of-eq-unknown_iff :
    (e : Exception) (q : Request) → (reply_of e q ≡ unknown_reply q) ↔ IsInternal e
unfolding reply_of
reply_of-eq-unknown_iff error q = (λ h. inl refl, λ h. refl)
reply_of-eq-unknown_iff no_entry q = (λ h. inr (inl refl), λ h. refl)
reply_of-eq-unknown_iff (driver code keys) q = (λ h. inr (inr (code, keys, refl)), λ h. refl)
reply_of-eq-unknown_iff _ q = (
  λ h. absurd (cc (ap (λ (r : Reply). r.message) h)),
  λ h. absurd (elim h [ inl k ↦ cc | inr (inl k) ↦ cc | inr (inr (c, ks, k)) ↦ cc ]),
)
