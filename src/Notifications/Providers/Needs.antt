-- ===== src/Notifications/Providers/Needs.antt =====
-- What the email providers need of a context, and the parts of their adapters.
use interiors_api_client.Common.{◌≡◌, ◌≢◌, ◌↔◌, refl, subst, Option, none, some, [], ◌∷◌}
use interiors_api_client.Common.Text.{Text}
use interiors_api_client.Common.Exec.{Result, ok, err, handle_result}
use interiors_api_client.Notifications.Context.{Context, Recipient}
use interiors_api_client.Notifications.Providers.{Adapter, filled, address_of, keep_made}

-- A value that is there and not empty.
abbrev pub IsFilled : Option Text → Text → Type 0
IsFilled o t = (o ≡ some t) × (t ≢ [])

pub filled_iff : (o : Option Text) (t : Text) → (filled o ≡ ok t) ↔ IsFilled o t
filled_iff none t = (λ h. absurd (cc), λ h. absurd (cc (h.0)))
filled_iff (some []) t = (λ h. absurd (cc), λ h. absurd (h.1 (cc (h.0))))
filled_iff (some (c ∷ s)) t = (λ h. (cc, λ e. cc), λ h. cc (h.0))

-- The address of the recipient.
abbrev pub IsAddressed : Context → Text → Type 0
IsAddressed c to = (r : Recipient) × (c.recipient ≡ some r) × IsFilled r.email to

pub address_of_iff :
    (o : Option Recipient) (to : Text)
    → (address_of o ≡ ok to) ↔ ((r : Recipient) × (o ≡ some r) × IsFilled r.email to)
address_of_iff none to = (λ h. absurd (cc), λ (r, e, f). absurd (cc e))
address_of_iff (some r) to = (
  λ h. (r, refl, (filled_iff r.email to).0 h),
  λ (r', e, f).
      let same : r' ≡ r = cc e in
      subst (λ x. filled x.email ≡ ok to) same ((filled_iff r'.email to).1 f),
)

-- What a `try` block answers, if its handler answers something else.
pub try_block_iff :
    {S A : Type 0} (r : Result A) (s : S) (a b : A)
    → a ≢ b
    → ((handle_result r (λ _ s'. (ok b, s')) s).0 ≡ ok a) ↔ (r ≡ ok a)
try_block_iff (ok x) s a b other = (λ h. h, λ h. h)
try_block_iff (err e) s a b other = (λ h. absurd (other (cc)), λ h. absurd (cc))

pub keep_made-result : {T W : Type 0} (r : Result T) (s : Adapter T W) → (keep_made r s).0 ≡ r
keep_made-result (ok t) s = refl
keep_made-result (err e) s = refl

pub keep_made-outside :
    {T W : Type 0} (r : Result T) (s : Adapter T W) → (keep_made r s).1.outside ≡ s.outside
keep_made-outside (ok t) s = refl
keep_made-outside (err e) s = refl
