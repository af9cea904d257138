-- ===== src/Notifications/Validation.antt =====
-- Which contexts `ValidateStage` lets through.
use interiors_api_client.Common.{
  ap, ◌≡◌, refl, ◌≢◌, ◌⊎◌, inl, inr, Bool, true, false, not, ◌&&◌, Option, none, some, [], ◌∷◌,
  Bool-cases, is_empty, is_some,
}
use interiors_api_client.Common.Text.{Text, text, trim}
use interiors_api_client.Common.Exception.{domain, invalid_context}
use interiors_api_client.Common.Exec.{ok, err, Exec, ◌>>◌}
use interiors_api_client.Notifications.Context.{Context, Recipient, Run}
use interiors_api_client.Notifications.Stages.Validate.{
  is_blank, is_missing, is_valid_email, is_valid_address, is_type, refuse_if, check_recipient,
  check_context, validate,
}

-- The value is given, and is more than white space.
abbrev pub Filled : Option Text → Type 0
Filled o = (s : Text) × (o ≡ some s) × (trim s ≢ [])

abbrev pub Given : Option Text → Type 0
Given o = (s : Text) × (o ≡ some s) × (s ≢ [])

abbrev pub HasIdentity : Recipient → Type 0
HasIdentity r =
    Filled r.customer_key
    ⊎ (Filled r.user_id ⊎ (Filled r.email ⊎ (Filled r.phone ⊎ Filled r.device_token)))

abbrev pub HasAddress : Recipient → Type 0
HasAddress r = (s : Text) × (r.email ≡ some s) × (is_valid_email (trim s) ≡ true)

-- The recipient can be reached on the channel that the context names.
abbrev pub Reachable : Option Text → Option Recipient → Type 0
Reachable type none = ⊥
Reachable type (some r) =
    HasIdentity r
    × (Filled r.name
        × ((is_type type (text "email") ≡ true → Filled r.email)
            × ((is_type type (text "email") ≡ true → HasAddress r)
                × ((is_type type (text "sms") ≡ true → Filled r.phone)
                    × (is_type type (text "push") ≡ true → Filled r.device_token)))))

abbrev pub IsDeliverable : Context → Type 0
IsDeliverable c =
    Filled c.notification_id
    × (Filled c.trace_id
        × (Given c.type
            × (Given c.priority
                × (Given c.category
                    × (Filled c.template_name
                        × ((c.template_data ≢ none) × Reachable c.type c.recipient))))))

-- The step lets a state through exactly when `P`, and otherwise throws and changes nothing.
record Gate {S : Type 0} (P : Type 0) (m : Exec S (Unit {0})) : Type 0 where
  at : (s : S) → (P × (m s ≡ (ok tt, s))) ⊎ ((P → ⊥) × (m s ≡ (err (domain invalid_context), s)))

module _ {S : Type 0} where
  Gate-refuse_if :
      {P : Type 0} (b : Bool) → (b ≡ false → P) → (P → b ≡ false) → Gate P (refuse_if {S = S} b)
  Gate-refuse_if true to from = record { at = λ s. inr (λ p. cc (from p), refl) }
  Gate-refuse_if false to from = record { at = λ s. inl (to refl, refl) }

  Gate-then : {P Q : Type 0} (m k : Exec S (Unit {0})) → Gate P m → Gate Q k → Gate (P × Q) (m >> k)
  Gate-then m k gm gk = record {
    at = λ s. elim (gm.at s) [
      | inl (p, e) ↦ elim (gk.at s) [
        | inl (q, e') ↦ inl ((p, q), rw e e')
        | inr (nq, e') ↦ inr (λ h. nq h.1, rw e e')
      ]
      | inr (np, e) ↦ inr (λ h. np h.0, rw e refl)
    ];
  }

is_empty_of_ne : (s : Text) → s ≢ [] → is_empty s ≡ false
is_empty_of_ne [] ne = absurd (ne refl)
is_empty_of_ne (c ∷ s) ne = refl

is_blank→Filled : (o : Option Text) → is_blank o ≡ false → Filled o
is_blank→Filled none h = cc
is_blank→Filled (some s) h = (s, refl, λ e. cc (h, ap is_empty e))

Filled→is_blank : (o : Option Text) → Filled o → is_blank o ≡ false
Filled→is_blank o (s, e, ne) = rw e (is_empty_of_ne (trim s) ne)

is_missing→Given : (o : Option Text) → is_missing o ≡ false → Given o
is_missing→Given none h = cc
is_missing→Given (some s) h = (s, refl, λ e. cc (h, ap is_empty e))

Given→is_missing : (o : Option Text) → Given o → is_missing o ≡ false
Given→is_missing o (s, e, ne) = rw e (is_empty_of_ne s ne)

is_some_of_ne : {A : Type 0} (o : Option A) → is_some o ≡ true → o ≢ none
is_some_of_ne none h = cc
is_some_of_ne (some a) h = cc

ne→is_some : {A : Type 0} (o : Option A) → o ≢ none → is_some o ≡ true
ne→is_some none h = absurd (h refl)
ne→is_some (some a) h = refl

module _ {S : Type 0} where
  Gate-Filled : (o : Option Text) → Gate (Filled o) (refuse_if {S = S} (is_blank o))
  Gate-Filled o = Gate-refuse_if (is_blank o) (is_blank→Filled o) (Filled→is_blank o)

  Gate-Given : (o : Option Text) → Gate (Given o) (refuse_if {S = S} (is_missing o))
  Gate-Given o = Gate-refuse_if (is_missing o) (is_missing→Given o) (Given→is_missing o)

  -- A check that only one channel makes.
  Gate-on :
      {P : Type 0} (t b : Bool)
      → (b ≡ false → P)
      → (P → b ≡ false)
      → Gate (t ≡ true → P) (refuse_if {S = S} (t && b))
  Gate-on true b to from = Gate-refuse_if b (λ e _. to e) (λ f. from (f refl))
  Gate-on false b to from = Gate-refuse_if false (λ _ e. cc) (λ _. refl)

not-false : (b : Bool) → not b ≡ false → b ≡ true
not-false true h = refl
not-false false h = cc

not-is_valid_address→HasAddress :
    (r : Recipient) → not (is_valid_address r.email) ≡ false → HasAddress r
not-is_valid_address→HasAddress r h = go r.email refl
  where
    go : (o : Option Text) → r.email ≡ o → HasAddress r
    go none e = cc (rw e at h)
    go (some a) e = (a, e, not-false _ (rw e at h))

HasAddress→not-is_valid_address :
    (r : Recipient) → HasAddress r → not (is_valid_address r.email) ≡ false
HasAddress→not-is_valid_address r (a, e, v) = rw (e, v) refl

module _ {P Q : Type 0} (a b : Bool) where
  either : (a ≡ false → P) → (b ≡ false → Q) → a && b ≡ false → P ⊎ Q
  either f g h = elim (Bool-cases a) [ inr e ↦ inl (f e) | inl e ↦ inr (g (rw e at h)) ]

  and-false : (P → a ≡ false) → (Q → b ≡ false) → P ⊎ Q → a && b ≡ false
  and-false f g (inl p) = rw (f p) refl
  and-false f g (inr q) = elim (Bool-cases a) [ inl e ↦ rw (e, g q) refl | inr e ↦ rw e refl ]

module _ (r : Recipient) where
  -- No identity is given.
  abbrev is_anonymous : Bool
  is_anonymous =
      is_blank r.customer_key
      && (is_blank r.user_id && (is_blank r.email && (is_blank r.phone && is_blank r.device_token)))

  is_anonymous→HasIdentity : is_anonymous ≡ false → HasIdentity r
  is_anonymous→HasIdentity = either _ _ (is_blank→Filled _) (
      either _ _ (is_blank→Filled _)
        (either _ _ (is_blank→Filled _) (either _ _ (is_blank→Filled _) (is_blank→Filled _))))

  HasIdentity→is_anonymous : HasIdentity r → is_anonymous ≡ false
  HasIdentity→is_anonymous = and-false _ _ (Filled→is_blank _) (
      and-false _ _ (Filled→is_blank _)
        (and-false _ _ (Filled→is_blank _) (and-false _ _ (Filled→is_blank _) (Filled→is_blank _))))

module _ {S : Type 0} where
  Gate-check_recipient :
      (type : Option Text) (r : Option Recipient)
      → Gate (Reachable type r) (check_recipient {S = S} type r)
  unfolding check_recipient
  Gate-check_recipient type none = record { at = λ s. inr (λ p. p, refl) }
  Gate-check_recipient type (some r) =
      Gate-then _ _ (Gate-refuse_if _ (is_anonymous→HasIdentity r) (HasIdentity→is_anonymous r)) (
        Gate-then _ _ (Gate-Filled r.name) (
          Gate-then _ _
            (Gate-on _ (is_blank r.email) (is_blank→Filled r.email) (Filled→is_blank r.email))
            (Gate-then _ _
              (Gate-on _ _ (not-is_valid_address→HasAddress r) (HasAddress→not-is_valid_address r))
              (Gate-then _ _
                (Gate-on _ (is_blank r.phone) (is_blank→Filled r.phone) (Filled→is_blank r.phone))
                (Gate-on _ (is_blank r.device_token) (is_blank→Filled r.device_token)
                  (Filled→is_blank r.device_token))))))

  Gate-check_context : (c : Context) → Gate (IsDeliverable c) (check_context {S = S} c)
  unfolding check_context
  Gate-check_context c = Gate-then _ _ (Gate-Filled c.notification_id) (
      Gate-then _ _ (Gate-Filled c.trace_id) (
        Gate-then _ _ (Gate-Given c.type) (
          Gate-then _ _ (Gate-Given c.priority) (
            Gate-then _ _ (Gate-Given c.category) (
              Gate-then _ _ (Gate-Filled c.template_name) (
                Gate-then _ _
                  (Gate-refuse_if (not (is_some c.template_data))
                    (λ e. is_some_of_ne _ (not-false _ e)) (λ h. rw (ne→is_some _ h) refl))
                  (Gate-check_recipient c.type c.recipient)))))))

-- A context with its identifiers, routing data, template, and a recipient who has an identity, a
-- name and what the named channel needs goes on to the rest of the pipeline unchanged. Any other
-- is refused with `INVALID_CONTEXT`; no service is called and nothing is changed.
pub validate-IsDeliverable :
    {W : Type 0} (next : Exec (Run W) (Unit {0})) (s : Run W)
    → (IsDeliverable s.context × (validate next s ≡ next s))
      ⊎ ((IsDeliverable s.context → ⊥) × (validate next s ≡ (err (domain invalid_context), s)))
unfolding validate
validate-IsDeliverable next s = elim ((Gate-check_context s.context).at s) [
  | inl (p, e) ↦ inl (p, rw e refl)
  | inr (np, e) ↦ inr (np, rw e refl)
]
