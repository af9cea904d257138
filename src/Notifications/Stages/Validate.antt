-- ===== src/Notifications/Stages/Validate.antt =====
-- `ValidateStage` (pipeline/stages/validator.stage.ts).
use interiors_api_client.Common.{
  Bool, true, false, not, ◌&&◌, ◌||◌, Option, none, some, [], ◌∷◌, ◌==◌, if◌then◌else◌, is_empty,
  is_some,
}
use interiors_api_client.Common.Text.{Text, text, text_eq, is_space, trim, to_lower_case}
use interiors_api_client.Common.Exception.{domain, invalid_context}
use interiors_api_client.Common.Exec.{Exec, pure, throw, ◌>>◌}
use interiors_api_client.Notifications.Context.{Context, Recipient, Stage}

-- `!value?.trim()`
abbrev pub is_blank : Option Text → Bool
is_blank none = true
is_blank (some s) = is_empty (trim s)

-- `!value`
abbrev pub is_missing : Option Text → Bool
is_missing none = true
is_missing (some s) = is_empty s

-- The part of an address after its first `@`, if what precedes it is `[^\s@]+`.
unfoldable pub after_at : Bool → Text → Option Text
after_at seen [] = none
after_at seen (c ∷ s) =
    let rest = after_at true s in
    if c == b'@' then if seen then some s else none else if is_space c then none else rest

-- `[^\s@]*`
unfoldable pub all_plain : Text → Bool
all_plain [] = true
all_plain (c ∷ s) = not (is_space c || (c == b'@')) && all_plain s

-- A dot that is not the last character.
unfoldable pub has_dot_inside : Text → Bool
has_dot_inside [] = false
has_dot_inside (c ∷ s) = ((c == b'.') && not (is_empty s)) || has_dot_inside s

-- `[^\s@]+\.[^\s@]+`
unfoldable pub is_domain : Text → Bool
unfolding all_plain has_dot_inside
is_domain [] = false
is_domain (c ∷ s) = all_plain (c ∷ s) && has_dot_inside s

abbrev pub domain_fits : Option Text → Bool
domain_fits none = false
domain_fits (some d) = is_domain d

unfoldable pub is_valid_email : Text → Bool
unfolding after_at is_domain
is_valid_email s = domain_fits (after_at false s)

abbrev pub is_valid_address : Option Text → Bool
is_valid_address none = false
is_valid_address (some s) = is_valid_email (trim s)

-- `context.type.toLowerCase() === name`
abbrev pub is_type : Option Text → Text → Bool
is_type none name = false
is_type (some t) name = text_eq (to_lower_case t) name

module _ {S : Type 0} where
  -- `if (refused) throw new DomainException(…, INVALID_CONTEXT)`
  abbrev pub refuse_if : Bool → Exec S (Unit {0})
  refuse_if true = throw (domain invalid_context)
  refuse_if false = pure tt

  -- The checks on the recipient, and those of the channel.
  unfoldable pub check_recipient : Option Text → Option Recipient → Exec S (Unit {0})
  check_recipient type none = throw (domain invalid_context)
  check_recipient type (some r) = do
    refuse_if (
        is_blank r.customer_key
        && (is_blank r.user_id
            && (is_blank r.email && (is_blank r.phone && is_blank r.device_token))))
    refuse_if (is_blank r.name)
    refuse_if (is_type type (text "email") && is_blank r.email)
    refuse_if (is_type type (text "email") && not (is_valid_address r.email))
    refuse_if (is_type type (text "sms") && is_blank r.phone)
    refuse_if (is_type type (text "push") && is_blank r.device_token)

  unfoldable pub check_context : Context → Exec S (Unit {0})
  unfolding check_recipient
  check_context c = do
    refuse_if (is_blank c.notification_id)
    refuse_if (is_blank c.trace_id)
    refuse_if (is_missing c.type)
    refuse_if (is_missing c.priority)
    refuse_if (is_missing c.category)
    refuse_if (is_blank c.template_name)
    refuse_if (not (is_some c.template_data))
    check_recipient c.type c.recipient

unfoldable pub validate : {W : Type 0} → Stage W
unfolding check_context
validate next s = (check_context s.context >> next) s
