-- ===== src/Notifications/Stages/RateLimit.antt =====
-- `RateLimiterStage` (pipeline/stages/rate-limiter.stage.ts).
use interiors_api_client.Common.{
  ℕ, Bool, true, false, Option, none, some, ◌++◌, if◌then◌else◌, is_empty,
}
use interiors_api_client.Common.Text.{Text, text, trim, to_lower_case, text_eq}
use interiors_api_client.Common.Exception.{
  Exception, application, error, rate_limited, is_application,
}
use interiors_api_client.Common.Exec.{Exec, pure, throw, try_catch, ◌>>=◌, ◌>>◌}
use interiors_api_client.Notifications.Context.{
  Context, Recipient, Services, Stage, Run, invoke, sliding_window,
}

-- constants/notification.constants.ts
abbrev pub max_emails_per_user_per_hour : ℕ
max_emails_per_user_per_hour = 10

abbrev pub email_rate_limit_window_seconds : ℕ
email_rate_limit_window_seconds = 3600

abbrev pub max_marketing_emails_per_user_per_day : ℕ
max_marketing_emails_per_user_per_day = 3

abbrev pub marketing_rate_limit_window_seconds : ℕ
marketing_rate_limit_window_seconds = 86400

-- `a || b`, on texts that may be absent
abbrev pub or_else : Option Text → Option Text → Option Text
or_else none b = b
or_else (some s) b = if is_empty s then b else some s

-- `value?.toLowerCase() === name`
abbrev pub is_named : Option Text → Text → Bool
is_named none name = false
is_named (some t) name = text_eq (to_lower_case t) name

unfoldable pub limit_of : Context → ℕ × ℕ
limit_of c =
    if is_named c.category (text "marketing")
    then (max_marketing_emails_per_user_per_day, marketing_rate_limit_window_seconds)
    else if is_named c.type (text "email")
    then (max_emails_per_user_per_hour, email_rate_limit_window_seconds)
    else (max_emails_per_user_per_hour, email_rate_limit_window_seconds)

abbrev normalized : Option Text → Option Text
normalized none = none
normalized (some s) = some (to_lower_case (trim s))

unfoldable pub identifier_of : Recipient → Option Text
identifier_of r = or_else r.customer_key (or_else r.user_id (or_else (normalized r.email) r.phone))

abbrev truthy : Option Text → Option Text
truthy o = or_else o none

-- `context.category || "default"`
abbrev category_of : Option Text → Text
category_of none = text "default"
category_of (some s) = if is_empty s then text "default" else s

unfoldable pub limit_key : Context → Text → Text
limit_key c identifier =
    text "notify:limit:" ++ (category_of c.category ++ (text ":" ++ identifier))

module _ {W : Type 0} (services : Services W) where
  open services use {cache_sliding_window}

  abbrev pub refuse_unless : Bool → Exec (Run W) (Unit {0})
  refuse_unless true = pure tt
  refuse_unless false = throw (application rate_limited)

  unfoldable pub check_limit : Context → Text → Exec (Run W) (Unit {0})
  check_limit c identifier = do
    allowed ←
        invoke (sliding_window (limit_key c identifier) (limit_of c).0 (limit_of c).1)
          (cache_sliding_window (limit_key c identifier) (limit_of c).0 (limit_of c).1)
    refuse_unless allowed

  -- The body of the `try` block. With no recipient the access to its fields throws.
  unfoldable pub check_identity : Context → Option Text → Exec (Run W) (Unit {0})
  unfolding check_limit
  check_identity c none = pure tt
  check_identity c (some identifier) = check_limit c identifier

  unfoldable pub check_rate : Option Recipient → Context → Exec (Run W) (Unit {0})
  unfolding check_identity
  check_rate none c = throw error
  check_rate (some r) c = check_identity c (truthy (identifier_of r))

  -- Whatever is not an `ApplicationException` runs the rest of the pipeline.
  abbrev pub fail_open : Exec (Run W) (Unit {0}) → Exception → Exec (Run W) (Unit {0})
  fail_open next e = if is_application e then throw e else next

  unfoldable pub limit_rate : Stage W
  unfolding check_rate
  limit_rate next s =
      try_catch (check_rate s.context.recipient s.context >> next) (fail_open next) s
