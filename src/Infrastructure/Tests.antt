-- ===== src/Infrastructure/Tests.antt =====
-- Witnesses for the registry of breakers (breakers that are numbers, and breakers that are switches in
-- two lists), for the limiters of the cache and for reCAPTCHA.
mod Starts
use interiors_api_client.Common.{ℕ, ◌≡◌, refl, ◌+◌, Bool, false, none, List, [], ◌∷◌}
use interiors_api_client.Common.Text.{Text, text, text_eq}
use interiors_api_client.Infrastructure.Breakers.{Options, Opossum, Factory}
use interiors_api_client.Infrastructure.Breakers.Commands.{
  Command, get_or_create, find, resetting_all, removing,
}
use interiors_api_client.Infrastructure.Cache.{Limit, sliding_window, token_bucket, Ratelimit}
use interiors_api_client.Common.{ltb}
use interiors_api_client.Common.Exec.{ok}
use interiors_api_client.Common.{true, ◌↔◌}
use interiors_api_client.Common.Text.{trim, to_lower_case}
use interiors_api_client.Common.Decimal.{decimal}
use interiors_api_client.Infrastructure.Recaptcha.{
  Value, bool, string, number, finite, object, Verifier, Recaptcha, verify,
}
use interiors_api_client.Infrastructure.Recaptcha.Accepted.{IsAccepted, verify-accepts_iff}

-- How many breakers were made, and whether they are open and shut down, all at once.
record Switch : Type 0 where
  made : ℕ
  open_all : Bool
  shut_all : Bool

abbrev switched : Opossum ℕ ℕ Switch
switched = record {
  make = λ s w. (w.made, record w { made = w.made + 1 });
  close = λ b w. record w { open_all = false };
  shutdown = λ b w. record w { shut_all = true };
  opened = λ b w. w.open_all;
  half_open = λ b w. false;
  to_json = λ b w. b;
}

abbrev is_shutdown : ℕ → Switch → Bool
is_shutdown b w = w.shut_all

abbrev defaults : Options
defaults = record {
  timeout = none;
  error_threshold_percentage = none;
  reset_timeout = none;
  rolling_count_timeout = none;
  rolling_count_buckets = none;
  capacity = none;
  volume_threshold = none;
}

abbrev two_breakers : Factory ℕ Switch
two_breakers = record {
  breakers = (text "redis", 0) ∷ (text "mail", 1) ∷ [];
  outside = record { made = 2; open_all = true; shut_all = false };
}

abbrev calls : List Command
calls = resetting_all ∷ removing (text "mail") ∷ find (text "redis") ∷ []

-- A limiter is what it was made with, and lets a request through while the outside has room.
abbrev plain_limits : Ratelimit Limit ℕ
plain_limits = record { make = λ c. c; limit = λ c key w. (ok (ltb w 2), w + 1) }

abbrev asked : List (Text × Limit)
asked =
    (text "a", sliding_window 1 60)
    ∷ (text "b", token_bucket 1 60 5)
    ∷ (text "a", sliding_window 1 60)
    ∷ []

-- A verifier that answers every token with the same fields.
abbrev fields : List (Text × Value)
fields =
    (text "success", bool true)
    ∷ (text "action", string (text "quote_submit"))
    ∷ (text "hostname", string (text "Site.org"))
    ∷ (text "score", number (finite (decimal 9 1)))
    ∷ []

abbrev verifier : Verifier ℕ
verifier = record { fetch = λ s t w. (ok true, w); json = λ w. (ok (object fields), w) }

abbrev site : Recaptcha
site = record { secret = text "s"; hostnames = text "site.org" ∷ []; min_score = decimal 5 1 }

verify-accepts_iff_example :
    ((verify site verifier (text "t") (text "quote_submit") 0).0 ≡ ok tt)
    ↔ IsAccepted site verifier (text "t") (text "quote_submit") 0
verify-accepts_iff_example = verify-accepts_iff site verifier (text "t") (text "quote_submit") 0

accepted_runs : (verify site verifier (text "t") (text "quote_submit") 0).0 ≡ ok tt
unfolding verify text_eq trim to_lower_case
accepted_runs = refl
