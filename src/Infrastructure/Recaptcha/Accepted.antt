-- ===== src/Infrastructure/Recaptcha/Accepted.antt =====
-- When a token is accepted, and what is thrown otherwise.
use interiors_api_client.Common.{
  ◌≡◌, ◌↔◌, refl, ap, ◌∙◌, Bool, true, false, not, ◌&&◌, Option, none, some, List, if◌then◌else◌,
  is_empty, any, arith, inl, inr, Bool-cases,
}
use interiors_api_client.Common.Text.{Text, text, text_eq, trim, to_lower_case}
use interiors_api_client.Common.Text.Laws.{text_eq_refl, text_eq_iff}
use interiors_api_client.Common.Decimal.{Decimal, whole}
use interiors_api_client.Common.Exception.{forbidden, service_unavailable}
use interiors_api_client.Common.Exec.{Result, ok, err, lift, Result-cases, continue-eq-ok}
use interiors_api_client.Infrastructure.Recaptcha.{
  Number, finite, Value, bool, number, string, array, other, Body, object, no_object, Recaptcha,
  Verifier, field_of, less, is_bool, secret_refused, is_success, is_action, is_known_host,
  is_high_score, judge, judge_body, ask, verify,
}

-- The answer of the verifier is for this site and this action, with a score in the range.
pub record IsGenuine (r : Recaptcha) (action : Text) (fields : List (Text × Value)) : Type 0 where
  pub configured : secret_refused (field_of (text "error-codes") fields) ≡ false
  pub succeeded : field_of (text "success") fields ≡ some (bool true)
  pub for_action : field_of (text "action") fields ≡ some (string action)
  pub host : Text
  pub from_host : field_of (text "hostname") fields ≡ some (string host)
  pub allowed : any (λ k. text_eq k (to_lower_case host)) r.hostnames ≡ true
  pub score : Decimal
  pub scored : field_of (text "score") fields ≡ some (number (finite score))
  pub high_enough : less score r.min_score ≡ false
  pub in_range : less (whole 1) score ≡ false

both_true : (a b : Bool) → a && b ≡ true → (a ≡ true) × (b ≡ true)
both_true true b h = (refl, h)
both_true false b h = cc

eq_false_of_not : (a : Bool) → not a ≡ true → a ≡ false
eq_false_of_not true h = cc
eq_false_of_not false h = refl

is_success-eq : (v : Option Value) → is_success v ≡ true → v ≡ some (bool true)
is_success-eq none h = cc
is_success-eq (some (bool b)) h = ap (λ c. some (bool c)) h
is_success-eq (some (number n)) h = cc
is_success-eq (some (string s)) h = cc
is_success-eq (some (array c)) h = cc
is_success-eq (some other) h = cc

is_action-eq : (a : Text) (v : Option Value) → is_action a v ≡ true → v ≡ some (string a)
is_action-eq a none h = cc
is_action-eq a (some (bool b)) h = cc
is_action-eq a (some (number n)) h = cc
is_action-eq a (some (string s)) h = ap (λ t. some (string t)) ((text_eq_iff s a).0 h)
is_action-eq a (some (array c)) h = cc
is_action-eq a (some other) h = cc

is_known_host-eq :
    (hosts : List Text) (v : Option Value)
    → is_known_host hosts v ≡ true
    → (h : Text) × (v ≡ some (string h)) × (any (λ k. text_eq k (to_lower_case h)) hosts ≡ true)
is_known_host-eq hosts none h = cc
is_known_host-eq hosts (some (bool b)) h = cc
is_known_host-eq hosts (some (number n)) h = cc
is_known_host-eq hosts (some (string s)) h = (s, refl, h)
is_known_host-eq hosts (some (array c)) h = cc
is_known_host-eq hosts (some other) h = cc

is_high_score-eq :
    (min : Decimal) (v : Option Value)
    → is_high_score min v ≡ true
    → (d : Decimal) × (v ≡ some (number (finite d)))
      × (less d min ≡ false)
      × (less (whole 1) d ≡ false)
is_high_score-eq min none h = cc
is_high_score-eq min (some (bool b)) h = cc
is_high_score-eq min (some (number (finite d))) h =
    let (high, low) = both_true (not (less d min)) (not (less (whole 1) d)) h in
    (d, refl, eq_false_of_not (less d min) high, eq_false_of_not (less (whole 1) d) low)
is_high_score-eq min (some (number Number.below_zero)) h = cc
is_high_score-eq min (some (number Number.not_finite)) h = cc
is_high_score-eq min (some (string s)) h = cc
is_high_score-eq min (some (array c)) h = cc
is_high_score-eq min (some other) h = cc

-- What `judge` makes of its three tests.
abbrev judged : Bool → Bool → Bool → Result (Unit {0})
judged a b c =
    if not a
    then err service_unavailable
    else if b
    then err service_unavailable
    else if c
    then ok tt
    else err forbidden

judged_lem : (a b c : Bool) → judged a b c ≡ ok tt → (b ≡ false) × (c ≡ true)
judged_lem true true c h = cc
judged_lem true false true h = (refl, refl)
judged_lem true false false h = cc
judged_lem false b c h = cc

judge-eq-ok :
    {W : Type 0} (r : Recaptcha) (io : Verifier W) (action : Text) (fields : List (Text × Value))
    → judge r io action fields ≡ ok tt
    → IsGenuine r action fields
unfolding judge
judge-eq-ok r io action fields h =
    let tested : (secret_refused (field_of (text "error-codes") fields) ≡ false)
        × (is_success (field_of (text "success") fields)
              && (is_action action (field_of (text "action") fields)
                  && (is_known_host r.hostnames (field_of (text "hostname") fields)
                      && is_high_score r.min_score (field_of (text "score") fields)))
            ≡ true) =
      judged_lem (is_bool (field_of (text "success") fields)) _ _ h in
    let (success, rest) = both_true (is_success (field_of (text "success") fields)) _ tested.1 in
    let (for_action, rest') =
      both_true (is_action action (field_of (text "action") fields)) _ rest in
    let (host, score) =
      both_true (is_known_host r.hostnames (field_of (text "hostname") fields)) _ rest' in
    let (h', from, allowed) = is_known_host-eq r.hostnames _ host in
    let (d, scored, high, low) = is_high_score-eq r.min_score _ score in
    record {
      configured = tested.0;
      succeeded = is_success-eq _ success;
      for_action = is_action-eq action _ for_action;
      host = h';
      from_host = from;
      allowed = allowed;
      score = d;
      scored = scored;
      high_enough = high;
      in_range = low;
    }

judge-IsGenuine :
    {W : Type 0} (r : Recaptcha) (io : Verifier W) (action : Text) (fields : List (Text × Value))
    → IsGenuine r action fields
    → judge r io action fields ≡ ok tt
unfolding judge
judge-IsGenuine r io action fields g =
    rw
      (
        g.succeeded,
        g.configured,
        g.for_action,
        g.from_host,
        g.scored,
        g.allowed,
        g.high_enough,
        g.in_range,
        text_eq_refl action,
      )
      refl

module _ {W : Type 0} (r : Recaptcha) (io : Verifier W) where
  -- The token and the action are there, and the verifier was reached and answers with an object
  -- that is genuine.
  pub record IsAccepted (token action : Text) (w : W) : Type 0 where
    pub given : is_empty (trim token) ≡ false
    pub asked : is_empty (trim action) ≡ false
    pub reached : (io.fetch r.secret token w).0 ≡ ok true
    pub fields : List (Text × Value)
    pub answered : (io.json (io.fetch r.secret token w).1).0 ≡ ok (object fields)
    pub genuine : IsGenuine r action fields

  ask-eq-ok :
      (token : Text) (w : W) (body : Body)
      → (ask r io token w).0 ≡ ok body
      → ((io.fetch r.secret token w).0 ≡ ok true)
        × ((io.json (io.fetch r.secret token w).1).0 ≡ ok body)
  unfolding ask
  ask-eq-ok token w body h = elim (Result-cases (io.fetch r.secret token w).0) [
    | inl (true, e) ↦ elim (Result-cases (io.json (io.fetch r.secret token w).1).0) [
      | inl (b, f) ↦ (e, ground (arith, e, f))
      | inr (x, f) ↦ absurd (ground (arith, e, f))
    ]
    | inl (false, e) ↦ absurd (ground (arith, e))
    | inr (x, e) ↦ absurd (ground (arith, e))
  ]

  ask-reached :
      (token : Text) (w : W) (body : Body)
      → (io.fetch r.secret token w).0 ≡ ok true
      → (io.json (io.fetch r.secret token w).1).0 ≡ ok body
      → (ask r io token w).0 ≡ ok body
  unfolding ask
  ask-reached token w body e f = rw (e, f) refl

  judge_body-object :
      (action : Text) (body : Body)
      → judge_body r io action body ≡ ok tt
      → (fields : List (Text × Value)) × (body ≡ object fields) × IsGenuine r action fields
  judge_body-object action (object fields) h = (fields, refl, judge-eq-ok r io action fields h)
  judge_body-object action no_object h = cc

  verify-IsAccepted :
      (token action : Text) (w : W)
      → (verify r io token action w).0 ≡ ok tt
      → IsAccepted token action w
  unfolding verify
  verify-IsAccepted token action w h = elim (Bool-cases (is_empty (trim token))) [
    | inl e ↦ absurd (ground (arith, e))
    | inr e ↦ elim (Bool-cases (is_empty (trim action))) [
      | inl f ↦ absurd (ground (arith, e, f))
      | inr f ↦
          let (body, got, judged) =
            continue-eq-ok (ask r io token w).0 (λ body. lift (judge_body r io action body))
              (ask r io token w).1 tt (rw (e, f) at h) in
          let (reached, answered) = ask-eq-ok token w body got in
          let (fields, same, genuine) = judge_body-object action body judged in
          record {
            given = e;
            asked = f;
            reached = reached;
            fields = fields;
            answered = answered ∙ ap ok same;
            genuine = genuine;
          }
    ]
  ]

  IsAccepted-verify :
      (token action : Text) (w : W)
      → IsAccepted token action w
      → (verify r io token action w).0 ≡ ok tt
  unfolding verify
  IsAccepted-verify token action w a =
      rw (a.given, a.asked, ask-reached token w (object a.fields) a.reached a.answered)
        (judge-IsGenuine r io action a.fields a.genuine)

  -- A token is accepted exactly if the token and the expected action are more than white space, the
  -- verifier was reached and answers with an object that says success, carries no error code about
  -- the secret, has the expected action, the name of one of the configured hosts in lower case, and
  -- a finite score that is neither below the configured one nor above 1.
  pub verify-accepts_iff :
      (token action : Text) (w : W)
      → ((verify r io token action w).0 ≡ ok tt) ↔ IsAccepted token action w
  verify-accepts_iff token action w =
      (verify-IsAccepted token action w, IsAccepted-verify token action w)
