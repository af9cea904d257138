-- ===== src/Quotes/Keeps.antt =====
-- What stays in the history of calls: the methods of a submission that forget no earlier call.
use interiors_api_client.Common.{inl, inr, Option, none, some, Bool-cases}
use interiors_api_client.Common.Text.{Text, text_eq}
use interiors_api_client.Common.Json.{Json}
use interiors_api_client.Common.Exception.{Exception}
use interiors_api_client.Common.Exec.{
  Result, ok, err, Exec, ◌>>=◌, try_catch, throw, pure, handle_result, continue,
}
use interiors_api_client.Quotes.Desk.{Call, Record, Response, Desk, Services, invoke}
use interiors_api_client.Quotes.Idempotency.{
  IdempotencyContext, assert_same_payload, fingerprint, completed_of, get_completed_result,
}
use interiors_api_client.Quotes.Service.{
  Notice, send_notice, recover_by, answer_or_fail, fail_submission, is_fingerprint_race,
  is_idempotency_conflict,
}
use mathlib.Core.List.{Memᴰ}

-- A method that keeps a call in the history.
pub record Keeps {W A : Type 0} (c : Call) (m : Exec (Desk W) A) : Type 0 where
  pub at : (s : Desk W) → Memᴰ c s.calls → Memᴰ c (m s).1.calls

module _ {W A : Type 0} {c : Call} where
  pub Keeps-invoke : (d : Call) (f : Exec W A) → Keeps c (invoke d f)
  Keeps-invoke d f = record { at = λ s h. Memᴰ.tail h }

  pub Keeps-pure : {a : A} → Keeps {W = W} c (pure a)
  Keeps-pure = record { at = λ s h. h }

  pub Keeps-throw : {e : Exception} → Keeps {W = W} {A = A} c (throw e)
  Keeps-throw = record { at = λ s h. h }

  pub handle_result-Keeps :
      (r : Result A) (h : Exception → Exec (Desk W) A) (s : Desk W)
      → ((e : Exception) → Keeps c (h e))
      → Memᴰ c s.calls
      → Memᴰ c (handle_result r h s).1.calls
  handle_result-Keeps (ok a) h s hh m = m
  handle_result-Keeps (err e) h s hh m = (hh e).at s m

  pub Keeps-try_catch :
      {m : Exec (Desk W) A} {h : Exception → Exec (Desk W) A}
      → Keeps c m
      → ((e : Exception) → Keeps c (h e))
      → Keeps c (try_catch m h)
  Keeps-try_catch {m} {h} hm hh = record {
    at = λ s x. handle_result-Keeps (m s).0 h (m s).1 hh (hm.at s x);
  }

module _ {W A B : Type 0} {c : Call} where
  pub continue-Keeps :
      (r : Result A) (f : A → Exec (Desk W) B) (s : Desk W)
      → ((a : A) → Keeps c (f a))
      → Memᴰ c s.calls
      → Memᴰ c (continue r f s).1.calls
  continue-Keeps (ok a) f s hf m = (hf a).at s m
  continue-Keeps (err e) f s hf m = m

  pub Keeps-bind :
      {m : Exec (Desk W) A} {f : A → Exec (Desk W) B}
      → Keeps c m
      → ((a : A) → Keeps c (f a))
      → Keeps c (m >>= f)
  Keeps-bind {m} {f} hm hf = record { at = λ s x. continue-Keeps (m s).0 f (m s).1 hf (hm.at s x) }

module _ {W : Type 0} (services : Services W) where
  module _ {c : Call} where
    assert_same_payload-Keeps :
        (found : Text) (payload : Json) → Keeps c (assert_same_payload services found payload)
    unfolding assert_same_payload
    assert_same_payload-Keeps found payload =
        elim (Bool-cases (text_eq found (fingerprint services payload))) [
          | inl e ↦ rw e Keeps-pure
          | inr e ↦ rw e Keeps-throw
        ]

    completed_of-Keeps :
        (payload : Json) (found : Option Record) → Keeps c (completed_of services payload found)
    completed_of-Keeps payload none = Keeps-pure
    completed_of-Keeps payload (some r) =
        Keeps-bind (assert_same_payload-Keeps r.request_fingerprint payload) (λ _. Keeps-pure)

    get_completed_result-Keeps :
        (i : IdempotencyContext) → Keeps c (get_completed_result services i)
    unfolding get_completed_result
    get_completed_result-Keeps i = Keeps-bind (Keeps-invoke _ _) (completed_of-Keeps i.request)

    fail_submission-Keeps : (e : Exception) → Keeps c (fail_submission services e)
    unfolding fail_submission
    fail_submission-Keeps e = elim (Bool-cases (is_fingerprint_race e)) [
      | inl race ↦ rw race Keeps-throw
      | inr other ↦ rw other (Keeps-bind (Keeps-invoke _ _) (λ _. Keeps-throw))
    ]

    answer_or_fail-Keeps :
        (e : Exception) (o : Option Response) → Keeps c (answer_or_fail services e o)
    answer_or_fail-Keeps e (some r) = Keeps-pure
    answer_or_fail-Keeps e none = fail_submission-Keeps e

    pub recover_by-Keeps :
        (i : IdempotencyContext) (e : Exception) → Keeps c (recover_by services i e)
    recover_by-Keeps i e = elim (Bool-cases (is_idempotency_conflict e)) [
      | inl clash ↦ rw clash (Keeps-bind (get_completed_result-Keeps i) (answer_or_fail-Keeps e))
      | inr other ↦ rw other (fail_submission-Keeps e)
    ]

    pub send_notice-Keeps : (n : Notice) → Keeps c (send_notice services n)
    unfolding send_notice
    send_notice-Keeps n = Keeps-try_catch (Keeps-invoke _ _) (λ e. Keeps-pure)
