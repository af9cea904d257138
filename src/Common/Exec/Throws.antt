-- ===== src/Common/Exec/Throws.antt =====
-- Which exceptions a method may throw, one rule for each way to build a method.
use interiors_api_client.Common.Exception.{Exception}
use interiors_api_client.Common.Exec.{
  Result, ok, err, Exec, handle_result, try_catch, after_cleanup, finally, continue, ◌>>=◌, pure,
  throw, lift,
}

-- If the result is an exception, it satisfies `P`.
abbrev pub Within : {A : Type 0} → (Exception → Type 0) → Result A → Type 0
Within P (ok a) = Unit
Within P (err e) = P e

-- Whatever the method throws, from any state, satisfies `P`.
pub record Throws {S A : Type 0} (P : Exception → Type 0) (m : Exec S A) : Type 0 where
  pub at : (s : S) → Within P (m s).0

after_cleanup-Within :
    {S A : Type 0} (P : Exception → Type 0) (r : Result A) (c : Result (Unit {0})) (s : S)
    → Within P r
    → Within P c
    → Within P (after_cleanup r (c, s)).0
after_cleanup-Within P r (ok u) s hr hc = hr
after_cleanup-Within P r (err e) s hr hc = hc

Within-weaken :
    {A : Type 0} {P Q : Exception → Type 0} (r : Result A)
    → ((e : Exception) → Q e → P e)
    → Within Q r
    → Within P r
Within-weaken (ok a) w h = tt
Within-weaken (err e) w h = w e h

module _ {S A : Type 0} {P : Exception → Type 0} where
  handle_result-Within :
      (r : Result A) (h : Exception → Exec S A) (s : S)
      → ((e : Exception) → Throws P (h e))
      → Within P (handle_result r h s).0
  handle_result-Within (ok a) h s hh = tt
  handle_result-Within (err e) h s hh = (hh e).at s

  pub Throws-try_catch :
      (m : Exec S A) (h : Exception → Exec S A)
      → ((e : Exception) → Throws P (h e))
      → Throws P (try_catch m h)
  Throws-try_catch m h hh = record { at = λ s. handle_result-Within (m s).0 h (m s).1 hh }

  handle_result-caught :
      {Q : Exception → Type 0} (r : Result A) (h : Exception → Exec S A) (s : S)
      → Within Q r
      → ((e : Exception) → Q e → Throws P (h e))
      → Within P (handle_result r h s).0
  handle_result-caught (ok a) h s hr hh = tt
  handle_result-caught (err e) h s hr hh = (hh e hr).at s

  -- The handler is only given what the body can throw.
  pub Throws-catch :
      {Q : Exception → Type 0} {m : Exec S A} {h : Exception → Exec S A}
      → Throws Q m
      → ((e : Exception) → Q e → Throws P (h e))
      → Throws P (try_catch m h)
  Throws-catch {m = m} {h = h} hm hh = record {
    at = λ s. handle_result-caught (m s).0 h (m s).1 (hm.at s) hh;
  }

  pub Throws-weaken :
      {Q : Exception → Type 0} {m : Exec S A}
      → ((e : Exception) → Q e → P e)
      → Throws Q m
      → Throws P m
  Throws-weaken {m = m} w h = record { at = λ s. Within-weaken (m s).0 w (h.at s) }

  pub Throws-finally :
      {m : Exec S A} {c : Exec S (Unit {0})} → Throws P m → Throws P c → Throws P (finally m c)
  Throws-finally {m} {c} hm hc = record {
    at = λ s. after_cleanup-Within P (m s).0 (c (m s).1).0 (c (m s).1).1 (hm.at s) (hc.at (m s).1);
  }

  pub Throws-pure : (a : A) → Throws P (pure {S = S} a)
  Throws-pure a = record { at = λ s. tt }

  pub Throws-throw : {e : Exception} → P e → Throws P (throw {S = S} {A = A} e)
  Throws-throw p = record { at = λ s. p }

  pub Throws-lift : {r : Result A} → Within P r → Throws P (lift {S = S} r)
  Throws-lift h = record { at = λ s. h }

module _ {S A B : Type 0} {P : Exception → Type 0} where
  continue-Within :
      (r : Result A) (f : A → Exec S B) (s : S)
      → Within P r
      → ((a : A) → Throws P (f a))
      → Within P (continue r f s).0
  continue-Within (ok a) f s hr hf = (hf a).at s
  continue-Within (err e) f s hr hf = hr

  pub Throws-bind :
      {m : Exec S A} {f : A → Exec S B}
      → Throws P m
      → ((a : A) → Throws P (f a))
      → Throws P (m >>= f)
  Throws-bind {m} {f} hm hf = record { at = λ s. continue-Within (m s).0 f (m s).1 (hm.at s) hf }
