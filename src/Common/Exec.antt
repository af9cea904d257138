-- ===== src/Common/Exec.antt =====
-- Asynchronous methods that change a state and may throw. What was done before a throw stays done,
-- so the state comes back beside the exception too. `await` is the bind: a method is one sequence
-- of steps.
pub mod Throws
use mathlib.Core.Path.{◌≡◌, refl}
use mathlib.Core.Logic.{◌⊎◌, inl, inr}
use mathlib.Core.Bool.{Bool, true, false}
use interiors_api_client.Common.Exception.{Exception}

pub data Result (A : Type 0) : Type 0 where
  ok : A → Result A
  err : Exception → Result A

abbrev pub Exec : Type 0 → Type 0 → Type 0
Exec S A = S → Result A × S

module _ {S A : Type 0} where
  abbrev pub pure : A → Exec S A
  pure a s = (ok a, s)

  abbrev pub throw : Exception → Exec S A
  throw e s = (err e, s)

  abbrev pub lift : Result A → Exec S A
  lift r s = (r, s)

  abbrev pub handle_result : Result A → (Exception → Exec S A) → Exec S A
  handle_result (ok a) h s = (ok a, s)
  handle_result (err e) h s = h e s

  -- `try { m } catch (e) { h(e) }`
  abbrev pub try_catch : Exec S A → (Exception → Exec S A) → Exec S A
  try_catch m h s = let (r, s') = m s in handle_result r h s'

  abbrev pub after_cleanup : Result A → Result (Unit {0}) × S → Result A × S
  after_cleanup r (ok u, s) = (r, s)
  after_cleanup r (err e, s) = (err e, s)

  -- `try { m } finally { c }`
  abbrev pub finally : Exec S A → Exec S (Unit {0}) → Exec S A
  finally m c s = let (r, s') = m s in after_cleanup r (c s')

abbrev pub modify : {S : Type 0} → (S → S) → Exec S (Unit {0})
modify f s = (ok tt, f s)

abbrev pub gets : {S A : Type 0} → (S → A) → Exec S A
gets f s = (ok (f s), s)

module _ {S A B : Type 0} where
  abbrev pub continue : Result A → (A → Exec S B) → Exec S B
  continue (ok a) f s = f a s
  continue (err e) f s = (err e, s)

  infixl 5 ◌>>=◌ ◌>>◌
  abbrev pub ◌>>=◌ : Exec S A → (A → Exec S B) → Exec S B
  ◌>>=◌ m f s = let (r, s') = m s in continue r f s'

  abbrev pub ◌>>◌ : Exec S A → Exec S B → Exec S B
  m >> k = m >>= λ _. k

-- A chain of results, in code that changes no state.
abbrev pub and_then : {A B : Type 0} → Result A → (A → Result B) → Result B
and_then (ok a) f = f a
and_then (err e) f = err e

-- A chain that returned went through its first method.
pub continue-eq-ok :
    {S A B : Type 0} (r : Result A) (f : A → Exec S B) (s : S) (b : B)
    → (continue r f s).0 ≡ ok b
    → (a : A) × (r ≡ ok a) × ((f a s).0 ≡ ok b)
continue-eq-ok (ok a) f s b h = (a, refl, h)
continue-eq-ok (err e) f s b h = cc

-- The same, with the state: the chain is what follows its first method.
pub continue-ran :
    {S A B : Type 0} (r : Result A) (f : A → Exec S B) (s : S) (b : B)
    → (continue r f s).0 ≡ ok b
    → (a : A) × (r ≡ ok a) × (continue r f s ≡ f a s)
continue-ran (ok a) f s b h = (a, refl, refl)
continue-ran (err e) f s b h = absurd (cc)

pub continue_ok :
    {S A B : Type 0} (r : Result A) (f : A → Exec S B) (s : S) (a : A) (b : B)
    → r ≡ ok a
    → (f a s).0 ≡ ok b
    → (continue r f s).0 ≡ ok b
continue_ok r f s a b e h = rw e h

-- To split on a computed result and keep the equation.
pub Result-cases :
    {A : Type 0} (r : Result A) → ((a : A) × (r ≡ ok a)) ⊎ ((e : Exception) × (r ≡ err e))
Result-cases (ok a) = inl (a, refl)
Result-cases (err e) = inr (e, refl)

-- `if (b) m` on a step with no result.
abbrev pub when : {S : Type 0} → Bool → Exec S (Unit {0}) → Exec S (Unit {0})
when true m = m
when false m = pure tt
