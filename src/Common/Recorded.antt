-- ===== src/Common/Recorded.antt =====
-- Methods that call what is outside: the calls are kept, newest first, beside the state of the
-- outside. With rules for what a method can add to them.
use mathlib.Core.Path.{◌≡◌, refl, ap, sym, ◌∙◌}
use mathlib.Core.List.{List, [], ◌∷◌, ◌++◌, append_assoc}
use mathlib.Core.Bool.{Bool, true, false}
use interiors_api_client.Common.Tests.{if◌then◌else◌}
use interiors_api_client.Common.Lists.{All}
use interiors_api_client.Common.Exception.{Exception}
use interiors_api_client.Common.Exec.{
  Result, ok, err, Exec, pure, throw, lift, handle_result, try_catch, continue, ◌>>=◌,
}

pub record Recorded (C W : Type 0) : Type 0 where
  pub calls : List C
  pub outside : W

-- A call is written down, and may change what is outside.
abbrev pub call : {C W A : Type 0} → C → Exec W A → Exec (Recorded C W) A
call c f s = let (r, w) = f s.outside in (r, record { calls = c ∷ s.calls; outside = w })

-- The calls that were added all satisfy `P`.
abbrev pub OnlyNew : {C : Type 0} → (C → Type 0) → List C → List C → Type 0
OnlyNew {C} P before after = (made : List C) × (after ≡ made ++ before) × All P made

All-append : {C : Type 0} (P : C → Type 0) (xs ys : List C) → All P xs → All P ys → All P (xs ++ ys)
All-append P [] ys hx hy = hy
All-append P (x ∷ xs) ys hx hy = (hx.0, All-append P xs ys hx.1 hy)

pub OnlyNew-refl : {C : Type 0} {P : C → Type 0} (cs : List C) → OnlyNew P cs cs
OnlyNew-refl cs = ([], refl, tt)

pub OnlyNew-trans :
    {C : Type 0} {P : C → Type 0} (xs ys zs : List C)
    → OnlyNew P xs ys
    → OnlyNew P ys zs
    → OnlyNew P xs zs
OnlyNew-trans {P} xs ys zs (made, e, all) (more, f, all') = (
  more ++ made,
  f ∙ ap (λ cs. more ++ cs) e ∙ sym (append_assoc more made xs),
  All-append P more made all' all,
)

-- Whatever the state, the method adds only calls that satisfy `P`.
pub record Adds {C W A : Type 0} (P : C → Type 0) (m : Exec (Recorded C W) A) : Type 0 where
  pub at : (s : Recorded C W) → OnlyNew P s.calls (m s).1.calls

module _ {C W A : Type 0} {P : C → Type 0} where
  pub Adds-call : (c : C) (f : Exec W A) → P c → Adds P (call c f)
  Adds-call c f p = record { at = λ s. (c ∷ [], refl, (p, tt)) }

  pub Adds-pure : (a : A) → Adds {W = W} P (pure a)
  Adds-pure a = record { at = λ s. OnlyNew-refl s.calls }

  pub Adds-throw : (e : Exception) → Adds {W = W} {A = A} P (throw e)
  Adds-throw e = record { at = λ s. OnlyNew-refl s.calls }

  pub Adds-lift : (r : Result A) → Adds {W = W} P (lift r)
  Adds-lift r = record { at = λ s. OnlyNew-refl s.calls }

  pub Adds-if :
      (b : Bool) {m n : Exec (Recorded C W) A} → Adds P m → Adds P n → Adds P (if b then m else n)
  Adds-if true hm hn = hm
  Adds-if false hm hn = hn

  handle_result-OnlyNew :
      (r : Result A) (h : Exception → Exec (Recorded C W) A) (s : Recorded C W) (before : List C)
      → OnlyNew P before s.calls
      → ((e : Exception) → Adds P (h e))
      → OnlyNew P before (handle_result r h s).1.calls
  handle_result-OnlyNew (ok a) h s before n hh = n
  handle_result-OnlyNew (err e) h s before n hh =
      OnlyNew-trans before s.calls (h e s).1.calls n ((hh e).at s)

  pub Adds-try_catch :
      {m : Exec (Recorded C W) A} {h : Exception → Exec (Recorded C W) A}
      → Adds P m
      → ((e : Exception) → Adds P (h e))
      → Adds P (try_catch m h)
  Adds-try_catch {m} {h} hm hh = record {
    at = λ s. handle_result-OnlyNew (m s).0 h (m s).1 s.calls (hm.at s) hh;
  }

module _ {C W A B : Type 0} {P : C → Type 0} where
  pub continue-OnlyNew :
      (r : Result A) (f : A → Exec (Recorded C W) B) (s : Recorded C W) (before : List C)
      → OnlyNew P before s.calls
      → ((a : A) → r ≡ ok a → Adds P (f a))
      → OnlyNew P before (continue r f s).1.calls
  continue-OnlyNew (ok a) f s before n hf =
      OnlyNew-trans before s.calls (f a s).1.calls n ((hf a refl).at s)
  continue-OnlyNew (err e) f s before n hf = n

  pub Adds-bind :
      {m : Exec (Recorded C W) A} {f : A → Exec (Recorded C W) B}
      → Adds P m
      → ((a : A) → Adds P (f a))
      → Adds P (m >>= f)
  Adds-bind {m} {f} hm hf = record {
    at = λ s. continue-OnlyNew (m s).0 f (m s).1 s.calls (hm.at s) (λ a _. hf a);
  }

  -- The continuation of a computed result knows where its argument comes from.
  pub Adds-lift_bind :
      {r : Result A} {f : A → Exec (Recorded C W) B}
      → ((a : A) → r ≡ ok a → Adds P (f a))
      → Adds P (lift r >>= f)
  Adds-lift_bind {r} {f} hf = record {
    at = λ s. continue-OnlyNew r f s s.calls (OnlyNew-refl s.calls) hf;
  }
