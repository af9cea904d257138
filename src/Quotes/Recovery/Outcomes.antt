-- ===== src/Quotes/Recovery/Outcomes.antt =====
-- The outcomes of the `catch` block, by the kind of the exception.
use interiors_api_client.Common.{
  ℕ, ◌≡◌, ◌≢◌, refl, ap, sym, ◌∙◌, ◌↔◌, inl, inr, true, false, Option, none, some, List, [], ◌∷◌,
  ◌++◌, any, ◌==◌, arith, Bool-cases,
}
use interiors_api_client.Common.Text.{Text, text, text_eq}
use interiors_api_client.Common.Text.Laws.{text_eq_iff}
use interiors_api_client.Common.Exception.{Exception, conflict, driver}
use interiors_api_client.Common.Exec.{Result, ok, err}
use interiors_api_client.Quotes.Desk.{Response, Desk, Services}
use interiors_api_client.Quotes.Guard.{release_lock}
use interiors_api_client.Quotes.Idempotency.{IdempotencyContext, get_completed_result}
use interiors_api_client.Quotes.Service.{
  Outcome, answered, already_processed, is_idempotency_conflict, is_fingerprint_race, includes,
  starts, recover,
}
use interiors_api_client.Quotes.Recovery.{recovered, failed, answered_or_failed, recover_lem}
use mathlib.Core.List.{Memᴰ}

-- The text stands somewhere in the message.
abbrev pub StandsIn : Text → Text → Type 0
StandsIn w m = (a b : Text) × (m ≡ a ++ (w ++ b))

-- A conflict that is not about the fingerprint, as those over the idempotency key are.
pub data IsKeyConflict : Exception → Type 0 where
  key_conflict : {m : Text} → (StandsIn (text "fingerPrint") m → ⊥) → IsKeyConflict (conflict m)

-- The database refused a second document with the same fingerprint.
pub data IsRace : Exception → Type 0 where
  race :
      {code : ℕ} {keys : List Text}
      → code ≡ 11000
      → Memᴰ (text "fingerPrint") keys
      → IsRace (driver code keys)

-- What a submission ends with after an exception, where `looked` is what the lookup of a result that
-- a concurrent request has completed gives.
pub data Recovers (looked : Result (Option Response)) (e : Exception)
    : Result Outcome → Type 0 where
  replays :
      (r : Response) → IsKeyConflict e → looked ≡ ok (some r) → Recovers looked e (ok (answered r))
  lookup_fails : (x : Exception) → IsKeyConflict e → looked ≡ err x → Recovers looked e (err x)
  race_refused : IsRace e → Recovers looked e (err already_processed)
  throws_again : (IsRace e → ⊥) → (IsKeyConflict e → looked ≡ ok none) → Recovers looked e (err e)

false-ne-true : false ≢ true
false-ne-true e = cc

starts-split : (w m : Text) → starts w m ≡ true → (b : Text) × (m ≡ w ++ b)
starts-split [] m h = (m, refl)
starts-split (p ∷ w) [] h = absurd (cc)
starts-split (p ∷ w) (c ∷ m) h =
    let (b, e) = starts-split w m (ground (arith, h)) in
    let same : c ≡ p = ground (arith, h) in (b, rw (same, e) refl)

split-starts : (w b : Text) → starts w (w ++ b) ≡ true
split-starts [] b = refl
split-starts (p ∷ w) b = ground (arith, split-starts w b)

includes-StandsIn : (w m : Text) → includes w m ≡ true → StandsIn w m
includes-StandsIn w [] h = let (b, e) = starts-split w [] h in ([], b, e)
includes-StandsIn w (c ∷ m) h = elim (Bool-cases (starts w (c ∷ m))) [
  | inl e ↦ let (b, e') = starts-split w (c ∷ m) e in ([], b, e')
  | inr e ↦
      let (a, b, e') = includes-StandsIn w m (rw e at h) in (c ∷ a, b, ap (λ (t : Text). c ∷ t) e')
]

starts-includes : (w m : Text) → starts w m ≡ true → includes w m ≡ true
starts-includes w [] h = h
starts-includes w (c ∷ m) h = rw h refl

append-includes : (w a b : Text) → includes w (a ++ (w ++ b)) ≡ true
append-includes w [] b = starts-includes w (w ++ b) (split-starts w b)
append-includes w (c ∷ a) b = elim (Bool-cases (starts w (c ∷ (a ++ (w ++ b))))) [
  | inl e ↦ rw e refl
  | inr e ↦ rw e (append-includes w a b)
]

any-Memᴰ : (w : Text) (keys : List Text) → any (text_eq w) keys ≡ true → Memᴰ w keys
any-Memᴰ w [] h = absurd (cc)
any-Memᴰ w (k ∷ keys) h = elim (Bool-cases (text_eq w k)) [
  | inl e ↦ Memᴰ.head ((text_eq_iff w k).0 e)
  | inr e ↦ Memᴰ.tail (any-Memᴰ w keys (rw e at h))
]

Memᴰ-any : (w : Text) (keys : List Text) → Memᴰ w keys → any (text_eq w) keys ≡ true
Memᴰ-any w [] m = elim m [ ]
Memᴰ-any w (k ∷ keys) (Memᴰ.head e) = rw ((text_eq_iff w k).1 e) refl
Memᴰ-any w (k ∷ keys) (Memᴰ.tail m) = ground (arith, Memᴰ-any w keys m)

IsKeyConflict-iff : (e : Exception) → (is_idempotency_conflict e ≡ true) ↔ IsKeyConflict e
IsKeyConflict-iff (conflict m) = elim (Bool-cases (includes (text "fingerPrint") m)) [
  | inl e ↦ rw e (
    λ h. absurd (cc),
    λ k. absurd (about_fingerprint k (includes-StandsIn (text "fingerPrint") m e)),
  )
  | inr e ↦ rw e (
    λ h. key_conflict (λ (a, b, split).
        false-ne-true (sym e ∙ rw split (append-includes (text "fingerPrint") a b))),
    λ k. refl,
  )
]
  where
    about_fingerprint :
        {m : Text} → IsKeyConflict (conflict m) → StandsIn (text "fingerPrint") m → ⊥
    about_fingerprint (key_conflict n) h = n h
IsKeyConflict-iff _ = (λ h. absurd (cc), λ k. elim k [ ])

IsRace-iff : (e : Exception) → (is_fingerprint_race e ≡ true) ↔ IsRace e
IsRace-iff (driver code keys) = elim (Bool-cases (code == 11000)) [
  | inl e ↦ rw e (
    λ h. race (ground (arith, e)) (any-Memᴰ (text "fingerPrint") keys h),
    λ r. Memᴰ-any (text "fingerPrint") keys (raced r).1,
  )
  | inr e ↦ rw e (λ h. absurd (cc), λ r. absurd (let k = (raced r).0 in ground (arith, e, k)))
]
  where
    raced :
        {code : ℕ} {keys : List Text}
        → IsRace (driver code keys)
        → (code ≡ 11000) × Memᴰ (text "fingerPrint") keys
    raced (race same m) = (same, m)
IsRace-iff _ = (λ h. absurd (cc), λ k. elim k [ ])

module _ {W : Type 0} (services : Services W) where
  failed-Recovers :
      (e : Exception) (looked : Result (Option Response))
      → (IsKeyConflict e → looked ≡ ok none)
      → Recovers looked e (failed services e)
  failed-Recovers e looked none_there = elim (Bool-cases (is_fingerprint_race e)) [
    | inl r ↦ rw r (race_refused ((IsRace-iff e).0 r))
    | inr n ↦ rw n (throws_again (λ r. false-ne-true (sym n ∙ (IsRace-iff e).1 r)) none_there)
  ]

  conflict-Recovers :
      (e : Exception) (looked : Result (Option Response))
      → IsKeyConflict e
      → Recovers looked e (answered_or_failed services e looked)
  conflict-Recovers e (ok (some r)) k = replays r k refl
  conflict-Recovers e (ok none) k = failed-Recovers e (ok none) (λ _. refl)
  conflict-Recovers e (err x) k = lookup_fails x k refl

  recovered-Recovers :
      (e : Exception) (looked : Result (Option Response))
      → Recovers looked e (recovered services e looked)
  recovered-Recovers e looked = elim (Bool-cases (is_idempotency_conflict e)) [
    | inl k ↦ rw k (conflict-Recovers e looked ((IsKeyConflict-iff e).0 k))
    | inr n ↦
        rw n (
          failed-Recovers e looked
            (λ k. absurd (false-ne-true (sym n ∙ (IsKeyConflict-iff e).1 k))))
  ]

  -- If counting a failure cannot fail, then after an exception of the transaction, and whether or not
  -- the lock could be released: a conflict whose message does not name the fingerprint gives the
  -- result that a concurrent request has completed, or the exception of that lookup; a driver error
  -- 11000 for the key fingerPrint is thrown as a conflict; everything else, such a conflict without
  -- a result included, is thrown again as it was.
  pub recover-Recovers :
      ((w : W) → (services.counter_inc false w).0 ≡ ok tt)
      → (c : IdempotencyContext) (fingerprint : Text) (e : Exception) (s : Desk W)
      → Recovers
          (get_completed_result services c (release_lock services fingerprint s).1).0
          e
          (recover services c fingerprint e s).0
  recover-Recovers counts c fingerprint e s = rw (recover_lem services counts c fingerprint e s) (
      recovered-Recovers e
        (get_completed_result services c (release_lock services fingerprint s).1).0)
