-- ===== src/Quotes/Interleaving.antt =====
-- Submissions side by side: the steps of `QuoteService.createQuoteRequest` that take and give back
-- the lock of `QuoteSubmissionGuardService`, in any order. The store of the locks is a parameter.
use interiors_api_client.Common.{ℕ, ◌≡◌, Bool, true, false, if◌then◌else◌, ◌==◌}
use interiors_api_client.Common.Text.{Text, text, text_eq}
use interiors_api_client.Common.Exec.{ok}
use interiors_api_client.Quotes.Desk.{Desk, Services}
use interiors_api_client.Quotes.Normalize.{NormalizedQuoteData}
use interiors_api_client.Quotes.Guard.{create_lock_key, is_duplicate_submission, release_lock}

-- Where a submission stands: before the guard, past it with this fingerprint, or at its end.
pub data Phase : Type 0 where
  waiting : Phase
  holding : Text → Phase
  finished : Phase

-- The submissions by number, and what they share.
pub record Running (W : Type 0) : Type 0 where
  pub desk : Desk W
  pub phase : ℕ → Phase

abbrev pub set_phase : ℕ → Phase → (ℕ → Phase) → ℕ → Phase
set_phase p ph f q = if p == q then ph else f q

-- What is relied on of a store with `NX`: for the keys `held`, a set answers `true` only if the key
-- was not held, and then it is; a set takes no key away, and a delete none but its own.
pub record IsLockStore {W : Type 0} (services : Services W) (held : W → Text → Bool) : Type 0 where
  pub takes :
      (key : Text) (w : W)
      → (services.lock_set key (text "locked") 300 true w).0 ≡ ok true
      → (held w key ≡ false)
        × (held (services.lock_set key (text "locked") 300 true w).1 key ≡ true)
  pub keeps :
      (key other : Text) (w : W)
      → held w other ≡ true
      → held (services.lock_set key (text "locked") 300 true w).1 other ≡ true
  pub spares :
      (key other : Text) (w : W)
      → text_eq key other ≡ false
      → held w other ≡ true
      → held (services.lock_delete key w).1 other ≡ true

module _ {W : Type 0} (services : Services W) (held : W → Text → Bool) where
  -- One step of one submission: the guard's answer, or the release by one that is past it. Between
  -- them anything may happen to what is shared that takes no lock away; so no lock expires.
  pub data Step : Running W → Running W → Type 0 where
    admitted :
        {s t : Running W} (p : ℕ) (d : NormalizedQuoteData) (fingerprint : Text)
        → s.phase p ≡ waiting
        → (is_duplicate_submission services d s.desk).0 ≡ ok (fingerprint, false)
        → t ≡ record {
          desk = (is_duplicate_submission services d s.desk).1;
          phase = set_phase p (holding fingerprint) s.phase;
        }
        → Step s t
    refused :
        {s t : Running W} (p : ℕ) (d : NormalizedQuoteData)
        → s.phase p ≡ waiting
        → t ≡ record {
          desk = (is_duplicate_submission services d s.desk).1;
          phase = set_phase p finished s.phase;
        }
        → Step s t
    released :
        {s t : Running W} (p : ℕ) (fingerprint : Text)
        → s.phase p ≡ holding fingerprint
        → t ≡ record {
          desk = (release_lock services fingerprint s.desk).1;
          phase = set_phase p finished s.phase;
        }
        → Step s t
    elsewhere :
        {s t : Running W} (desk : Desk W)
        → ((key : Text) → held s.desk.outside key ≡ true → held desk.outside key ≡ true)
        → t ≡ record s { desk = desk }
        → Step s t

  pub data Reach (s : Running W) : Running W → Type 0 where
    here : Reach s s
    next : {t u : Running W} → Reach s t → Step t u → Reach s u

  -- Who is past the guard has its lock, and there is one for each fingerprint.
  pub record IsExclusive (s : Running W) : Type 0 where
    pub locked :
        (p : ℕ) (fp : Text)
        → s.phase p ≡ holding fp
        → held s.desk.outside (create_lock_key fp) ≡ true
    pub single : (p q : ℕ) (fp : Text) → s.phase p ≡ holding fp → s.phase q ≡ holding fp → p ≡ q
