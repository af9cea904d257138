-- ===== src/Quotes/Guard.antt =====
-- The lock of `QuoteSubmissionGuardService` (quote-submission-guard.service.ts).
use interiors_api_client.Common.{Bool, true, not, ◌++◌}
use interiors_api_client.Common.Text.{Text, text}
use interiors_api_client.Common.Exec.{Exec, pure, ◌>>=◌}
use interiors_api_client.Quotes.Desk.{Desk, Services, invoke, cache_set, cache_delete}
use interiors_api_client.Quotes.Normalize.{NormalizedQuoteData, generate_fingerprint}

unfoldable pub create_lock_key : Text → Text
create_lock_key fingerprint = text "quote_submission_lock:" ++ fingerprint

module _ {W : Type 0} (services : Services W) where
  open services use {lock_set, lock_delete, sha256, config}

  -- The fingerprint, and whether its lock is held by another submission.
  unfoldable pub is_duplicate_submission : NormalizedQuoteData → Exec (Desk W) (Text × Bool)
  unfolding create_lock_key
  is_duplicate_submission d = do
    let fingerprint = generate_fingerprint sha256 config d
    acquired ←
        invoke (cache_set (create_lock_key fingerprint))
          (lock_set (create_lock_key fingerprint) (text "locked") 300 true)
    pure (fingerprint, not acquired)

  unfoldable pub release_lock : Text → Exec (Desk W) (Unit {0})
  unfolding create_lock_key
  release_lock fingerprint =
      invoke (cache_delete (create_lock_key fingerprint))
        (lock_delete (create_lock_key fingerprint))
