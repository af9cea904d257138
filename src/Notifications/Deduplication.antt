-- ===== src/Notifications/Deduplication.antt =====
-- What `DeduplicationStage` does around the later stages, whatever these and the cache do.
use interiors_api_client.Common.{if◌then◌else◌, ◌≡◌, Bool, true, false, List, [], ◌∷◌, ◌++◌, arith}
use interiors_api_client.Common.Exception.{application, duplicate_detected, is_application}
use interiors_api_client.Common.Exec.{Result, ok, err, Exec}
use interiors_api_client.Common.Text.{Text, text}
use interiors_api_client.Notifications.Context.{Call, set, delete, Services, Run}
use interiors_api_client.Notifications.Stages.Deduplicate.{
  acquire, commit, release, protected, dedup_window_seconds, processing_lock_seconds,
}

module _ {W : Type 0} (services : Services W) (dedup processing : Text) where
  open services use {cache_exists, cache_set}

  abbrev lock_call : Call
  lock_call = set processing (text "processing") processing_lock_seconds true

  abbrev commit_call : Call
  commit_call = set dedup (text "delivered") dedup_window_seconds false

  -- What the first phase decides from the two answers of the cache.
  abbrev pub decision : Result Bool → Result Bool → Result Bool
  decision (ok true) locked = err (application duplicate_detected)
  decision (ok false) (ok true) = ok true
  decision (ok false) (ok false) = err (application duplicate_detected)
  decision (ok false) (err e) = if is_application e then err e else ok false
  decision (err e) locked = if is_application e then err e else ok false

  -- The first phase goes on with the lock if the notification is unseen and the lock is free, goes
  -- on without it if the cache fails (unless with an `ApplicationException`, which is thrown), and
  -- otherwise throws `DUPLICATE_DETECTED`.
  pub acquire-decision :
      (s : Run W)
      → let w = (cache_exists dedup s.services).1 in
        (acquire services dedup processing s).0
        ≡ decision
            (cache_exists dedup s.services).0
            (cache_set processing (text "processing") processing_lock_seconds true w).0
  unfolding acquire
  acquire-decision s = ground arith

  -- The calls that follow the later stages, newest first.
  abbrev pub closing : Bool → Result (Unit {0}) → List Call
  closing true (ok u) = delete processing ∷ commit_call ∷ []
  closing true (err e) = delete processing ∷ []
  closing false (ok u) = commit_call ∷ []
  closing false (err e) = []

  -- If the first phase goes on and the later stages end, then the result of the whole is theirs,
  -- whatever the cache answers, and the calls that follow are: after a success the commit of the
  -- deduplication key, and, if the lock was acquired, its deletion.
  pub protected_lem :
      (next : Exec (Run W) (Unit {0})) (s s1 s2 : Run W) (acquired : Bool) (r : Result (Unit {0}))
      → acquire services dedup processing s ≡ (ok acquired, s1)
      → next s1 ≡ (r, s2)
      → ((protected services next dedup processing s).0 ≡ r)
        × ((protected services next dedup processing s).1.calls ≡ closing acquired r ++ s2.calls)
  unfolding protected commit release
  protected_lem next s s1 s2 true (ok u) e n = rw (e, n) (ground arith)
  protected_lem next s s1 s2 true (err x) e n = rw (e, n) (ground arith)
  protected_lem next s s1 s2 false (ok u) e n = rw (e, n) (ground arith)
  protected_lem next s s1 s2 false (err x) e n = rw (e, n) (ground arith)
