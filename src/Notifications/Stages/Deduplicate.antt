-- ===== src/Notifications/Stages/Deduplicate.antt =====
-- `DeduplicationStage` (pipeline/stages/deduplication.stage.ts).
use interiors_api_client.Common.{
  ℕ, ◌+◌, Bool, true, false, not, Option, none, some, ◌++◌, ltb, if◌then◌else◌,
}
use interiors_api_client.Common.Text.{Text, text}
use interiors_api_client.Common.Json.{
  Json, arr, obj, str, Items, nil, cons, Fields, end, field, insert_field, stringify,
}
use interiors_api_client.Common.Exception.{
  Exception, application, infrastructure, error, duplicate_detected, invalid_context,
  is_application,
}
use interiors_api_client.Common.Exec.{
  Result, ok, err, Exec, pure, throw, lift, when, try_catch, finally, ◌>>=◌, ◌>>◌,
}
use interiors_api_client.Notifications.Context.{
  Context, Recipient, Services, Stage, Run, invoke, exists, set, delete,
}
use interiors_api_client.Notifications.Stages.RateLimit.{or_else}
use interiors_api_client.Notifications.Stages.CompileTemplate.{shown}

abbrev pub max_depth : ℕ
max_depth = 50

abbrev pub dedup_window_seconds : ℕ
dedup_window_seconds = 300

abbrev pub processing_lock_seconds : ℕ
processing_lock_seconds = 60

abbrev in_array : Option Items → Option Json
in_array none = none
in_array (some xs) = some (arr xs)

abbrev in_object : Option Fields → Option Json
in_object none = none
in_object (some fs) = some (obj fs)

abbrev prepend : Option Json → Option Items → Option Items
prepend (some v) (some vs) = some (cons v vs)
prepend _ _ = none

abbrev place : Text → Option Json → Option Fields → Option Fields
place k (some v) (some fs) = some (insert_field k v fs)
place k _ _ = none

-- `sortObjectKeys` on a tree: the value with the fields of every object in order, and `none` when
-- some object or array lies deeper than the limit. The number is the depth of the container.
unfoldable mutual
  unfolding insert_field

  pub sort_value : ℕ → Json → Option Json
  sort_value d (arr xs) = if ltb max_depth d then none else in_array (sort_items d xs)
  sort_value d (obj fs) = if ltb max_depth d then none else in_object (sort_fields d fs)
  sort_value d v = some v

  pub sort_items : ℕ → Items → Option Items
  sort_items d nil = some nil
  sort_items d (cons v vs) = prepend (sort_value (d + 1) v) (sort_items d vs)

  pub sort_fields : ℕ → Fields → Option Fields
  sort_fields d end = some end
  sort_fields d (field k v fs) = place k (sort_value (d + 1) v) (sort_fields d fs)

-- `context.recipient.userId || context.recipient.email`
abbrev pub recipient_id : Recipient → Option Text
recipient_id r = or_else r.user_id r.email

-- `JSON.stringify` leaves a field out whose value is `undefined`.
abbrev given : Text → Option Text → Fields → Fields
given k none fs = fs
given k (some s) fs = field k (str s) fs

abbrev pub stringified : Context → Recipient → Option Fields → Result Text
stringified c r none = err (infrastructure invalid_context 500)
stringified c r (some fs) = ok (
    stringify (
      obj (
        given (text "type") c.type (
          given (text "template") c.template_name
            (given (text "recipient") (recipient_id r) (field (text "data") (obj fs) end))))))

abbrev pub data_of : Option Fields → Fields
data_of none = end
data_of (some fs) = fs

unfoldable pub generate_fingerprint : Context → Recipient → Result Text
unfolding sort_value
generate_fingerprint c r = stringified c r (sort_fields 0 (data_of c.template_data))

module _ {W : Type 0} (services : Services W) where
  open services use {cache_exists, cache_set, cache_delete, sha256}

  abbrev pub dedup_key : Recipient → Text → Text
  dedup_key r fingerprint =
      text "notify:dedup:" ++ (shown (recipient_id r) ++ (text ":" ++ sha256 fingerprint))

  abbrev pub processing_key : Recipient → Text → Text
  processing_key r fingerprint =
      text "notify:processing:" ++ (shown (recipient_id r) ++ (text ":" ++ sha256 fingerprint))

  abbrev pub refuse_if : Bool → Exec (Run W) (Unit {0})
  refuse_if true = throw (application duplicate_detected)
  refuse_if false = pure tt

  abbrev pub fail_open : Exception → Exec (Run W) Bool
  fail_open e = if is_application e then throw e else pure false

  -- Phase 1: whether the processing lock was acquired.
  unfoldable pub acquire : Text → Text → Exec (Run W) Bool
  acquire dedup processing =
      try_catch
        (do
          already_delivered ← invoke (exists dedup) (cache_exists dedup)
          refuse_if already_delivered
          acquired ←
              invoke (set processing (text "processing") processing_lock_seconds true)
                (cache_set processing (text "processing") processing_lock_seconds true)
          refuse_if (not acquired)
          pure true)
        fail_open

  -- Phase 3: a failure of the commit is swallowed.
  unfoldable pub commit : Text → Exec (Run W) (Unit {0})
  commit dedup =
      try_catch
        (do
          invoke (set dedup (text "delivered") dedup_window_seconds false)
              (cache_set dedup (text "delivered") dedup_window_seconds false)
          pure tt)
        (λ _. pure tt)

  -- Phase 4
  unfoldable pub release : Bool → Text → Exec (Run W) (Unit {0})
  release acquired processing =
      when acquired
        (try_catch (invoke (delete processing) (cache_delete processing)) (λ _. pure tt))

  unfoldable pub protected : Exec (Run W) (Unit {0}) → Text → Text → Exec (Run W) (Unit {0})
  protected next dedup processing = do
    acquired ← acquire dedup processing
    finally (next >> commit dedup) (release acquired processing)

  unfoldable pub deduplicate_for :
      Exec (Run W) (Unit {0}) → Context → Option Recipient → Exec (Run W) (Unit {0})
  unfolding protected
  deduplicate_for next c none = throw error
  deduplicate_for next c (some r) = do
    fingerprint ← lift (generate_fingerprint c r)
    protected next (dedup_key r fingerprint) (processing_key r fingerprint)

  unfoldable pub deduplicate : Stage W
  unfolding deduplicate_for
  deduplicate next s = deduplicate_for next s.context s.context.recipient s
