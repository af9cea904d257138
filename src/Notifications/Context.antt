-- ===== src/Notifications/Context.antt =====
-- The notification context (src/infrastructure/notifications/core), and the state of one run of the
-- pipeline: the context, which the stages change in place, the calls that were made to the services
-- outside, newest first, and the state of those services.
use interiors_api_client.Common.{ℕ, Bool, Option, List, ◌∷◌}
use interiors_api_client.Common.Text.{Text}
use interiors_api_client.Common.Json.{Fields}
use interiors_api_client.Common.Exec.{Result, Exec}

-- The body of a request is not validated before the pipeline, so a field may be absent.
pub record Recipient : Type 0 where
  pub email : Option Text
  pub phone : Option Text
  pub device_token : Option Text
  pub name : Option Text
  pub user_id : Option Text
  pub customer_key : Option Text

-- `NotificationStatus`
pub data Status : Type 0 where
  pending delivered failed processing scheduled bounced : Status
  other : Text → Status

pub data Provider : Type 0 where
  gmail resend : Provider

-- `NotificationResult`
pub record Delivery : Type 0 where
  pub status : Status
  pub provider : Option Provider

pub record Metadata : Type 0 where
  pub enriched_at : Option Text
  pub environment : Option Text
  pub compiled_body : Option Text
  pub provider_used : Option Provider
  pub result : Option Delivery

pub record Context : Type 0 where
  pub notification_id : Option Text
  pub trace_id : Option Text
  pub type : Option Text
  pub priority : Option Text
  pub category : Option Text
  pub recipient : Option Recipient
  pub subject : Option Text
  pub template_name : Option Text
  pub template_data : Option Fields
  pub metadata : Metadata

-- A call of a service outside the pipeline.
pub data Call : Type 0 where
  exists : Text → Call
  set : Text → Text → ℕ → Bool → Call
  delete : Text → Call
  sliding_window : Text → ℕ → ℕ → Call
  record_attempt : Call
  record_result : Delivery → Call
  read_file : Text → Call
  is_available : Provider → Call
  send : Provider → Call

-- The interfaces that the stages are given (`CacheService`, `INotificationTracker`,
-- `INotificationProvider`, the file system, the template engine, the hash, the configuration and
-- the clock), over the state `W` of what is outside. Each may fail.
pub record Services (W : Type 0) : Type 0 where
  pub cache_exists : Text → Exec W Bool
  pub cache_set : Text → Text → ℕ → Bool → Exec W Bool
  pub cache_delete : Text → Exec W (Unit {0})
  pub cache_sliding_window : Text → ℕ → ℕ → Exec W Bool
  pub tracker_record_attempt : Context → Exec W (Unit {0})
  pub tracker_record_result : Context → Delivery → Exec W (Unit {0})
  pub fs_read_file : Text → Exec W Text
  pub compile_template : Text → Fields → Result Text
  pub provider_is_available : Provider → Exec W Bool
  pub provider_send : Provider → Context → Exec W Delivery
  pub sha256 : Text → Text
  pub config_get : Text → Option Text
  pub now_iso : W → Text
  pub full_year : W → ℕ

pub record Run (W : Type 0) : Type 0 where
  pub context : Context
  pub calls : List Call
  pub services : W

-- A stage is given the rest of the pipeline.
abbrev pub Stage : Type 0 → Type 0
Stage W = Exec (Run W) (Unit {0}) → Exec (Run W) (Unit {0})

-- A call of a service: it is written down, and may change what is outside.
abbrev pub invoke : {W A : Type 0} → Call → Exec W A → Exec (Run W) A
invoke c f s = let (r, w) = f s.services in (r, record s { calls = c ∷ s.calls; services = w })

-- `context.metadata = { ...context.metadata, … }` and the like.
abbrev pub with_metadata : {W : Type 0} → (Metadata → Metadata) → Run W → Run W
with_metadata f s = let c = s.context in record s { context = record c { metadata = f c.metadata } }
