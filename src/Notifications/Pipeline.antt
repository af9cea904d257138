-- ===== src/Notifications/Pipeline.antt =====
-- `NotificationPipeline` (pipeline/notification.pipeline.ts).
use interiors_api_client.Common.{List, [], ◌∷◌}
use interiors_api_client.Common.Exec.{Exec, pure}
use interiors_api_client.Notifications.Context.{Services, Stage, Run}
use interiors_api_client.Notifications.Stages.Validate.{validate}
use interiors_api_client.Notifications.Stages.Enrich.{enrich}
use interiors_api_client.Notifications.Stages.Deduplicate.{deduplicate}
use interiors_api_client.Notifications.Stages.RateLimit.{limit_rate}
use interiors_api_client.Notifications.Stages.CompileTemplate.{compile}
use interiors_api_client.Notifications.Stages.Track.{track}
use interiors_api_client.Notifications.Stages.Transport.{transport}

-- `runner(index)`, on the stages from `index` on: each is given the runner of those behind it.
unfoldable pub runner : {W : Type 0} → List (Stage W) → Exec (Run W) (Unit {0})
runner [] = pure tt
runner (stage ∷ rest) = stage (runner rest)

module _ {W : Type 0} (services : Services W) where
  -- `onModuleInit`
  abbrev pub stages : List (Stage W)
  stages =
      validate
      ∷ enrich services
      ∷ deduplicate services
      ∷ limit_rate services
      ∷ compile services
      ∷ track services
      ∷ transport services
      ∷ []

  unfoldable pub execute : Exec (Run W) (Unit {0})
  unfolding runner
  execute = runner stages
