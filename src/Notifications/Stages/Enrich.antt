-- ===== src/Notifications/Stages/Enrich.antt =====
-- `EnricherStage` (pipeline/stages/enricher.stage.ts).
use interiors_api_client.Common.{Option, none, some}
use interiors_api_client.Common.Text.{Text, text, print}
use interiors_api_client.Common.Json.{num, str, obj, Fields, end, field, set_field}
use interiors_api_client.Notifications.Context.{Context, Services, Stage}

-- `config.get(key, fallback)`
abbrev get_or_default : Option Text → Text → Text
get_or_default none fallback = fallback
get_or_default (some v) fallback = v

-- `context.templateData || {}`
abbrev or_empty : Option Fields → Fields
or_empty none = end
or_empty (some fs) = fs

module _ {W : Type 0} (services : Services W) where
  open services use {config_get, now_iso, full_year}

  unfoldable pub global_data : W → Fields
  global_data w = field (text "companyName") (str (text "JC Interiors")) (
      field (text "supportEmail")
        (str (get_or_default (config_get (text "SUPPORT_EMAIL")) (text "support@jcinteriors.com")))
        (field (text "appUrl")
          (str (get_or_default (config_get (text "FRONTEND_URL")) (text "http://localhost:5173")))
          (field (text "currentYear") (num (print (full_year w))) end)))

  unfoldable pub enriched : W → Context → Context
  enriched w c = record c {
    template_data =
        some (set_field (text "global") (obj (global_data w)) (or_empty c.template_data));
    metadata = record c.metadata {
      enriched_at = some (now_iso w);
      environment = some (get_or_default (config_get (text "NODE_ENV")) (text "development"));
    };
  }

  unfoldable pub enrich : Stage W
  unfolding enriched
  enrich next s = next (record s { context = enriched s.services s.context })
