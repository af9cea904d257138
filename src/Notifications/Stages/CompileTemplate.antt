-- ===== src/Notifications/Stages/CompileTemplate.antt =====
-- `TemplateCompilerStage` (pipeline/stages/template-compiler.stage.ts). Paths are relative to the
-- working directory.
use interiors_api_client.Common.{Option, none, some, ◌++◌}
use interiors_api_client.Common.Text.{Text, text}
use interiors_api_client.Common.Json.{Fields, end}
use interiors_api_client.Common.Exception.{
  Exception, infrastructure, no_entry, template_not_found, template_compile_failed,
}
use interiors_api_client.Common.Exec.{Exec, throw, lift, modify, when, try_catch, ◌>>=◌, ◌>>◌}
use interiors_api_client.Notifications.Context.{
  Context, Services, Stage, Run, invoke, read_file, with_metadata,
}
use interiors_api_client.Notifications.Stages.RateLimit.{is_named}

-- A template literal writes `undefined` for a value that is absent.
abbrev pub shown : Option Text → Text
shown none = text "undefined"
shown (some s) = s

unfoldable pub template_path : Text → Text → Context → Text
template_path folder extension c =
    text "src/infrastructure/notifications/templates/"
    ++ (folder ++ (text "/" ++ (shown c.template_name ++ extension)))

abbrev pub data_of : Option Fields → Fields
data_of none = end
data_of (some fs) = fs

-- `error.code === 'ENOENT'`, and every other error, those of later stages too
abbrev pub template_failure : Exception → Exception
template_failure no_entry = infrastructure template_not_found 500
template_failure _ = infrastructure template_compile_failed 500

module _ {W : Type 0} (services : Services W) where
  open services use {fs_read_file, compile_template}

  unfoldable pub compile_file : Text → Context → Exec (Run W) (Unit {0})
  compile_file path c = do
    source ← invoke (read_file path) (fs_read_file path)
    body ← lift (compile_template source (data_of c.template_data))
    modify (with_metadata λ m. record m { compiled_body = some body })

  unfoldable pub compile_body : Context → Exec (Run W) (Unit {0})
  unfolding compile_file
  compile_body c = do
    when (is_named c.type (text "email"))
        (compile_file (template_path (text "email") (text ".hbs") c) c)
    when (is_named c.type (text "sms"))
        (compile_file (template_path (text "sms") (text ".txt") c) c)

  unfoldable pub compile : Stage W
  unfolding compile_body
  compile next s = try_catch (compile_body s.context >> next) (λ e. throw (template_failure e)) s
