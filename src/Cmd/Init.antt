-- ===== src/Cmd/Init.antt =====
-- `init` and the offer to set a configuration up of internal/cmd/root.go. `terminal` is whether the standard
-- input is a terminal, and `read_config` viper's reading of the configuration file.
use Prim.Native.String.{◌++◌}
use hush_hush_cli.Prelude.{
  String, Bool, true, false, not, ◌&&◌, List, [], ◌∷◌, if◌then◌else◌, Result, ok, err,
}
use hush_hush_cli.Prelude.Text.{is_empty, member}
use hush_hush_cli.Client.Errors.{Err, wrap, sentinel, config_already_exists}
use hush_hush_cli.Client.Op.{Op, ◌>>=◌, done, failed, wrapping}
use hush_hush_cli.Cliconfig.Prompt.{Values}
use hush_hush_cli.Cliconfig.Setup.{write_starter, write_interactive, any_env_var_set, offer_init}
use hush_hush_cli.Cmd.{Settings, App}

-- `currentValues`
abbrev pub current_values : Settings → Values
current_values v = record { server = v.server; caller = v.caller; recipients = v.recipients }

-- The path that was resolved, before an error.
abbrev pub path_of {ℓ} : {W : Type ℓ} → Result Err String × W → String
path_of (ok path, w) = path
path_of (err e, w) = ""

-- The commands that make no offer.
abbrev pub without_offer : List String
without_offer = "init" ∷ "man" ∷ "config" ∷ "keyring-get" ∷ []

-- `Path` of internal/cliconfig for a tool's plain name: `xdg_file` is xdg.ConfigFile after xdg.Reload.
unfoldable pub tool_path {ℓ} : {W : Type ℓ} → (String → Op W String) → String → Op W String
tool_path xdg_file tool = wrapping (wrap "resolve config path") (xdg_file (tool ++ "/config.yaml"))

-- `configFilePath`
unfoldable pub config_file_path {ℓ} : {W : Type ℓ} → (String → Op W String) → Op W String
unfolding tool_path
config_file_path xdg_file =
    wrapping (wrap "resolve hush-hush-cli config path") (tool_path xdg_file "hush-hush-cli")

-- `options.pathResolver`
unfoldable pub path_resolver {ℓ} : {W : Type ℓ} → (String → Op W String) → String → Op W String
unfolding config_file_path
path_resolver xdg_file config_path =
    if is_empty config_path then config_file_path xdg_file else done config_path

module _ {ℓ} {W : Type ℓ} (quote : String → String) (app : App W) (resolve_path : Op W String)
    (terminal : Bool) where
  -- `reportWrote`
  unfoldable pub report_wrote : String → Op W (Unit {0})
  report_wrote path =
      wrapping (wrap "write init confirmation") (app.io.print ("wrote " ++ path ++ "\n"))

  -- `writeStarterConfig`
  unfoldable pub write_starter_config : String → Op W (Unit {0})
  unfolding write_starter report_wrote
  write_starter_config path =
      wrapping (wrap path) (write_starter quote app.io path) >>= λ written. report_wrote path

  -- `runInteractiveInit`
  unfoldable pub run_interactive_init : Settings → String → Op W (Unit {0})
  unfolding write_interactive report_wrote
  run_interactive_init v path =
      wrapping (wrap path) (write_interactive quote app.io path (current_values v)) >>= λ written.
      report_wrote path

  -- The `RunE` of `newInitCmd` with a path.
  unfoldable pub init_at : Settings → Bool → Bool → String → Op W (Unit {0})
  unfolding run_interactive_init write_starter_config
  init_at v force assume_yes path w =
      if app.io.file_exists path w && not force
      then failed (wrap path (sentinel config_already_exists)) w
      else if not assume_yes && terminal
      then run_interactive_init v path w
      else write_starter_config path w

  -- The `RunE` of `newInitCmd`
  unfoldable pub init : Settings → Bool → Bool → Op W (Unit {0})
  unfolding init_at
  init v force assume_yes = resolve_path >>= init_at v force assume_yes

  -- What `maybeOfferInit` does after the offer.
  unfoldable pub after_offer :
      Op W (Unit {0}) → String → Bool × (Result Err (Unit {0}) × W) → Result Err (Unit {0}) × W
  unfolding report_wrote
  after_offer read_config path (wrote, (err e, w)) = (err (wrap path e), w)
  after_offer read_config path (false, (ok none_written, w)) = (ok tt, w)
  after_offer read_config path (true, (ok written, w)) =
      (report_wrote path >>= λ reported. wrapping (wrap "read newly written config") read_config) w

  -- `maybeOfferInit`
  unfoldable pub maybe_offer_init : Op W (Unit {0}) → Settings → Bool → Op W (Unit {0})
  unfolding after_offer offer_init any_env_var_set
  maybe_offer_init read_config v assume_yes w =
      after_offer read_config
        (if any_env_var_set quote app.io w then "" else path_of (resolve_path w))
        (offer_init quote app.io assume_yes terminal (current_values v) resolve_path w)

  -- The `PersistentPreRunE` of the root command, by the command's name.
  unfoldable pub persistent_pre_run : Op W (Unit {0}) → Settings → Bool → String → Op W (Unit {0})
  unfolding maybe_offer_init member
  persistent_pre_run read_config v assume_yes name =
      if member name without_offer then done tt else maybe_offer_init read_config v assume_yes
