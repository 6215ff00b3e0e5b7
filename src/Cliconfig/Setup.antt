-- ===== src/Cliconfig/Setup.antt =====
-- internal/cliconfig/write.go, offer.go and cliconfig.go: writing the configuration file, and offering to.
pub mod Offered
pub mod Written
use hush_hush_cli.Prelude.{
  String, Bool, true, false, not, ◌&&◌, ◌||◌, List, [], ◌∷◌, if◌then◌else◌, Result, ok, err,
}
use hush_hush_cli.Client.Errors.{Err, wrap}
use hush_hush_cli.Client.Op.{Op, ◌>>=◌, continue, done, wrapping}
use hush_hush_cli.Cliconfig.{Io}
use hush_hush_cli.Cliconfig.Prompt.{Values, PromptResult, confirm, prompt_config}
use hush_hush_cli.Cliconfig.Secret.{RenderedSecret, persist_credential}
use hush_hush_cli.Cliconfig.Render.{starter_config, render}

-- `EnvVars`
abbrev pub env_vars : List String
env_vars =
    "HUSH_HUSH_SERVER" ∷ "HUSH_HUSH_TOKEN" ∷ "HUSH_HUSH_TOKEN_COMMAND" ∷ "HUSH_HUSH_CALLER"
    ∷ "HUSH_HUSH_RECIPIENTS" ∷ "HUSH_HUSH_IDENTITY" ∷ "HUSH_HUSH_CONSUMER_TOKEN"
    ∷ "HUSH_HUSH_CONSUMER_TOKEN_COMMAND" ∷ []

-- `ShouldWriteStarter`
unfoldable pub should_write_starter : Bool → Bool → Bool → Bool → Bool → Bool
should_write_starter config_exists any_env_set assume_yes interactive confirmed =
    if config_exists || any_env_set
    then false
    else if assume_yes
    then true
    else interactive && confirmed

-- The text of the nudge.
abbrev pub nudge : String
nudge =
    "no config file and no HUSH_HUSH_* environment variables set - running on defaults (`hush-hush-cli init` writes a starter config)\n"

module _ {ℓ} {W : Type ℓ} (quote : String → String) (io : Io W) where
  -- The loop of `AnyEnvVarSet`.
  unfoldable pub any_set : List String → W → Bool
  any_set [] w = false
  any_set (name ∷ names) w = io.env_set name w || any_set names w

  -- `AnyEnvVarSet`
  unfoldable pub any_env_var_set : W → Bool
  unfolding any_set
  any_env_var_set w = any_set env_vars w

  -- `WriteStarter`
  unfoldable pub write_starter : String → Op W (Unit {0})
  write_starter path = wrapping (wrap "write config file") (io.write_file path starter_config)

  -- What follows the answers in `WriteInteractive`.
  unfoldable pub write_answers : String → PromptResult → Op W (Unit {0})
  unfolding persist_credential render
  write_answers path result =
      wrapping (wrap "persist token") (persist_credential io result.token "token") >>= λ token.
      wrapping (wrap "persist identity") (persist_credential io result.identity "identity")
      >>= λ identity. wrapping (wrap "write config file") (
          io.write_file path
            (render quote result.server token result.caller result.recipients identity))

  -- `WriteInteractive`
  unfoldable pub write_interactive : String → Values → Op W (Unit {0})
  unfolding prompt_config write_answers
  write_interactive path current =
      wrapping (wrap "prompt for config") (prompt_config io current) >>= write_answers path

  -- `printUnconfiguredNudge`
  unfoldable pub print_unconfigured_nudge : Bool → Bool → Op W (Unit {0})
  print_unconfigured_nudge exists interactive =
      if exists || interactive
      then done tt
      else wrapping (wrap "write config nudge") (io.print_err nudge)

  -- Whether the user confirmed: nobody is asked but an interactive user with no file and without --yes.
  unfoldable pub confirmed_by : Bool → Bool → Bool → W → Bool × W
  unfolding confirm
  confirmed_by assume_yes interactive exists w =
      if not assume_yes && interactive && not exists
      then confirm io "No config file found. Set one up now?" w
      else (false, w)

  -- `OfferInit` once the file is known to be there or not, and the user has confirmed or not. The first part
  -- of the result is the Boolean that is returned along with the error.
  unfoldable pub offer_for :
      Bool → Bool → Values → String → Bool → Bool × W → Bool × (Result Err (Unit {0}) × W)
  unfolding should_write_starter write_starter write_interactive print_unconfigured_nudge
  offer_for assume_yes interactive current path exists (confirmed, w) =
      if not (should_write_starter exists false assume_yes interactive confirmed)
      then (false, print_unconfigured_nudge exists interactive w)
      else if assume_yes
      then (true, write_starter path w)
      else (true, write_interactive path current w)

  -- `OfferInit` by the path's resolution.
  unfoldable pub offer_at :
      Bool → Bool → Values → Result Err String × W → Bool × (Result Err (Unit {0}) × W)
  unfolding confirmed_by offer_for
  offer_at assume_yes interactive current (err e, w) = (false, (ok tt, w))
  offer_at assume_yes interactive current (ok path, w) =
      offer_for assume_yes interactive current path (io.file_exists path w)
        (confirmed_by assume_yes interactive (io.file_exists path w) w)

  -- `OfferInit`
  unfoldable pub offer_init :
      Bool → Bool → Values → Op W String → W → Bool × (Result Err (Unit {0}) × W)
  unfolding any_env_var_set offer_at
  offer_init assume_yes interactive current resolve_path w =
      if any_env_var_set w
      then (false, (ok tt, w))
      else offer_at assume_yes interactive current (resolve_path w)
