-- ===== src/Cmd/Guards/Refused.antt =====
-- Commands that leave everything as it is.
use hush_hush_cli.Prelude.{String, ◌≡◌, refl, Bool, true, false, ok, err}
use hush_hush_cli.Prelude.Text.{member}
use hush_hush_cli.Client.Errors.{wrap, sentinel, config_already_exists}
use hush_hush_cli.Client.Op.{Op}
use hush_hush_cli.Cliconfig.Setup.{any_env_var_set}
use hush_hush_cli.Cliconfig.Setup.Offered.{offer_init_exists}
use hush_hush_cli.Cmd.{Settings, App}
use hush_hush_cli.Cmd.Init.{
  current_values, without_offer, init_at, init, after_offer, maybe_offer_init, persistent_pre_run,
}

module _ {ℓ} {W : Type ℓ} (quote : String → String) (app : App W) (resolve_path : Op W String)
    (terminal : Bool) where
  -- Where the path resolves to a file that is there, an init without --force asks, prints and writes nothing,
  -- and fails with the path and the reason.
  pub init_exists :
      (v : Settings) (assume_yes : Bool) (path : String) (w w' : W)
      → resolve_path w ≡ (ok path, w')
      → app.io.file_exists path w' ≡ true
      → init quote app resolve_path terminal v false assume_yes w
        ≡ (err (wrap path (sentinel config_already_exists)), w')
  unfolding init init_at
  init_exists v assume_yes path w w' resolved there = rw (resolved, there) refl

  offer_exists :
      (read_config : Op W (Unit {0})) (v : Settings) (assume_yes : Bool) (path : String) (w w' : W)
      → any_env_var_set quote app.io w ≡ false
      → resolve_path w ≡ (ok path, w')
      → app.io.file_exists path w' ≡ true
      → maybe_offer_init quote app resolve_path terminal read_config v assume_yes w ≡ (ok tt, w')
  unfolding maybe_offer_init after_offer
  offer_exists read_config v assume_yes path w w' unset resolved there =
      rw
        (offer_init_exists quote app.io assume_yes terminal (current_values v) resolve_path w w'
          path unset resolved there)
        refl

  -- What runs before a command changes nothing but what resolving the path does, where no environment variable of
  -- `EnvVars` is set and a configuration file is there; it goes well, whatever the flags are.
  pub persistent_pre_run_exists :
      (read_config : Op W (Unit {0})) (v : Settings) (assume_yes : Bool) (name path : String)
      (w w' : W)
      → member name without_offer ≡ false
      → any_env_var_set quote app.io w ≡ false
      → resolve_path w ≡ (ok path, w')
      → app.io.file_exists path w' ≡ true
      → persistent_pre_run quote app resolve_path terminal read_config v assume_yes name w
        ≡ (ok tt, w')
  unfolding persistent_pre_run
  persistent_pre_run_exists read_config v assume_yes name path w w' offers unset resolved there =
      rw offers (offer_exists read_config v assume_yes path w w' unset resolved there)
