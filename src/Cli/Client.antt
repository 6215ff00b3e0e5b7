-- ===== src/Cli/Client.antt =====
-- `Config.newClient` of internal/cli/cli.go.
use hush_hush_cli.Prelude.{String, Result, map_err, map_ok}
use hush_hush_cli.Client.Errors.{Err, wrap}
use hush_hush_cli.Client.Op.{Op, ◌>>=◌, from_result}
use hush_hush_cli.Client.Remote.{Remote, Builder, new_client}
use hush_hush_cli.Cli.Config.{Config}

module _ {ℓ} {W : Type ℓ} (build : Builder W) where
  -- A client for a server and a credential, with the configured caller.
  unfoldable pub client_for : Config → String → Result Err (Remote W)
  unfolding new_client
  client_for cfg credential =
      map_ok (λ make. make cfg.caller)
        (map_err (wrap "build client") (new_client build cfg.server credential))

  -- `Config.newClient`
  unfoldable pub config_client : Config → Result Err (Remote W)
  unfolding client_for
  config_client cfg = client_for cfg cfg.token

  -- A call on the client of a configuration.
  abbrev pub with_client {κ} : {A : Type κ} → Config → (Remote W → Op W A) → Op W A
  unfolding config_client
  with_client cfg call = from_result (config_client cfg) >>= call
