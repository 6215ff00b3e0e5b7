-- ===== src/Cmd/Config.antt =====
-- `config` of internal/cmd/root.go.
use hush_hush_cli.Prelude.{String, Bool, Result, map_ok, map_err}
use hush_hush_cli.Client.Errors.{Err, wrap}
use hush_hush_cli.Client.Op.{Op, ◌>>=◌, from_result, wrapping}
use hush_hush_cli.Cli.Config.{Config, validate}
use hush_hush_cli.Cliconfig.Secret.{resolve_secret}
use hush_hush_cli.Cmd.{Settings, App}

-- A configuration that passes its check.
abbrev pub checked : (String → Result Err (String × String)) → Config → Result Err Config
unfolding validate
checked parse_url cfg = map_ok (λ _. cfg) (map_err (wrap "invalid config") (validate parse_url cfg))

-- `config`
unfoldable pub config {ℓ} : {W : Type ℓ} → App W → Settings → Bool → Op W Config
unfolding resolve_secret validate
config app v require_token =
    wrapping (wrap "token_command") (resolve_secret app.io v.token v.token_command) >>= λ token.
    wrapping (wrap "consumer_token_command")
      (resolve_secret app.io v.consumer_token v.consumer_token_command)
    >>= λ consumer_token. from_result (
        checked app.parse_url (record {
          server = v.server;
          token = token;
          consumer_token = consumer_token;
          caller = v.caller;
          require_token = require_token;
        }))
