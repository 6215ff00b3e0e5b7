-- ===== src/Cmd/Tokens.antt =====
-- The commands of internal/cmd/tokens.go, each up to what it prints. `parse_duration` is `time.ParseDuration`.
use hush_hush_cli.Prelude.{String, true, List, Result}
use hush_hush_cli.Prelude.Int.{ℤ}
use hush_hush_cli.Server.Types.{Time}
use hush_hush_cli.Server.Tokens.{ConsumerToken}
use hush_hush_cli.Client.Errors.{wrap, Err}
use hush_hush_cli.Client.Op.{Op, ◌>>=◌, from_result, wrapping}
use hush_hush_cli.Client.TokenCalls.{ConsumerTokenWithValue}
use hush_hush_cli.Cli.Flags.{parse_ttl}
use hush_hush_cli.Cli.Commands
use hush_hush_cli.Cmd.{Settings, App}
use hush_hush_cli.Cmd.Config.{config}

module _ {ℓ} {W : Type ℓ} (parse_duration : String → Result Err ℤ) (seconds : ℤ → ℤ) (now : Time)
    (app : App W) (v : Settings) where
  -- The `RunE` of `newTokenListCmd`
  unfoldable pub token_list : Op W (List ConsumerToken)
  unfolding config Commands.list_consumer_tokens
  token_list = config app v true >>= λ cfg.
      wrapping (wrap "token list") (Commands.list_consumer_tokens app.build seconds now cfg)

  -- The `RunE` of `newTokenRevokeCmd`
  unfoldable pub token_revoke : String → Op W (Unit {0})
  unfolding config Commands.revoke_consumer_token
  token_revoke id = config app v true >>= λ cfg.
      wrapping (wrap "token revoke") (Commands.revoke_consumer_token app.build seconds now cfg id)

  -- The `RunE` of `newTokenPurgeCmd`
  unfoldable pub token_purge : String → Op W (Unit {0})
  unfolding config Commands.purge_consumer_token
  token_purge id = config app v true >>= λ cfg.
      wrapping (wrap "token purge") (Commands.purge_consumer_token app.build seconds now cfg id)

  -- The `RunE` of `newTokenCreateCmd`
  unfoldable pub token_create : String → String → String → Op W ConsumerTokenWithValue
  unfolding parse_ttl config Commands.create_consumer_token
  token_create consumer description ttl = from_result (parse_ttl parse_duration ttl) >>= λ d.
      config app v true >>= λ cfg.
      wrapping (wrap "token create")
        (Commands.create_consumer_token app.build seconds now cfg consumer description d)

  -- The `RunE` of `newTokenRotateCmd`
  unfoldable pub token_rotate : String → String → Op W ConsumerTokenWithValue
  unfolding parse_ttl config Commands.rotate_consumer_token
  token_rotate id ttl = from_result (parse_ttl parse_duration ttl) >>= λ d.
      config app v true >>= λ cfg.
      wrapping (wrap "token rotate") (Commands.rotate_consumer_token app.build seconds now cfg id d)
