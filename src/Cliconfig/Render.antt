-- ===== src/Cliconfig/Render.antt =====
-- internal/cliconfig/render.go: the text of the configuration file. `quote` is `strconv.Quote`.
use Prim.Native.String.{◌++◌}
use hush_hush_cli.Prelude.{String, if◌then◌else◌}
use hush_hush_cli.Prelude.Text.{is_empty}
use hush_hush_cli.Cliconfig.Secret.{RenderedSecret}

-- `StarterConfig`
abbrev pub starter_config : String
starter_config =
    "# hush-hush-cli config file. Flags and HUSH_HUSH_* environment variables\n# both override these - see README.md#configuration.\nserver: http://localhost:8080\ntoken: \"\"\n# token_command runs a command and uses its trimmed stdout as the token\n# instead - it wins over the literal value above if both are set.\n# token_command: \"pass show hush-hush/write-token\"\n# consumer_token is a read-only, consumer-scoped token - only used by\n# get, and only when token above is empty. Mint one with\n# \"hush-hush-cli token create <consumer> --ttl <duration>\".\nconsumer_token: \"\"\n# consumer_token_command works the same as token_command, for consumer_token.\n# consumer_token_command: \"pass show hush-hush/consumer-token\"\ncaller: \"\"\nrecipients: \"\"\nidentity: \"\"\n# identity_command runs a command and uses its trimmed stdout as the\n# identity instead - it wins over the literal value above if both are set.\n# identity_command: \"pass show hush-hush/identity-key\"\n"

module _ (quote : String → String) where
  -- The line of a command, or the comment that stands in its place.
  abbrev command_line : String → String → String → String
  command_line key hint command =
      if is_empty command
      then "# " ++ key ++ ": \"" ++ hint ++ "\"\n"
      else key ++ ": " ++ quote command ++ "\n"

  -- `Render`
  unfoldable pub render : String → RenderedSecret → String → String → RenderedSecret → String
  render server token caller recipients identity =
      "# hush-hush-cli config file. Flags and HUSH_HUSH_* environment variables\n"
      ++ "# both override these - see README.md#configuration.\n"
      ++ "server: "
      ++ quote server
      ++ "\n"
      ++ "token: "
      ++ quote token.literal
      ++ "\n"
      ++ "# token_command runs a command and uses its trimmed stdout as the token\n"
      ++ "# instead - it wins over the literal value above if both are set.\n"
      ++ command_line "token_command" "pass show hush-hush/write-token" token.command
      ++ "caller: "
      ++ quote caller
      ++ "\n"
      ++ "recipients: "
      ++ quote recipients
      ++ "\n"
      ++ "identity: "
      ++ quote identity.literal
      ++ "\n"
      ++ "# identity_command runs a command and uses its trimmed stdout as the\n"
      ++ "# identity instead - it wins over the literal value above if both are set.\n"
      ++ command_line "identity_command" "pass show hush-hush/identity-key" identity.command
