-- ===== src/Cliconfig/Secret.antt =====
-- internal/cliconfig/secret.go, `PersistCredential` of render.go and internal/cmd/config_keyring.go: where a
-- secret is kept, and how it is read back.
pub mod Kept
pub mod Secrecy
use Prim.Native.String.{◌++◌}
use hush_hush_cli.Prelude.{String, if◌then◌else◌}
use hush_hush_cli.Prelude.Text.{is_empty, trim_newline}
use hush_hush_cli.Client.Errors.{Err, wrap}
use hush_hush_cli.Client.Op.{Op, ◌>>=◌, done, wrapping}
use hush_hush_cli.Cliconfig.{Io}
use hush_hush_cli.Cliconfig.Prompt.{
  PersistChoice, persist_skip, persist_keyring, persist_command, persist_literal, CredentialAnswer,
}

-- `KeyringService`
abbrev pub keyring_service : String
keyring_service = "hush-hush-cli"

-- `RenderedSecret`
pub record RenderedSecret : Type 0 where
  pub literal : String
  pub command : String

abbrev pub nothing_kept : RenderedSecret
nothing_kept = record { literal = ""; command = "" }

-- The command that prints a field of the keyring.
abbrev pub keyring_command : String → String
keyring_command field = "hush-hush-cli config keyring-get " ++ field

module _ {ℓ} {W : Type ℓ} (io : Io W) where
  -- `runSecretCommand`
  unfoldable pub run_secret_command : String → Op W String
  unfolding trim_newline
  run_secret_command command =
      wrapping (wrap "run") (io.run_shell command) >>= λ out. done (trim_newline out)

  -- `ResolveSecret`
  unfoldable pub resolve_secret : String → String → Op W String
  unfolding run_secret_command
  resolve_secret literal command =
      if is_empty command then done literal else wrapping (wrap "run") (run_secret_command command)

  -- The part of `PersistCredential` that a choice takes.
  unfoldable pub persist : PersistChoice → String → String → String → Op W RenderedSecret
  persist persist_keyring value extra field =
      wrapping (wrap ("store " ++ field ++ " in keyring"))
        (io.keyring_set keyring_service field value)
      >>= λ _. done (record { literal = ""; command = keyring_command field })
  persist persist_command value extra field = done (record { literal = ""; command = extra })
  persist persist_literal value extra field = done (record { literal = value; command = "" })
  persist persist_skip value extra field = done nothing_kept

  -- `PersistCredential`
  unfoldable pub persist_credential : CredentialAnswer → String → Op W RenderedSecret
  unfolding persist
  persist_credential answer field = persist answer.choice answer.value answer.extra field

  -- What `config keyring-get` prints.
  unfoldable pub keyring_line : String → Op W String
  keyring_line field =
      wrapping (wrap ("keyring get " ++ field)) (io.keyring_get keyring_service field) >>= λ value.
      done (value ++ "\n")

  -- The `RunE` of `newKeyringGetCmd`
  unfoldable pub keyring_get : String → Op W (Unit {0})
  unfolding keyring_line
  keyring_get field =
      keyring_line field >>= λ line. wrapping (wrap "write keyring value") (io.print line)
