-- ===== src/Cmd.antt =====
-- internal/cmd: the commands. A command is a function of its flags and arguments over a world; Printed adds
-- what it prints to those that print. Flag parsing (cobra) and the lookup of settings (viper) are not part of
-- the repository.
pub mod Tree
pub mod Config
pub mod Flags
pub mod Objects
pub mod Lists
pub mod Directory
pub mod Tokens
pub mod Init
pub mod Printed
pub mod Guards
use hush_hush_cli.Prelude.{ℕ, String, List, Result}
use hush_hush_cli.Client.Errors.{Err}
use hush_hush_cli.Client.Op.{Op}
use hush_hush_cli.Client.Remote.{Builder}
use hush_hush_cli.Cliconfig.{Io}

-- What viper has for each key: the flag, the environment variable, the file or the default.
pub record Settings : Type 0 where
  pub server : String
  pub token : String
  pub token_command : String
  pub consumer_token : String
  pub consumer_token_command : String
  pub caller : String
  pub recipients : String
  pub identity : String
  pub identity_command : String

-- What the commands use of the program's surroundings. The standard input is read to its end.
pub record App {ℓ} (W : Type ℓ) : Type ℓ where
  pub io : Io W
  pub read_stdin : Op W (List ℕ)
  pub write_stdout : List ℕ → Op W (Unit {0})
  pub parse_url : String → Result Err (String × String)
  pub build : Builder W
