-- ===== src/Cliconfig.antt =====
-- internal/cliconfig: finding the configuration, asking for its values, keeping secrets and writing the file.
-- What the program does to its surroundings goes through the operations of `Io`, over a world `W`: the terminal,
-- the OS keyring, the shell, the environment and the files are not part of the repository.
pub mod Prompt
pub mod Secret
pub mod Render
pub mod Setup
use hush_hush_cli.Prelude.{String, Bool, Option}
use hush_hush_cli.Client.Op.{Op}

pub record Io {ℓ} (W : Type ℓ) : Type ℓ where
  -- Writes to stdout and to stderr.
  pub print : String → Op W (Unit {0})
  pub print_err : String → Op W (Unit {0})
  -- `sc.Scan()` and `sc.Text()`: the next line of the input, if there is one.
  pub scan : W → Option String × W
  -- A masked read, as a text.
  pub read_password : Op W String
  -- `keyring.Set` and `keyring.Get`, of a service and a field.
  pub keyring_set : String → String → String → Op W (Unit {0})
  pub keyring_get : String → String → Op W String
  -- `exec.Command("sh", "-c", command).Output()`
  pub run_shell : String → Op W String
  -- `os.WriteFile` with mode 0600, `os.Stat` without error, and `os.LookupEnv` finding the name.
  pub write_file : String → String → Op W (Unit {0})
  pub file_exists : String → W → Bool
  pub env_set : String → W → Bool
