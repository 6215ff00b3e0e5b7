-- ===== src/Cmd/Tree.antt =====
-- The commands of internal/cmd as they are declared to cobra: the line that shows their use, how many arguments
-- they take, and their flags with their defaults. What cobra makes of them is outside the repository.
mod ObjectFlags
mod ServerFlags
mod ObjectCommands
pub mod Commands
pub mod Sound
use hush_hush_cli.Prelude.{ℕ, String, Bool, List, [], ◌∷◌}

-- What a flag holds, with its default.
pub data Preset : Type 0 where
  text_flag : String → Preset
  list_flag : Preset
  switch_flag : Bool → Preset
  number_flag : ℕ → Preset

pub record Flag : Type 0 where
  pub name : String
  pub shorthand : String
  pub preset : Preset
  pub usage : String

-- `cobra.NoArgs` and `cobra.ExactArgs`, and what a command has that names neither.
pub data Args : Type 0 where
  no_args : Args
  exact_args : ℕ → Args
  any_args : Args

pub record Command : Type 0 where
  pub use_line : String
  pub short : String
  pub long : String
  pub args : Args
  pub hidden : Bool
  pub flags : List Flag

-- A command with the commands below it.
abbrev pub Group : Type 0
Group = Command × List Command

abbrev pub append : List Flag → List Flag → List Flag
append [] ys = ys
append (x ∷ xs) ys = x ∷ append xs ys
