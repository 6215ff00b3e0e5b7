-- ===== src/Cliconfig/Prompt.antt =====
-- internal/cliconfig/prompt.go, with `Confirm` of cliconfig.go: the questions that set a configuration up.
use Prim.Native.String.{◌++◌}
use hush_hush_cli.Prelude.{String, Bool, true, ◌||◌, Option, none, some, if◌then◌else◌, ◌==◌}
use hush_hush_cli.Prelude.Text.{is_empty, to_lower, trim_space}
use hush_hush_cli.Client.Errors.{wrap}
use hush_hush_cli.Client.Op.{Op, ◌>>=◌, done, wrapping}
use hush_hush_cli.Cliconfig.{Io}

-- `PersistChoice`
pub data PersistChoice : Type 0 where
  persist_skip persist_keyring persist_command persist_literal : PersistChoice

-- `Values`
pub record Values : Type 0 where
  pub server : String
  pub caller : String
  pub recipients : String

-- `CredentialAnswer`
pub record CredentialAnswer : Type 0 where
  pub value : String
  pub choice : PersistChoice
  pub extra : String

-- `PromptResult`
pub record PromptResult : Type 0 where
  pub server : String
  pub caller : String
  pub recipients : String
  pub token : CredentialAnswer
  pub identity : CredentialAnswer

-- Whether a line, or the end of the input, agrees.
unfoldable pub agrees : Option String → Bool
unfolding to_lower trim_space
agrees none = true
agrees (some line) =
    let answer = to_lower (trim_space line) in is_empty answer || answer == "y" || answer == "yes"

-- The value that a line gives over the current one.
unfoldable pub chosen : String → Option String → String
unfolding trim_space
chosen current none = current
chosen current (some line) = if is_empty (trim_space line) then current else trim_space line

module _ {ℓ} {W : Type ℓ} (io : Io W) where
  -- `Confirm`; whether the question could be written is not looked at.
  unfoldable pub confirm : String → W → Bool × W
  unfolding agrees
  confirm question w =
      let (written, w1) = io.print (question ++ " [Y/n] ") w in
      let (line, w2) = io.scan w1 in (agrees line, w2)

  -- A line of the input.
  abbrev scanned : Op W (Option String)
  scanned w = let (line, w1) = io.scan w in done line w1

  -- `PromptValue`
  unfoldable pub prompt_value : String → String → Op W String
  unfolding chosen
  prompt_value label current =
      wrapping (wrap "write prompt") (io.print (label ++ " [" ++ current ++ "]: ")) >>= λ _.
      scanned >>= λ line. done (chosen current line)

  -- `PromptSecret`
  unfoldable pub prompt_secret : String → Op W String
  unfolding trim_space
  prompt_secret label = wrapping (wrap "write prompt") (io.print (label ++ ": ")) >>= λ _.
      wrapping (wrap ("read " ++ label)) io.read_password >>= λ secret.
      wrapping (wrap "write newline") (io.print "\n") >>= λ _. done (trim_space secret)

  -- What follows the choice of a command: the command's line.
  unfoldable pub command_choice : Option String → PersistChoice × String
  unfolding trim_space
  command_choice none = (persist_skip, "")
  command_choice (some line) = (persist_command, trim_space line)

  -- What follows the choice.
  unfoldable pub persist_choice : Option String → Op W (PersistChoice × String)
  unfolding command_choice trim_space
  persist_choice none = done (persist_skip, "")
  persist_choice (some line) =
      if trim_space line == "1"
      then done (persist_keyring, "")
      else if trim_space line == "2"
      then (wrapping (wrap "write prompt") (io.print "command: ") >>= λ _.
          scanned >>= λ command. done (command_choice command))
      else if trim_space line == "3"
      then done (persist_literal, "")
      else done (persist_skip, "")

  -- The question of `PromptPersistence`.
  abbrev persistence_question : String → String
  persistence_question field =
      "Save " ++ field
      ++ " for next time?\n  1) OS keyring\n  2) a command that retrieves it\n  3) the literal value in the config file\n  4) don't save it\nchoice [4]: "

  -- `PromptPersistence`
  unfoldable pub prompt_persistence : String → Op W (PersistChoice × String)
  unfolding persist_choice
  prompt_persistence field =
      wrapping (wrap "write prompt") (io.print (persistence_question field)) >>= λ _.
      scanned >>= persist_choice

  -- An answer from the secret: an empty one is not asked about further.
  unfoldable pub credential_of : String → String → Op W CredentialAnswer
  unfolding prompt_persistence
  credential_of label value =
      if is_empty value
      then done (record { value = ""; choice = persist_skip; extra = "" })
      else prompt_persistence label >>= λ (choice, extra).
          done (record { value = value; choice = choice; extra = extra })

  -- `promptCredential`
  unfoldable pub prompt_credential : String → Op W CredentialAnswer
  unfolding prompt_secret credential_of
  prompt_credential label = prompt_secret label >>= credential_of label

  -- `PromptConfig`
  unfoldable pub prompt_config : Values → Op W PromptResult
  unfolding prompt_value prompt_credential
  prompt_config current = prompt_value "Server URL" current.server >>= λ server.
      prompt_credential "Token" >>= λ token.
      prompt_value "Caller identity (optional)" current.caller >>= λ caller.
      prompt_value "Recipients (comma-separated age public keys, optional)" current.recipients
      >>= λ recipients.
          prompt_credential "Identity (comma-separated age private keys)" >>= λ identity.
          done (record {
            server = server;
            caller = caller;
            recipients = recipients;
            token = token;
            identity = identity;
          })
