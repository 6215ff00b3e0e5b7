-- ===== src/Cmd/Tree/Commands.antt =====
-- The other commands of internal/cmd, and all of them as `newRootCmd` puts them together.
use hush_hush_cli.Prelude.{true, false, List, [], ◌∷◌}
use hush_hush_cli.Cmd.Tree.{Command, Group, no_args, any_args, exact_args}
use hush_hush_cli.Cmd.Tree.ServerFlags.{
  root_flags, init_flags, audit_log_flags, token_create_flags, token_list_flags, token_rotate_flags,
  consumer_list_flags, consumer_add_flags, consumer_update_flags, status_flags, health_flags,
}
use hush_hush_cli.Cmd.Tree.ObjectCommands.{
  new_inject_cmd, new_get_cmd, new_update_cmd, new_edit_cmd, new_list_cmd, new_delete_cmd,
  new_used_by_cmd,
}

-- `newInitCmd`
abbrev pub new_init_cmd : Command
new_init_cmd = record {
  use_line = "init";
  short = "Write a starter config file";
  long = "";
  args = any_args;
  hidden = false;
  flags = init_flags;
}

-- `newAuditLogCmd`
abbrev pub new_audit_log_cmd : Command
new_audit_log_cmd = record {
  use_line = "audit-log";
  short = "Query the audit trail of create/read/update/delete calls";
  long = "";
  args = no_args;
  hidden = false;
  flags = audit_log_flags;
}

-- `newTokenCmd`
abbrev pub new_token_cmd : Command
new_token_cmd = record {
  use_line = "token";
  short = "Mint and manage consumer read tokens";
  long = "";
  args = any_args;
  hidden = false;
  flags = [];
}

-- `newTokenCreateCmd`
abbrev pub new_token_create_cmd : Command
new_token_create_cmd = record {
  use_line = "create <consumer>";
  short = "Mint a new consumer read token";
  long = "";
  args = exact_args 1;
  hidden = false;
  flags = token_create_flags;
}

-- `newTokenListCmd`
abbrev pub new_token_list_cmd : Command
new_token_list_cmd = record {
  use_line = "list";
  short = "List every issued consumer token's metadata";
  long = "";
  args = no_args;
  hidden = false;
  flags = token_list_flags;
}

-- `newTokenRotateCmd`
abbrev pub new_token_rotate_cmd : Command
new_token_rotate_cmd = record {
  use_line = "rotate <id>";
  short = "Replace a consumer token's secret and expiry";
  long = "";
  args = exact_args 1;
  hidden = false;
  flags = token_rotate_flags;
}

-- `newTokenRevokeCmd`
abbrev pub new_token_revoke_cmd : Command
new_token_revoke_cmd = record {
  use_line = "revoke <id>";
  short = "Invalidate a consumer token";
  long = "";
  args = exact_args 1;
  hidden = false;
  flags = [];
}

-- `newTokenPurgeCmd`
abbrev pub new_token_purge_cmd : Command
new_token_purge_cmd = record {
  use_line = "purge <id>";
  short = "Permanently remove an already-revoked or expired consumer token";
  long = "";
  args = exact_args 1;
  hidden = false;
  flags = [];
}

-- `newConsumerCmd`
abbrev pub new_consumer_cmd : Command
new_consumer_cmd = record {
  use_line = "consumer";
  short = "Manage the consumer directory";
  long = "";
  args = any_args;
  hidden = false;
  flags = [];
}

-- `newConsumerListCmd`
abbrev pub new_consumer_list_cmd : Command
new_consumer_list_cmd = record {
  use_line = "list";
  short = "List consumers with their secret count and public key";
  long = "";
  args = no_args;
  hidden = false;
  flags = consumer_list_flags;
}

-- `newConsumerAddCmd`
abbrev pub new_consumer_add_cmd : Command
new_consumer_add_cmd = record {
  use_line = "add <name>";
  short = "Add a consumer no secret references yet";
  long = "";
  args = exact_args 1;
  hidden = false;
  flags = consumer_add_flags;
}

-- `newConsumerUpdateCmd`
abbrev pub new_consumer_update_cmd : Command
new_consumer_update_cmd = record {
  use_line = "update <name>";
  short = "Rename a consumer and/or register its age public key";
  long = "";
  args = exact_args 1;
  hidden = false;
  flags = consumer_update_flags;
}

-- `newConsumerDeleteCmd`
abbrev pub new_consumer_delete_cmd : Command
new_consumer_delete_cmd = record {
  use_line = "delete <name>";
  short = "Remove a consumer from every secret that references it";
  long =
      "Strips the consumer from every secret's used_by list and the directory. No secret is deleted, even one left with an empty used_by list.";
  args = exact_args 1;
  hidden = false;
  flags = [];
}

-- `newStatusCmd`
abbrev pub new_status_cmd : Command
new_status_cmd = record {
  use_line = "status";
  short = "Report whether the target server has an admin account bootstrapped yet";
  long = "";
  args = no_args;
  hidden = false;
  flags = status_flags;
}

-- `newHealthCmd`
abbrev pub new_health_cmd : Command
new_health_cmd = record {
  use_line = "health";
  short = "Report whether the target server is up";
  long = "";
  args = no_args;
  hidden = false;
  flags = health_flags;
}

-- `newConfigCmd`
abbrev pub new_config_cmd : Command
new_config_cmd = record {
  use_line = "config";
  short = "Config-file internals (not for direct use)";
  long = "";
  args = any_args;
  hidden = true;
  flags = [];
}

-- `newKeyringGetCmd`
abbrev pub new_keyring_get_cmd : Command
new_keyring_get_cmd = record {
  use_line = "keyring-get <field>";
  short = "Print a value previously stored in the OS keyring (not for direct use)";
  long = "";
  args = exact_args 1;
  hidden = true;
  flags = [];
}

-- `newManCmd`
abbrev pub new_man_cmd : Command
new_man_cmd = record {
  use_line = "man <dir>";
  short = "Generate man pages into dir";
  long = "";
  args = exact_args 1;
  hidden = true;
  flags = [];
}

-- The root of `newRootCmd`.
abbrev pub root_cmd : Command
root_cmd = record {
  use_line = "hush-hush-cli";
  short = "Client for the hush-hush secrets object store";
  long = "";
  args = any_args;
  hidden = false;
  flags = root_flags;
}

-- The commands below `token`.
abbrev token_commands : List Command
token_commands =
    new_token_create_cmd ∷ new_token_list_cmd ∷ new_token_rotate_cmd ∷ new_token_revoke_cmd
    ∷ new_token_purge_cmd ∷ []

-- The commands below `consumer`.
abbrev consumer_commands : List Command
consumer_commands =
    new_consumer_list_cmd ∷ new_consumer_add_cmd ∷ new_consumer_update_cmd ∷ new_consumer_delete_cmd
    ∷ []

-- The commands below `config`.
abbrev config_commands : List Command
config_commands = new_keyring_get_cmd ∷ []

-- `newRootCmd`: the commands below the root, each with those below it.
abbrev pub root_tree : List Group
root_tree =
    (new_init_cmd, [])
    ∷ (new_inject_cmd, [])
    ∷ (new_get_cmd, [])
    ∷ (new_update_cmd, [])
    ∷ (new_edit_cmd, [])
    ∷ (new_list_cmd, [])
    ∷ (new_delete_cmd, [])
    ∷ (new_used_by_cmd, [])
    ∷ (new_audit_log_cmd, [])
    ∷ (new_token_cmd, token_commands)
    ∷ (new_consumer_cmd, consumer_commands)
    ∷ (new_status_cmd, [])
    ∷ (new_health_cmd, [])
    ∷ (new_config_cmd, config_commands)
    ∷ (new_man_cmd, [])
    ∷ []
