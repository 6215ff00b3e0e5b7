-- ===== src/Cmd/Tree/ObjectCommands.antt =====
-- The commands of internal/cmd on objects.
use hush_hush_cli.Prelude.{false}
use hush_hush_cli.Cmd.Tree.{Command, no_args, exact_args}
use hush_hush_cli.Cmd.Tree.ObjectFlags.{
  inject_flags, get_flags, update_flags, edit_flags, list_flags, delete_flags, used_by_flags,
}

-- `newInjectCmd`
abbrev pub new_inject_cmd : Command
new_inject_cmd = record {
  use_line = "inject <id>";
  short = "Seal a value (read from stdin) and create a new object";
  long = "";
  args = exact_args 1;
  hidden = false;
  flags = inject_flags;
}

-- `newGetCmd`
abbrev pub new_get_cmd : Command
new_get_cmd = record {
  use_line = "get <id>";
  short = "Fetch and decrypt one value to stdout";
  long = "";
  args = exact_args 1;
  hidden = false;
  flags = get_flags;
}

-- `newUpdateCmd`
abbrev pub new_update_cmd : Command
new_update_cmd = record {
  use_line = "update <id>";
  short = "Seal a new value (read from stdin) and replace an object's stored value";
  long = "";
  args = exact_args 1;
  hidden = false;
  flags = update_flags;
}

-- `newEditCmd`
abbrev pub new_edit_cmd : Command
new_edit_cmd = record {
  use_line = "edit <id>";
  short = "Change an object's description, tags or name without touching its value";
  long = "";
  args = exact_args 1;
  hidden = false;
  flags = edit_flags;
}

-- `newListCmd`
abbrev pub new_list_cmd : Command
new_list_cmd = record {
  use_line = "list";
  short = "List stored objects' metadata";
  long = "";
  args = no_args;
  hidden = false;
  flags = list_flags;
}

-- `newDeleteCmd`
abbrev pub new_delete_cmd : Command
new_delete_cmd = record {
  use_line = "delete <id>";
  short = "Permanently remove an object";
  long = "";
  args = exact_args 1;
  hidden = false;
  flags = delete_flags;
}

-- `newUsedByCmd`
abbrev pub new_used_by_cmd : Command
new_used_by_cmd = record {
  use_line = "used-by <id>";
  short = "Print an object's recorded consumers";
  long = "";
  args = exact_args 1;
  hidden = false;
  flags = used_by_flags;
}
