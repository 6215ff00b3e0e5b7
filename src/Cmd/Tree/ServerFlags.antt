-- ===== src/Cmd/Tree/ServerFlags.antt =====
-- The flags of the other commands of internal/cmd, and the persistent ones.

use hush_hush_cli.Prelude.{false, List, [], ◌∷◌}
use hush_hush_cli.Cmd.Tree.{Flag, text_flag, switch_flag, number_flag}

-- The persistent flags of `newRootCmd`
abbrev pub root_flags : List Flag
root_flags =
    record {
      name = "server";
      shorthand = "";
      preset = text_flag "http://localhost:8080";
      usage = "hush-hush server URL";
    }
    ∷ record {
      name = "token";
      shorthand = "";
      preset = text_flag "";
      usage = "write-path bearer token";
    }
    ∷ record {
      name = "token-command";
      shorthand = "";
      preset = text_flag "";
      usage =
          "command whose trimmed stdout is the write-path bearer token (wins over --token if both are set)";
    }
    ∷ record {
      name = "consumer-token";
      shorthand = "";
      preset = text_flag "";
      usage =
          "read-only, consumer-scoped bearer token - used by get only, as a fallback when --token isn't set";
    }
    ∷ record {
      name = "consumer-token-command";
      shorthand = "";
      preset = text_flag "";
      usage =
          "command whose trimmed stdout is the consumer token instead (wins over --consumer-token if both are set)";
    }
    ∷ record {
      name = "caller";
      shorthand = "";
      preset = text_flag "";
      usage = "self-presented identity recorded in the audit log";
    }
    ∷ record {
      name = "yes";
      shorthand = "y";
      preset = switch_flag false;
      usage = "write a starter config with no prompt, if none exists";
    }
    ∷ []

abbrev pub init_flags : List Flag
init_flags =
    record {
      name = "force";
      shorthand = "";
      preset = switch_flag false;
      usage = "overwrite an existing config file";
    }
    ∷ []

abbrev pub audit_log_flags : List Flag
audit_log_flags =
    record {
      name = "object";
      shorthand = "";
      preset = text_flag "";
      usage = "restrict to entries for this object id";
    }
    ∷ record {
      name = "actor";
      shorthand = "";
      preset = text_flag "";
      usage =
          "restrict to entries authenticated by this verified actor (a token id, or the admin account's own actor id)";
    }
    ∷ record {
      name = "caller";
      shorthand = "";
      preset = text_flag "";
      usage = "restrict to entries recorded with this caller identity";
    }
    ∷ record {
      name = "since";
      shorthand = "";
      preset = text_flag "";
      usage = "restrict to entries at or after this RFC3339 time";
    }
    ∷ record {
      name = "until";
      shorthand = "";
      preset = text_flag "";
      usage = "restrict to entries at or before this RFC3339 time";
    }
    ∷ record {
      name = "format";
      shorthand = "";
      preset = text_flag "table";
      usage = "output format: table or json";
    }
    ∷ record {
      name = "limit";
      shorthand = "";
      preset = number_flag 0;
      usage = "maximum number of entries to print (0 means every matching entry)";
    }
    ∷ []

abbrev pub token_create_flags : List Flag
token_create_flags =
    record {
      name = "description";
      shorthand = "";
      preset = text_flag "";
      usage = "free-text label for the token";
    }
    ∷ record {
      name = "ttl";
      shorthand = "";
      preset = text_flag "";
      usage = "how long the token stays valid, starting now (a Go duration, e.g. 720h)";
    }
    ∷ record {
      name = "json";
      shorthand = "";
      preset = switch_flag false;
      usage = "print the raw JSON object instead of a table";
    }
    ∷ []

abbrev pub token_list_flags : List Flag
token_list_flags =
    record {
      name = "json";
      shorthand = "";
      preset = switch_flag false;
      usage = "print the raw JSON array instead of a table";
    }
    ∷ []

abbrev pub token_rotate_flags : List Flag
token_rotate_flags =
    record {
      name = "ttl";
      shorthand = "";
      preset = text_flag "";
      usage = "how long the rotated token stays valid, starting now (a Go duration, e.g. 720h)";
    }
    ∷ record {
      name = "json";
      shorthand = "";
      preset = switch_flag false;
      usage = "print the raw JSON object instead of a table";
    }
    ∷ []

abbrev pub consumer_list_flags : List Flag
consumer_list_flags =
    record {
      name = "query";
      shorthand = "";
      preset = text_flag "";
      usage = "only consumers whose name contains this text (case-insensitive)";
    }
    ∷ record {
      name = "json";
      shorthand = "";
      preset = switch_flag false;
      usage = "print the raw JSON array instead of a table";
    }
    ∷ []

abbrev pub consumer_add_flags : List Flag
consumer_add_flags =
    record {
      name = "json";
      shorthand = "";
      preset = switch_flag false;
      usage = "print the raw JSON object instead of a table";
    }
    ∷ []

abbrev pub consumer_update_flags : List Flag
consumer_update_flags =
    record {
      name = "name";
      shorthand = "";
      preset = text_flag "";
      usage = "the consumer's new name (merges into an existing one of that name)";
    }
    ∷ record {
      name = "public-key";
      shorthand = "";
      preset = text_flag "";
      usage = "the consumer's age public key (age1...)";
    }
    ∷ record {
      name = "json";
      shorthand = "";
      preset = switch_flag false;
      usage = "print the raw JSON object instead of a table";
    }
    ∷ []

abbrev pub status_flags : List Flag
status_flags =
    record {
      name = "json";
      shorthand = "";
      preset = switch_flag false;
      usage = "print the raw JSON object instead of a plain line";
    }
    ∷ []

abbrev pub health_flags : List Flag
health_flags =
    record {
      name = "json";
      shorthand = "";
      preset = switch_flag false;
      usage = "print the raw JSON object instead of plain lines";
    }
    ∷ []
