-- ===== src/Cmd/Tree/ObjectFlags.antt =====
-- The flags of the commands of internal/cmd on objects.
use Prim.Native.String.{◌++◌}
use hush_hush_cli.Prelude.{String, false, List, [], ◌∷◌}
use hush_hush_cli.Cmd.Tree.{Flag, text_flag, list_flag, switch_flag, append}

-- `keepReadableCopyUsage`
abbrev keep_readable_copy_usage : String
keep_readable_copy_usage =
    "also seal to your own escrowed identity key, so you can decrypt it yourself"

-- `tagFlagUsage`
abbrev tag_flag_usage : String
tag_flag_usage =
    "label for grouping secrets (repeatable, or comma-separated; 1-32 chars of a-z 0-9 . _ / -, max 10)"

-- `variantFlags.register`
abbrev variant_flags : List Flag
variant_flags =
    record {
      name = "id";
      shorthand = "";
      preset = text_flag "";
      usage = "UUID of one variant, for a name that has several (see list --json)";
    }
    ∷ record {
      name = "consumer";
      shorthand = "";
      preset = text_flag "";
      usage = "pick the variant used by this consumer, for a name that has several";
    }
    ∷ []

abbrev pub inject_flags : List Flag
inject_flags =
    record {
      name = "used-by";
      shorthand = "";
      preset = list_flag;
      usage = "consumers of this secret (repeatable, or comma-separated)";
    }
    ∷ record {
      name = "recipients";
      shorthand = "";
      preset = text_flag "";
      usage = "comma-separated age recipient public keys";
    }
    ∷ record { name = "tag"; shorthand = ""; preset = list_flag; usage = tag_flag_usage }
    ∷ record {
      name = "keep-readable-copy";
      shorthand = "";
      preset = switch_flag false;
      usage = keep_readable_copy_usage;
    }
    ∷ record {
      name = "description";
      shorthand = "";
      preset = text_flag "";
      usage = "free-text label for this object, fixed at creation";
    }
    ∷ []

abbrev pub get_flags : List Flag
get_flags = append variant_flags (
    record {
      name = "identity";
      shorthand = "";
      preset = text_flag "";
      usage = "comma-separated age private keys";
    }
    ∷ record {
      name = "identity-command";
      shorthand = "";
      preset = text_flag "";
      usage =
          "command whose trimmed stdout is the identity instead (wins over --identity if both are set)";
    }
    ∷ [])

abbrev pub update_flags : List Flag
update_flags = append variant_flags (
    record {
      name = "recipients";
      shorthand = "";
      preset = text_flag "";
      usage = "comma-separated age recipient public keys";
    }
    ∷ record {
      name = "tag";
      shorthand = "";
      preset = list_flag;
      usage = (tag_flag_usage ++ "; replaces the object's tags");
    }
    ∷ record {
      name = "clear-tags";
      shorthand = "";
      preset = switch_flag false;
      usage = "remove every tag from the object";
    }
    ∷ record {
      name = "used-by";
      shorthand = "";
      preset = list_flag;
      usage =
          "replace the object's consumers (repeatable, or comma-separated); seals to their registered keys unless --recipients is given";
    }
    ∷ record {
      name = "keep-readable-copy";
      shorthand = "";
      preset = switch_flag false;
      usage = keep_readable_copy_usage;
    }
    ∷ record {
      name = "clear-used-by";
      shorthand = "";
      preset = switch_flag false;
      usage = "remove every consumer from the object";
    }
    ∷ [])

abbrev pub edit_flags : List Flag
edit_flags = append variant_flags (
    record {
      name = "description";
      shorthand = "";
      preset = text_flag "";
      usage = "replace the free-text label (empty clears it)";
    }
    ∷ record {
      name = "slug";
      shorthand = "";
      preset = text_flag "";
      usage = "rename the object; every variant of the name moves";
    }
    ∷ record {
      name = "tag";
      shorthand = "";
      preset = list_flag;
      usage = (tag_flag_usage ++ "; replaces the object's tags");
    }
    ∷ record {
      name = "clear-tags";
      shorthand = "";
      preset = switch_flag false;
      usage = "remove every tag from the object";
    }
    ∷ [])

abbrev pub list_flags : List Flag
list_flags =
    record {
      name = "used-by";
      shorthand = "";
      preset = text_flag "";
      usage = "only objects whose used_by includes this consumer";
    }
    ∷ record {
      name = "tag";
      shorthand = "";
      preset = list_flag;
      usage = "only objects carrying this tag (repeatable, or comma-separated; all must match)";
    }
    ∷ record {
      name = "json";
      shorthand = "";
      preset = switch_flag false;
      usage = "print the raw JSON array instead of a table";
    }
    ∷ []

abbrev pub delete_flags : List Flag
delete_flags = variant_flags

abbrev pub used_by_flags : List Flag
used_by_flags = append variant_flags (
    record {
      name = "json";
      shorthand = "";
      preset = switch_flag false;
      usage = "print the raw JSON array instead of one consumer per line";
    }
    ∷ [])
