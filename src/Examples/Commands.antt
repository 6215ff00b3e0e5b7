-- ===== src/Examples/Commands.antt =====
-- The flags of internal/cmd at concrete flags, and an age library of two lines.
use hush_hush_cli.Prelude.{
  ℕ, String, ◌≡◌, refl, sym, ap, true, false, ◌&&◌, none, some, List, [], ◌∷◌, Result, ok,
  ok-injective,
}
use hush_hush_cli.Client.Errors.{Err}
use hush_hush_cli.Client.Calls.{SdkMetadata}
use hush_hush_cli.Client.Seal.Opened.{Among}
use hush_hush_cli.Cli.Options.{WriteOption, with_tags, given_or_nil, new_write_options}
use hush_hush_cli.Cmd.Flags.{UpdateFlags, VariantFlags, update_options, update_recipients}
use hush_hush_cli.Cmd.Objects.{no_names}
use hush_hush_cli.Cmd.Guards.{update_meaning, update_options-meaning}
use hush_hush_cli.Cmd.Guards.Accepted.{update_recipients_somebody}

abbrev any_variant : VariantFlags
any_variant = record { id = ""; consumer = "" }

abbrev to_web : UpdateFlags
to_web = record {
  tags = some ("prod" ∷ []);
  clear_tags = false;
  used_by = some ("web" ∷ []);
  clear_used_by = false;
  keep_copy = true;
  variant = record { id = "u2"; consumer = "" };
}

update_options-meaning_example : new_write_options (update_options to_web) ≡ update_meaning to_web
update_options-meaning_example = update_options-meaning to_web

update_recipients_somebody_example :
    (no_names [] && no_names (given_or_nil (new_write_options (update_options to_web)).used_by))
    ≡ false
unfolding update_recipients
update_recipients_somebody_example = update_recipients_somebody to_web "" [] refl

abbrev pub shown : String → SdkMetadata
shown slug = record {
  id = "u9";
  slug = slug;
  used_by = none;
  description = none;
  tags = [];
  created_at = none;
  created_by = none;
  updated_at = none;
  updated_by = none;
}

abbrev pub parse_key : String → Result Err String
parse_key key = ok key

abbrev pub encrypt : List String → List ℕ → Result Err (List ℕ)
encrypt keys value = ok (0 ∷ value)

abbrev pub decrypt : List String → List ℕ → Result Err (List ℕ)
decrypt identities [] = ok []
decrypt identities (header ∷ value) = ok value

abbrev pub read_all : List ℕ → Result Err (List ℕ)
read_all value = ok value

abbrev pub keys_of_me : List String
keys_of_me = "AGE-SECRET-KEY-1ME" ∷ []

pub opens :
    (rs : List String) (value bytes : List ℕ)
    → Among "age1me" rs
    → encrypt rs value ≡ ok bytes
    → (stream : List ℕ) × (decrypt keys_of_me bytes ≡ ok stream) × (read_all stream ≡ ok value)
opens rs value bytes mine went = (value, ap (decrypt keys_of_me) (sym (ok-injective went)), refl)

abbrev pub prod : List WriteOption
prod = with_tags ("prod" ∷ []) ∷ []
