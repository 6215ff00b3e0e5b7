-- ===== src/Examples/Cli.antt =====
-- Writes, configurations and tokens of internal/cli and internal/client over a concrete SDK.
use hush_hush_cli.Prelude.{
  ℕ, String, ◌≡◌, ◌↔◌, refl, true, false, ◌&&◌, ◌==◌, if◌then◌else◌, Option, none, some, List, [],
  ◌∷◌, ◌++◌, Result, ok, err,
}
use hush_hush_cli.Prelude.Text.{is_empty}
use hush_hush_cli.Client.Errors.{Err, wrap, sentinel, explained, consumer_no_public_key}
use hush_hush_cli.Client.Calls.{Sdk, SdkMetadata}
use hush_hush_cli.Client.Seal
use hush_hush_cli.Client.Tokens.{to_consumer_token, on_wire, to_consumer_token-token_metadata}
use hush_hush_cli.Server.Tokens.{token_metadata}
use hush_hush_cli.Cli.Config.{Config, validate, validate_iff, IsAbsolute}
use hush_hush_cli.Cli.Options.{
  WriteOption, with_tags, with_variant, new_write_options, given_or_nil, apply, apply_all,
}
use hush_hush_cli.Cli.Write.{inject}
use hush_hush_cli.Cli.Write.Sealed.{sent, inject_missing, inject_sealed}
use hush_hush_cli.Examples.Fixtures.{app_token}

-- The world is the list of the bytes sent.
abbrev World : Type 0
World = List (List ℕ)

abbrev directory : String → Option String
directory name = if name == "web" then some "age1web" else none

abbrev stored : String → SdkMetadata
stored slug = record {
  id = "u9";
  slug = slug;
  used_by = none;
  description = none;
  tags = [];
  created_at = none;
  created_by = none;
  updated_at = none;
  updated_by = none;
}

abbrev sdk : Sdk World
sdk = record {
  create_object = λ req w. (ok (stored req.slug), req.value ∷ w);
  update_object = λ id req opts w. (ok (stored id), req.value ∷ w);
  patch_object = λ id req opts w. (ok (stored id), w);
  get_object = λ id opts w. (ok [], w);
  get_owner_identity = λ w. (ok none, w);
  get_consumer_public_key = λ name w. (ok (directory name), w);
  delete_object = λ id opts w. (ok tt, w);
  list_objects_filtered = λ used_by tags w. (ok [], w);
  get_object_used_by = λ id opts w. (ok [], w);
  auth_status = λ w. (ok true, w);
  health = λ w. (ok (record { status = "ok"; environment = none }), w);
}

abbrev parse_recipient : String → Result Err String
parse_recipient key = ok key

abbrev encrypt : List String → List ℕ → Result Err (List ℕ)
encrypt keys value = ok (0 ∷ value)

abbrev tagged : List WriteOption
tagged = with_tags ("prod" ∷ []) ∷ []

inject_missing_example :
    inject sdk parse_recipient encrypt "db" (7 ∷ []) [] (("web" ∷ []) ++ "app" ∷ []) "" tagged []
    ≡ (
      err (wrap "resolve --used-by recipients" (explained (sentinel consumer_no_public_key) "app")),
      [],
    )
inject_missing_example =
    inject_missing sdk directory (λ name w. refl) parse_recipient encrypt "db" (7 ∷ []) ("web" ∷ [])
      ("age1web" ∷ []) "app" [] "" tagged [] refl refl

no_copy : (new_write_options tagged).keep_readable_copy ≡ false
unfolding new_write_options apply apply_all
no_copy = refl

inject_sealed_example :
    inject sdk parse_recipient encrypt "db" (7 ∷ []) [] ("web" ∷ []) "" tagged []
    ≡ sent sdk "db"
        ("web" ∷ [])
        ""
        (given_or_nil (new_write_options tagged).tags)
        (Seal.seal parse_recipient encrypt (7 ∷ []) ("age1web" ∷ []))
        []
inject_sealed_example =
    inject_sealed sdk directory (λ name w. refl) parse_recipient encrypt "db" (7 ∷ []) ("web" ∷ [])
      ("age1web" ∷ []) "" tagged [] refl no_copy

abbrev only_variant : List WriteOption
only_variant = with_variant "u2" ∷ []

to_consumer_token-token_metadata_example :
    to_consumer_token 100 (on_wire app_token none none) ≡ token_metadata 100 app_token
to_consumer_token-token_metadata_example = to_consumer_token-token_metadata 100 app_token

abbrev parse_url : String → Result Err (String × String)
parse_url s = ok ("https", s)

abbrev cfg : Config
cfg = record {
  server = "host";
  token = "t";
  consumer_token = "";
  caller = "";
  require_token = true;
}

validate_iff_example : (validate parse_url cfg ≡ ok tt) ↔ (
    (is_empty cfg.server ≡ false)
    × IsAbsolute (parse_url cfg.server)
    × ((cfg.require_token && is_empty cfg.token) ≡ false))
validate_iff_example = validate_iff parse_url cfg
