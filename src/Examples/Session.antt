-- ===== src/Examples/Session.antt =====
-- An operator and a reader over the server of internal/testserver at a concrete store.
use hush_hush_cli.Prelude.{String, ◌≡◌, refl, true, false, some, List, [], ◌∷◌, ok, err}
use hush_hush_cli.Prelude.Int.{ℤ}
use hush_hush_cli.Server.Types.{Store}
use hush_hush_cli.Client.Errors.{Err, SdkError, api, transport, external, wrap, sentinel, not_found}
use hush_hush_cli.Client.Errors
use hush_hush_cli.Client.TokenCalls
use hush_hush_cli.Client.Remote.{Remote, Builder}
use hush_hush_cli.Session.{Forwards, asked}
use hush_hush_cli.Prelude.Map.{lookup}
use hush_hush_cli.Prelude.Text.{cut_prefix, member}
use hush_hush_cli.Server.Tokens.{validate_token, consumer_for_token, bearer_of}
use hush_hush_cli.Server.Http.Flow.{has_write_token, bearer_value, require_write_token}
use hush_hush_cli.Server.Http.Objects.{
  handle_create_object, handle_patch_object, handle_update_object,
}
use hush_hush_cli.Server.Http.Tokens.{handle_revoke_token}
use hush_hush_cli.Server.Http.Reading.{IsScoped}
use hush_hush_cli.Server.Http.Mux.{serve}
use hush_hush_cli.Server.Http.Created.{only}
use hush_hush_cli.Server.Objects.{replaced, get_variant, find, find_in, variants}
use hush_hush_cli.Client.Seal
use hush_hush_cli.Client.Calls.{consumer_public_key, create, update, patch}
use hush_hush_cli.Cli.Config.{Config, read_credential}
use hush_hush_cli.Cli.Options.{WriteOption, with_slug, new_write_options, apply, apply_all}
use hush_hush_cli.Cli.Write.{
  edit, update_value, inject, sealed_value, resolve_recipients, resolve_from, with_owner_key,
}
use hush_hush_cli.Cli.Read.{get}
use hush_hush_cli.Session.{bearer}
use hush_hush_cli.Session.Shared.{get-inject_shared}
use hush_hush_cli.Session.Foreign.{get-inject_foreign}
use hush_hush_cli.Session.Resealed.{get-update_value}
use hush_hush_cli.Session.Edited.{get-edit_renamed}
use hush_hush_cli.Session.Revoked.{get-revoked}
use hush_hush_cli.Examples.Commands.{parse_key, encrypt, decrypt, read_all, keys_of_me, opens, prod}
use hush_hush_cli.Examples.Fixtures.{full, app_token, full-IsOwned, lone_object, full-IsIndexed}
use hush_hush_cli.Examples.Hosting.{host, asking, asking-Forwards}

-- The reader's configuration, with the consumer token of "app".
abbrev pub reader : Config
reader = record {
  server = "http://localhost:8080";
  token = "";
  consumer_token = "consumer-app-x";
  caller = "";
  require_token = false;
}

abbrev pub build : Builder Store
build server key = ok (λ caller. asking key)

abbrev pub operator : Remote Store
operator = asking "cli-a"

abbrev pub make : String → Remote Store
make caller = asking "consumer-app-x"

pub builds : build reader.server (read_credential reader) ≡ ok make
unfolding read_credential
builds = refl

pub reads : Forwards host (read_credential reader) (make reader.caller)
unfolding read_credential
reads = asking-Forwards "consumer-app-x"

reader-IsScoped : IsScoped 100 (bearer (read_credential reader)) full "app"
unfolding read_credential has_write_token validate_token bearer_value cut_prefix consumer_for_token
    bearer_of lookup
reader-IsScoped = record { no_write = refl; given = refl; bound_to = refl; named = refl }

-- The store once the operator injected a value under a new name.
abbrev injected_for : List String → Store
injected_for used_by =
    (inject operator.objects parse_key encrypt "new" (7 ∷ []) ("age1me" ∷ []) used_by "" prod
      full).1

went_well :
    (used_by : List String)
    → inject operator.objects parse_key encrypt "new" (7 ∷ []) ("age1me" ∷ []) used_by "" prod full
      ≡ (ok tt, injected_for used_by)
unfolding inject sealed_value resolve_recipients with_owner_key new_write_options apply apply_all
    Seal.seal Seal.parse_recipients create asked serve require_write_token handle_create_object
went_well used_by = refl

there : member "age1me" ("age1me" ∷ []) ≡ true
unfolding member
there = refl

app_named : member "app" ("app" ∷ []) ≡ true
unfolding member
app_named = refl

app_not_named : member "app" ("web" ∷ []) ≡ false
unfolding member
app_not_named = refl

get-inject_shared_example :
    (get build parse_key decrypt read_all reader "new" keys_of_me "" ""
      (injected_for ("app" ∷ []))).0
    ≡ ok (7 ∷ [])
get-inject_shared_example =
    get-inject_shared host "cli-a" operator (asking-Forwards "cli-a") build reader make builds reads
      parse_key encrypt parse_key decrypt read_all "age1me" "new" (7 ∷ []) ("age1me" ∷ [])
      ("app" ∷ []) "" prod "app" full (injected_for ("app" ∷ [])) full-IsOwned there reader-IsScoped
      (went_well ("app" ∷ [])) "age1me" refl keys_of_me keys_of_me refl opens app_named

-- The store once the operator injected a value for "web", with the key that the directory has.
abbrev web_only : Store
web_only = (inject operator.objects parse_key encrypt "new" (7 ∷ []) [] ("web" ∷ []) "" prod full).1

web_went_well :
    inject operator.objects parse_key encrypt "new" (7 ∷ []) [] ("web" ∷ []) "" prod full
    ≡ (ok tt, web_only)
unfolding inject sealed_value resolve_recipients resolve_from consumer_public_key with_owner_key
    new_write_options apply apply_all Seal.seal Seal.parse_recipients create asked serve
    require_write_token handle_create_object lookup
web_went_well = refl

get-inject_foreign_example :
    (get build parse_key decrypt read_all reader "new" keys_of_me "" "web" web_only).0
    ≡ err (wrap "fetch object" (sentinel not_found))
get-inject_foreign_example =
    get-inject_foreign host "cli-a" operator (asking-Forwards "cli-a") (λ name u. refl) build reader
      make builds reads parse_key encrypt parse_key decrypt read_all "new" (7 ∷ []) [] ("web" ∷ [])
      "" prod "app" full web_only full-IsOwned reader-IsScoped web_went_well "" "web" keys_of_me
      refl app_not_named

abbrev pub in_seconds : ℤ → ℤ
in_seconds n = n

abbrev revoked_t1 : Store
revoked_t1 = (TokenCalls.revoke_consumer_token in_seconds 100 operator.tokens "t1" full).1

revoke_went_well :
    TokenCalls.revoke_consumer_token in_seconds 100 operator.tokens "t1" full ≡ (ok tt, revoked_t1)
unfolding TokenCalls.revoke_consumer_token asked serve require_write_token handle_revoke_token
revoke_went_well = refl

pub known_t1 : lookup "t1" full.consumer_tokens ≡ some app_token
unfolding lookup
known_t1 = refl

reads_only : has_write_token 100 (bearer "consumer-app-x") revoked_t1 ≡ false
unfolding has_write_token validate_token bearer_value cut_prefix lookup
    TokenCalls.revoke_consumer_token asked serve require_write_token handle_revoke_token
reads_only = refl

get-revoked_example :
    (get build parse_key decrypt read_all reader "db" keys_of_me "" "app" revoked_t1).0
    ≡ err (
        wrap "fetch object"
          (wrap "consumer token rejected" (sentinel Errors.Sentinel.unauthorized)))
get-revoked_example =
    get-revoked host "cli-a" operator (asking-Forwards "cli-a") build reader make builds reads
      parse_key decrypt read_all refl refl in_seconds 100 "t1" app_token full revoked_t1
      revoke_went_well known_t1 refl full-IsIndexed revoked_t1 "db" "" "app" keys_of_me (refl, refl)
      reads_only

-- Another name for "key".
abbrev to_store : List WriteOption
to_store = with_slug "store" ∷ []

abbrev renamed_key : Store
renamed_key = (edit operator.objects "key" to_store full).1

edit_went_well : edit operator.objects "key" to_store full ≡ (ok tt, renamed_key)
unfolding edit new_write_options apply apply_all patch asked serve require_write_token
    handle_patch_object
edit_went_well = refl

named_store : (new_write_options to_store).slug ≡ some "store"
unfolding new_write_options apply apply_all
named_store = refl

no_variant :
    ((new_write_options to_store).variant_id ≡ "") × ((new_write_options to_store).consumer ≡ "")
unfolding new_write_options apply apply_all
no_variant = (refl, refl)

found_key : get_variant "key" only full ≡ ok lone_object
unfolding get_variant find find_in variants lookup
found_key = refl

opened_key : Seal.unseal parse_key decrypt read_all lone_object.value keys_of_me ≡ ok []
unfolding Seal.unseal Seal.parse_identities
opened_key = refl

get-edit_renamed_example :
    ((get build parse_key decrypt read_all reader "store" keys_of_me "" "" renamed_key).0 ≡ ok [])
    × ((get build parse_key decrypt read_all reader "key" keys_of_me "" "" renamed_key).0
        ≡ err (wrap "fetch object" (sentinel not_found)))
get-edit_renamed_example =
    get-edit_renamed host "cli-a" operator (asking-Forwards "cli-a") build reader make builds reads
      parse_key decrypt read_all "key" "store" to_store lone_object "app" full renamed_key
      named_store refl no_variant.0 no_variant.1 found_key reader-IsScoped edit_went_well keys_of_me
      [] app_named opened_key

-- The value of "key", sealed anew.
abbrev anew : Store
anew = (update_value operator.objects parse_key encrypt "key" (8 ∷ []) ("age1me" ∷ []) prod full).1

update_went_well :
    update_value operator.objects parse_key encrypt "key" (8 ∷ []) ("age1me" ∷ []) prod full
    ≡ (ok tt, anew)
unfolding update_value sealed_value resolve_recipients with_owner_key new_write_options apply
    apply_all Seal.seal Seal.parse_recipients update asked serve require_write_token
    handle_update_object
update_went_well = refl

no_selector : ((new_write_options prod).variant_id ≡ "") × ((new_write_options prod).consumer ≡ "")
unfolding new_write_options apply apply_all
no_selector = (refl, refl)

still_named : member "app" (replaced (new_write_options prod).used_by lone_object.used_by) ≡ true
unfolding new_write_options apply apply_all member
still_named = refl

get-update_value_example :
    (get build parse_key decrypt read_all reader "key" keys_of_me "" "" anew).0 ≡ ok (8 ∷ [])
get-update_value_example =
    get-update_value host "cli-a" operator (asking-Forwards "cli-a") build reader make builds reads
      parse_key encrypt parse_key decrypt read_all "age1me" "age1me" refl keys_of_me keys_of_me refl
      opens "key" (8 ∷ []) ("age1me" ∷ []) prod no_selector.0 no_selector.1 lone_object "app" full
      anew there found_key still_named reader-IsScoped update_went_well
