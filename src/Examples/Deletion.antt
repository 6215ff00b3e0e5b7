-- ===== src/Examples/Deletion.antt =====
-- A deletion at a concrete store, in which "app" is named by two names of one variant.
use hush_hush_cli.Prelude.{◌≡◌, refl, [], ◌∷◌, ok, err}
use hush_hush_cli.Prelude.Map.{lookup}
use hush_hush_cli.Prelude.Text.{cut_prefix}
use hush_hush_cli.Server.Types.{Store}
use hush_hush_cli.Server.Tokens.{validate_token, consumer_for_token, bearer_of}
use hush_hush_cli.Server.Http.Defs.{get_object}
use hush_hush_cli.Server.Http.Flow.{has_write_token, bearer_value, require_write_token}
use hush_hush_cli.Server.Http.Objects.{handle_delete_object, handle_get_object}
use hush_hush_cli.Server.Http.Mux.{serve}
use hush_hush_cli.Server.Http.Reading.{IsScoped}
use hush_hush_cli.Client.Errors.{wrap, sentinel, not_found}
use hush_hush_cli.Client.Calls.{object_options}
use hush_hush_cli.Client.Reads
use hush_hush_cli.Cli.Config.{read_credential}
use hush_hush_cli.Cli.Read.{get}
use hush_hush_cli.Session.{asked, bearer}
use hush_hush_cli.Session.Deleted.{get-deleted, get_object-deleted_others}
use hush_hush_cli.Examples.Commands.{parse_key, decrypt, read_all, keys_of_me}
use hush_hush_cli.Examples.Fixtures.{full, lone_object}
use hush_hush_cli.Examples.Hosting.{asking-Forwards, host}
use hush_hush_cli.Examples.Session.{reader, build, operator, make, builds, reads}

abbrev both : Store
both = record full { objects = ("key", lone_object) ∷ ("store", lone_object) ∷ []; extra = [] }

abbrev without_key : Store
without_key = (Reads.delete operator.objects "key" "" "" both).1

delete_went_well : Reads.delete operator.objects "key" "" "" both ≡ (ok tt, without_key)
unfolding Reads.delete object_options asked serve require_write_token handle_delete_object
delete_went_well = refl

both-IsScoped : IsScoped 100 (bearer (read_credential reader)) both "app"
unfolding read_credential has_write_token validate_token bearer_value cut_prefix lookup
    consumer_for_token bearer_of
both-IsScoped = record { no_write = refl; given = refl; bound_to = refl; named = refl }

get-deleted_example :
    (get build parse_key decrypt read_all reader "key" keys_of_me "u3" "" without_key).0
    ≡ err (wrap "fetch object" (sentinel not_found))
get-deleted_example =
    get-deleted host "cli-a" operator (asking-Forwards "cli-a") "key" both without_key
      delete_went_well build reader make builds reads parse_key decrypt read_all "app" both-IsScoped
      "u3" "" keys_of_me refl

get_object-deleted_others_example :
    (asked host "consumer-app-x" (get_object "store") [] without_key).0
    ≡ (handle_get_object (host.env_of without_key) (bearer "consumer-app-x") "store" [] both).0
get_object-deleted_others_example =
    get_object-deleted_others host "cli-a" operator (asking-Forwards "cli-a") "key" both without_key
      delete_went_well "consumer-app-x" "store" [] refl
