-- ===== src/Examples/Listing.antt =====
-- `consumer list` over a concrete server and stream.
use hush_hush_cli.Prelude.{
  String, ◌≡◌, refl, ap, true, false, none, some, List, [], ◌∷◌, ◌++◌, map, arith, Result, ok, err,
}
use hush_hush_cli.Prelude.Int.{ℤ, pos, negsuc}
use hush_hush_cli.Prelude.Text.Order.{str_le}
use hush_hush_cli.Server.Types.{Time, Store}
use hush_hush_cli.Server.Consumers
use hush_hush_cli.Server.Consumers.{matching, sorted_names}
use hush_hush_cli.Client.Errors.{SdkError, api, external, transport}
use hush_hush_cli.Client.Calls.{unless_empty}
use hush_hush_cli.Client.Consumers.{Listed, names, page}
use hush_hush_cli.Client.Consumers.Complete.{shown}
use hush_hush_cli.Client.Remote.{Remote, new_client}
use hush_hush_cli.Cli.Config.{Config, validate, validate_parsed}
use hush_hush_cli.Cli.Client.{config_client, client_for}
use hush_hush_cli.Cliconfig.Secret.{resolve_secret}
use hush_hush_cli.Render.{Out, row_text}
use hush_hush_cli.Render.Tables.{consumer_row}
use hush_hush_cli.Render.Tables.Rows.{keep_all}
use hush_hush_cli.Cmd.{Settings, App}
use hush_hush_cli.Cmd.Config.{config}
use hush_hush_cli.Cmd.Printed.{print_consumer_list}
use hush_hush_cli.Cmd.Printed.Complete.{consumer_header, print_consumer_list_complete}
use hush_hush_cli.Examples.Fixtures.{full}

-- The server's store, and what was printed.
abbrev World : Type 0
World = Store × List String

abbrev keep : String → World → World
keep text (s, texts) = (s, texts ++ text ∷ [])

abbrev out : Out World
out = record {
  write = λ text w. (ok tt, keep text w);
  tab_write = λ text w. (ok tt, keep text w);
  tab_flush = λ w. (ok tt, w);
  encode_entries = λ x w. (ok tt, w);
  encode_objects = λ x w. (ok tt, w);
  encode_names = λ x w. (ok tt, w);
  encode_health = λ x w. (ok tt, w);
  encode_status = λ x w. (ok tt, w);
  encode_consumer = λ x w. (ok tt, w);
  encode_consumers = λ x w. (ok tt, w);
  encode_tokens = λ x w. (ok tt, w);
  encode_token = λ x w. (ok tt, w);
}

abbrev listing : Consumers.ConsumersResult → Result SdkError Listed
listing (Consumers.plain ns) = ok (names ns)
listing (Consumers.paged p) = ok (page p)
listing Consumers.panicked = err (transport (external "EOF"))

abbrev remote : Remote World
remote = record {
  objects = record {
    create_object = λ req w. (err (api 500 ""), w);
    update_object = λ id req opts w. (err (api 500 ""), w);
    patch_object = λ id req opts w. (err (api 500 ""), w);
    get_object = λ id opts w. (err (api 500 ""), w);
    get_owner_identity = λ w. (ok none, w);
    get_consumer_public_key = λ name w. (ok none, w);
    delete_object = λ id opts w. (err (api 500 ""), w);
    list_objects_filtered = λ used_by tags w. (ok [], w);
    get_object_used_by = λ id opts w. (err (api 500 ""), w);
    auth_status = λ w. (ok true, w);
    health = λ w. (ok (record { status = "ok"; environment = none }), w);
  };
  directory = record {
    list_consumers = λ f w. (listing (Consumers.list_consumers f w.0), w);
    add_consumer = λ name w. (err (api 500 ""), w);
    update_consumer = λ name new_name key w. (err (api 500 ""), w);
    delete_consumer = λ name w. (err (api 500 ""), w);
  };
  tokens = record {
    create_consumer_token = λ consumer description ttl w. (err (api 500 ""), w);
    list_consumer_tokens = λ w. (ok [], w);
    rotate_consumer_token = λ id ttl w. (err (api 500 ""), w);
    revoke_consumer_token = λ id w. (ok tt, w);
    purge_consumer_token = λ id w. (err (api 500 ""), w);
  };
  query_audit_log = λ f w. (ok [], w);
}

abbrev app : App World
app = record {
  io = record {
    print = λ text w. (ok tt, w);
    print_err = λ text w. (ok tt, w);
    scan = λ w. (none, w);
    read_password = λ w. (err (external "no terminal"), w);
    keyring_set = λ service field value w. (ok tt, w);
    keyring_get = λ service field w. (err (external "not found"), w);
    run_shell = λ command w. (err (external "not found"), w);
    write_file = λ path text w. (ok tt, w);
    file_exists = λ path w. true;
    env_set = λ name w. false;
  };
  read_stdin = λ w. (ok [], w);
  write_stdout = λ bytes w. (ok tt, w);
  parse_url = λ url. ok ("http", url);
  build = λ server key. ok (λ caller. remote);
}

abbrev settings : Settings
settings = record {
  server = "http://localhost:8080";
  token = "cli-a";
  token_command = "";
  consumer_token = "";
  consumer_token_command = "";
  caller = "";
  recipients = "";
  identity = "";
  identity_command = "";
}

abbrev cfg : Config
cfg = record {
  server = "http://localhost:8080";
  token = "cli-a";
  consumer_token = "";
  caller = "";
  require_token = true;
}

configured : config app settings true (full, []) ≡ (ok cfg, (full, []))
unfolding config resolve_secret validate validate_parsed
configured = refl

builds : config_client app.build cfg ≡ ok remote
unfolding config_client client_for new_client
builds = refl

abbrev format : Time → String
format t = "2026-01-01 00:00:00"

abbrev decimal : ℤ → String
decimal (pos n) = "1"
decimal (negsuc n) = "-1"

print_consumer_list_complete_example :
    print_consumer_list format decimal out app settings false 1 "WE" (full, [])
    ≡ some (
      ok tt,
      keep_all keep
          (map row_text (
            consumer_header
            ∷ map
                (consumer_row format decimal)
                (shown full (matching (unless_empty "WE") (sorted_names full)))))
          (full, []),
    )
unfolding matching sorted_names str_le
print_consumer_list_complete_example =
    print_consumer_list_complete format decimal out app settings keep (λ text w. refl) (λ w. refl)
      (full, []) (full, []) cfg configured remote builds full "WE"
      (λ f p h. ap (λ r. (listing r, (full, []))) h) (omega arith) 1 (omega arith)
