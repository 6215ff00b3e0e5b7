-- ===== src/Examples/Rotation.antt =====
-- A rotation of a consumer token at a concrete store.
use hush_hush_cli.Prelude.{◌≤◌, ◌≡◌, refl, false, [], ◌∷◌, ok, err, arith}
use hush_hush_cli.Prelude.Int.{pos}
use hush_hush_cli.Prelude.Map.{lookup}
use hush_hush_cli.Prelude.Text.{cut_prefix}
use hush_hush_cli.Server.Types.{Store}
use hush_hush_cli.Server.Tokens.{consumer_for_token, bound, add_time, validate_token}
use hush_hush_cli.Server.Http.Flow.{require_write_token, has_write_token, bearer_value}
use hush_hush_cli.Server.Http.Tokens.{handle_rotate_token, seconds}
use hush_hush_cli.Client.Errors
use hush_hush_cli.Client.Errors.{wrap, sentinel}
use hush_hush_cli.Client.TokenCalls
use hush_hush_cli.Client.Tokens.{to_consumer_token}
use hush_hush_cli.Cli.Read.{get}
use hush_hush_cli.Session.{asked, bearer}
use hush_hush_cli.Session.Rotated.{get-rotated}
use hush_hush_cli.Server.Http.Mux.{serve}
use hush_hush_cli.Examples.Commands.{parse_key, decrypt, read_all, keys_of_me}
use hush_hush_cli.Examples.Fixtures.{full, app_token, names_apart}
use hush_hush_cli.Examples.Hosting.{asking-Forwards, host}
use hush_hush_cli.Examples.Session.{
  reader, build, operator, make, builds, reads, in_seconds, known_t1,
}

-- "t1" lives for sixty seconds more.
abbrev rotated_t1 : Store
rotated_t1 = (TokenCalls.rotate_consumer_token in_seconds 100 operator.tokens "t1" (pos 60) full).1

abbrev new_token : TokenCalls.ConsumerTokenWithValue
new_token = record {
  token = record {
    id = "t1";
    consumer = "app";
    description = app_token.description;
    created_at = app_token.created_at;
    expires_at = 60000000100;
    last_used_at = app_token.last_used_at;
    revoked = false;
    status = "active";
    allowed_actions = "rotate" ∷ "revoke" ∷ [];
  };
  value = "consumer-app-y";
}

rotate_went_well :
    TokenCalls.rotate_consumer_token in_seconds 100 operator.tokens "t1" (pos 60) full
    ≡ (ok new_token, rotated_t1)
unfolding TokenCalls.rotate_consumer_token asked serve require_write_token handle_rotate_token
    TokenCalls.to_consumer_token_with_value to_consumer_token
rotate_went_well = refl

within_lifetime : 1000 ≤ add_time 100 (seconds (pos 60))
unfolding seconds
within_lifetime = omega arith

no_write : has_write_token 100 (bearer "consumer-app-x") rotated_t1 ≡ false
unfolding has_write_token validate_token bearer_value cut_prefix lookup
    TokenCalls.rotate_consumer_token asked serve require_write_token handle_rotate_token
no_write = refl

get-rotated_example :
    (consumer_for_token 1000 "consumer-app-y" rotated_t1 ≡ bound "app")
    × ((get build parse_key decrypt read_all reader "key" keys_of_me "u3" "" rotated_t1).0
        ≡ err (
            wrap "fetch object"
              (wrap "consumer token rejected" (sentinel Errors.Sentinel.unauthorized))))
get-rotated_example =
    get-rotated host "cli-a" operator (asking-Forwards "cli-a") in_seconds 100 "t1" (pos 60)
      app_token new_token full rotated_t1 known_t1 rotate_went_well build reader make builds reads
      parse_key decrypt read_all refl refl refl (names_apart "consumer-app-y" "consumer-app-x" refl)
      rotated_t1 1000 "key" "u3" "" keys_of_me (refl, refl) no_write within_lifetime
