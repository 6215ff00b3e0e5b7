-- ===== src/Examples/Http.antt =====
-- Requests to the handlers of internal/testserver/testserver.go at a concrete store.
use hush_hush_cli.Prelude.{String, ◌≡◌, refl, true, false, Option, none, some, [], ◌∷◌, arith, ok}
use hush_hush_cli.Prelude.Int.{pos}
use hush_hush_cli.Prelude.Map.{lookup, has}
use hush_hush_cli.Prelude.Text.{cut_prefix}
use hush_hush_cli.Server.Types.{Time, Store, several_variants}
use hush_hush_cli.Server.Objects.{variants, find, find_in, get_variant}
use hush_hush_cli.Server.Requests.{Query, normalize_tags, normalize_from, selector_from, query_get}
use hush_hush_cli.Server.Tokens.{consumer_for_token, bearer_of, validate_token}
use hush_hush_cli.Server.Invariant.{IsValid}
use hush_hush_cli.Server.Http.Defs.{
  Env, Request, reply, bytes, delete_object, get_object, post_token, get_consumers,
}
use hush_hush_cli.Server.Http.Flow.{has_write_token, bearer_value, unauthorized, variant_error}
use hush_hush_cli.Server.Http.Objects.{handle_create_object, handle_get_object}
use hush_hush_cli.Server.Http.Created.{handle_get_object-created}
use hush_hush_cli.Server.Http.Defs.{CreateObjectRequest}
use hush_hush_cli.Server.Http.Mux.{serve}
use hush_hush_cli.Server.Http.Access.{serve-unauthorized, serve-keeps}
use hush_hush_cli.Server.Http.Preserves.{serve-IsValid}
use hush_hush_cli.Server.Http.Preserves.Handlers.{IsFresh}
use hush_hush_cli.Server.Http.Reading.{IsScoped, get_object-reveals}
use hush_hush_cli.Server.Types.{new_store}
use hush_hush_cli.Server.Steps.{Reach, started, stepped, request_served, write_token_created}
use hush_hush_cli.Server.Http.Answers.Listed.{startable}
use hush_hush_cli.Server.Requests.{parse_consumer_filter, query_get, parsed}
use hush_hush_cli.Server.Tokens.{create_write_token}
use hush_hush_cli.Prelude.Text.{parse_int}
use hush_hush_cli.Prelude.Int.{pos}
use hush_hush_cli.Server.Steps.Reached.{Reach-IsValid}
use hush_hush_cli.Server.Http.Answers.{is_answer}
use hush_hush_cli.Server.Http.Answers.Served.{serve_answers}
use hush_hush_cli.Examples.Fixtures.{full, full-IsOwned, full-IsNumbered, lone_object, any_variant}

abbrev env : Env
env = record { now = 100; new_id = "t2"; suffix = "y" }

abbrev uuid_of : String → String
uuid_of slug = slug

abbrev no_time : String → Option Time
no_time s = none

abbrev issuing : Request
issuing = record {
  endpoint =
      post_token (some (record { consumer = "app"; description = ""; ttl_seconds = pos 60 }));
  authorization = "Bearer cli-a";
  query = [];
}

abbrev intrusion : Request
intrusion = record {
  endpoint = delete_object "key";
  authorization = "Bearer consumer-app-x";
  query = [];
}

abbrev reading : Request
reading = record {
  endpoint = get_object "key";
  authorization = "Bearer consumer-app-x";
  query = [];
}

-- The store before any consumer token is issued.
abbrev tokenless : Store
tokenless = record full { consumer_tokens = []; consumer_token_values = [] }

env-IsFresh : IsFresh env tokenless
unfolding lookup
env-IsFresh = record { fresh_id = refl; fresh_value = λ consumer. refl }

tokenless-IsValid : IsValid tokenless
unfolding lookup
tokenless-IsValid =
    (full-IsOwned, record { sound = λ value id e. cc; complete = λ id t e. cc }, full-IsNumbered)

serve-IsValid_example : IsValid (serve uuid_of no_time env issuing tokenless).1
serve-IsValid_example =
    serve-IsValid uuid_of no_time env issuing tokenless env-IsFresh tokenless-IsValid

no_write : has_write_token 100 "Bearer consumer-app-x" full ≡ false
unfolding has_write_token bearer_value cut_prefix validate_token lookup
no_write = refl

new-IsFresh : IsFresh env new_store
unfolding new_store lookup
new-IsFresh = record { fresh_id = refl; fresh_value = λ consumer. refl }

serve-unauthorized_example : serve uuid_of no_time env intrusion full ≡ (unauthorized, full)
serve-unauthorized_example = serve-unauthorized uuid_of no_time env intrusion full refl no_write

serve-keeps_example : (serve uuid_of no_time env reading full).1 ≡ full
serve-keeps_example = serve-keeps uuid_of no_time env reading full no_write

scoped : IsScoped 100 "Bearer consumer-app-x" full "app"
unfolding bearer_value cut_prefix consumer_for_token bearer_of lookup
scoped = record { no_write = no_write; given = refl; bound_to = refl; named = refl }

abbrev ask_web : Query
ask_web = ("id", "u2") ∷ []

no_selector : selector_from [] ≡ ok any_variant
unfolding selector_from query_get
no_selector = refl

lone_found : get_variant "key" any_variant full ≡ ok lone_object
unfolding get_variant find find_in variants lookup
lone_found = refl

get_object-reveals_example :
    handle_get_object env "Bearer consumer-app-x" "db" [] full
    ≡ (variant_error several_variants, full)
unfolding variants lookup
get_object-reveals_example =
    get_object-reveals env "Bearer consumer-app-x" "db" [] full "app" any_variant scoped no_selector
      refl (omega arith)

-- The store after a request to a new server.
after_issue : Reach uuid_of no_time (serve uuid_of no_time env issuing new_store).1
after_issue = stepped new_store _ started (request_served env issuing new_store new-IsFresh)

Reach-IsValid_example : IsValid (serve uuid_of no_time env issuing new_store).1
Reach-IsValid_example =
    Reach-IsValid uuid_of no_time (serve uuid_of no_time env issuing new_store).1 after_issue

-- The store once a write token is there.
abbrev written : Store
written = (create_write_token "a" 0 "cli" (pos 1000) new_store).1

after_token : Reach uuid_of no_time written
after_token = stepped new_store _ started (write_token_created "a" 0 "cli" (pos 1000) new_store)

-- The second page of the consumers.
abbrev second_page : Request
second_page = record {
  endpoint = get_consumers;
  authorization = "Bearer cli-a";
  query = ("page", "2") ∷ ("page_size", "10") ∷ [];
}

starts : startable (parse_consumer_filter second_page.query) ≡ true
unfolding parse_consumer_filter query_get parsed parse_int
starts = refl

serve_answers_example : is_answer (serve uuid_of no_time env second_page written).0 ≡ true
serve_answers_example = serve_answers uuid_of no_time env second_page written after_token starts

abbrev new_request : CreateObjectRequest
new_request = record {
  slug = "new";
  value = 9 ∷ [];
  used_by = "web" ∷ [];
  description = "";
  tags = [];
}

handle_get_object-created_example :
    handle_get_object env "Bearer cli-a" "new" []
      (handle_create_object uuid_of env (some new_request) full).1
    ≡ (
      reply 200 (bytes (9 ∷ [])) none,
      (handle_create_object uuid_of env (some new_request) full).1,
    )
unfolding has lookup has_write_token bearer_value cut_prefix validate_token normalize_tags
    normalize_from
handle_get_object-created_example =
    handle_get_object-created uuid_of env env "Bearer cli-a" new_request full full-IsOwned refl []
      refl refl refl
