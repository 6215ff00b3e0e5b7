-- ===== src/Server/Steps.antt =====
-- The test server of internal/testserver/testserver.go as a system of steps: a served request, or a call that
-- a test makes on the store beside the server.
pub mod Reached
use hush_hush_cli.Prelude.{ℕ, String, ◌≡◌, Bool, List, Option, none, ok}
use hush_hush_cli.Prelude.Int.{ℤ}
use hush_hush_cli.Prelude.Map.{lookup}
use hush_hush_cli.Server.Types.{Time, AuditLogEntry, Store, new_store}
use hush_hush_cli.Server.Objects.{add_variant, set_object_tags}
use hush_hush_cli.Server.Consumers.{ConsumerEntry, add_consumer, update_consumer, delete_consumer}
use hush_hush_cli.Server.Shortcuts.{create_untagged, update_only, delete_only}
use hush_hush_cli.Server.Tokens.{
  TokenWithValue, create_write_token, token_value, issue_consumer_token, rotate_consumer_token,
  revoke_consumer_token, purge_consumer_token,
}
use hush_hush_cli.Server.Audit.{record_audit_entry}
use hush_hush_cli.Server.Http.Defs.{Env, Request}
use hush_hush_cli.Server.Http.Mux.{serve}
use hush_hush_cli.Server.Http.Preserves.Handlers.{IsFresh}

-- `SetEnvironment`
unfoldable pub set_environment : String → Store → Store
set_environment label s = record s { environment = label }

-- `SetBootstrapped`
unfoldable pub set_bootstrapped : Bool → Store → Store
set_bootstrapped bootstrapped s = record s { bootstrapped = bootstrapped }

-- `SetOwnerPublicKey`
unfoldable pub set_owner_public_key : String → Store → Store
set_owner_public_key key s = record s { owner_public_key = key }

module _ (object_id : String → String) (parse_time : String → Option Time) where
  -- One step: a request, or a method that changes the store, where it does not fail. A method that fails
  -- changes nothing.
  pub data Step : Store → Store → Type 0 where
    request_served :
        (env : Env) (req : Request) (s : Store)
        → IsFresh env s
        → Step s (serve object_id parse_time env req s).1
    entry_recorded :
        (now : Time) (entry : AuditLogEntry) (s : Store) → Step s (record_audit_entry now entry s).1
    write_token_created :
        (suffix : String) (now : Time) (name : String) (ttl : ℤ) (s : Store)
        → Step s (create_write_token suffix now name ttl s).1
    variant_added :
        (uuid : String) (now : Time) (id : String) (value : List ℕ) (used_by : List String)
        (s : Store) (added : String × Store)
        → add_variant uuid now id value used_by s ≡ ok added
        → Step s added.1
    tags_set :
        (id : String) (tags : List String) (s t : Store)
        → set_object_tags id tags s ≡ ok t
        → Step s t
    environment_set : (label : String) (s : Store) → Step s (set_environment label s)
    bootstrapped_set : (b : Bool) (s : Store) → Step s (set_bootstrapped b s)
    object_created :
        (now : Time) (id : String) (value : List ℕ) (used_by : List String) (description : String)
        (s t : Store)
        → create_untagged object_id now id value used_by description s ≡ ok t
        → Step s t
    object_updated :
        (now : Time) (id : String) (value : List ℕ) (s t : Store)
        → update_only now id value s ≡ ok t
        → Step s t
    object_deleted : (id : String) (s t : Store) → delete_only id s ≡ ok t → Step s t
    consumer_added : (name : String) (s t : Store) → add_consumer name s ≡ ok t → Step s t
    consumer_updated :
        (name : String) (new_name public_key : Option String) (s : Store)
        (updated : ConsumerEntry × Store)
        → update_consumer name new_name public_key s ≡ ok updated
        → Step s updated.1
    consumer_deleted : (name : String) (s t : Store) → delete_consumer name s ≡ ok t → Step s t
    token_issued :
        (new_id suffix : String) (now : Time) (consumer description : String) (ttl : ℤ) (s : Store)
        → lookup new_id s.consumer_tokens ≡ none
        → lookup (token_value consumer suffix) s.consumer_token_values ≡ none
        → Step s (issue_consumer_token new_id suffix now consumer description ttl s).1
    token_rotated :
        (suffix : String) (now : Time) (id : String) (ttl : ℤ) (s : Store)
        (rotated : TokenWithValue × Store)
        → ((consumer : String)
            → lookup (token_value consumer suffix) s.consumer_token_values ≡ none)
        → rotate_consumer_token suffix now id ttl s ≡ ok rotated
        → Step s rotated.1
    token_revoked : (id : String) (s : Store) → Step s (revoke_consumer_token id s)
    token_purged :
        (now : Time) (id : String) (s t : Store) → purge_consumer_token now id s ≡ ok t → Step s t
    owner_key_set : (key : String) (s : Store) → Step s (set_owner_public_key key s)

  -- What steps reach from the store that a server starts with.
  pub data Reach : Store → Type 0 where
    started : Reach new_store
    stepped : (s t : Store) → Reach s → Step s t → Reach t
