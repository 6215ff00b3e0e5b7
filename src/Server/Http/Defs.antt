-- ===== src/Server/Http/Defs.antt =====
-- Requests and answers of the handlers in internal/testserver/testserver.go. A body is the value that
-- `json.Decode` gives, `none` where it fails.
use hush_hush_cli.Prelude.{ℕ, String, Bool, Option, none, List}
use hush_hush_cli.Prelude.Int.{ℤ}
use hush_hush_cli.Server.Types.{Time, AuditLogEntry}
use hush_hush_cli.Server.Requests.{Message, Query}
use hush_hush_cli.Server.Listing.{ObjectMetadata}
use hush_hush_cli.Server.Consumers.{ConsumerEntry, ConsumersPage}
use hush_hush_cli.Server.Tokens.{ConsumerToken, TokenWithValue}

pub record CreateObjectRequest : Type 0 where
  pub slug : String
  pub value : List ℕ
  pub used_by : List String
  pub description : String
  pub tags : List String

pub record PatchObjectRequest : Type 0 where
  pub description : Option String
  pub slug : Option String
  pub tags : Option (List String)

pub record UpdateObjectRequest : Type 0 where
  pub value : List ℕ
  pub tags : Option (List String)
  pub used_by : Option (List String)

pub record UpdateConsumerRequest : Type 0 where
  pub name : Option String
  pub public_key : Option String

-- `ttl_seconds` is an `int64`.
pub record CreateConsumerTokenRequest : Type 0 where
  pub consumer : String
  pub description : String
  pub ttl_seconds : ℤ

-- The patterns that `newMux` registers, with their path values and decoded bodies.
pub data Endpoint : Type 0 where
  post_object : Option CreateObjectRequest → Endpoint
  get_objects : Endpoint
  get_object : String → Endpoint
  put_object : String → Option UpdateObjectRequest → Endpoint
  patch_object : String → Option PatchObjectRequest → Endpoint
  delete_object : String → Endpoint
  get_used_by : String → Endpoint
  get_audit_log : Endpoint
  get_health : Endpoint
  get_auth_status : Endpoint
  get_auth_identity : Endpoint
  get_consumers : Endpoint
  post_consumer : Option String → Endpoint
  patch_consumer : String → Option UpdateConsumerRequest → Endpoint
  delete_consumer : String → Endpoint
  post_token : Option CreateConsumerTokenRequest → Endpoint
  get_tokens : Endpoint
  rotate_token : String → Option ℤ → Endpoint
  purge_token : String → Endpoint
  revoke_token : String → Endpoint

pub record Request : Type 0 where
  pub endpoint : Endpoint
  pub authorization : String
  pub query : Query

-- The clock, and the two random suffixes that a handler may draw.
pub record Env : Type 0 where
  pub now : Time
  pub new_id : String
  pub suffix : String

pub data Body : Type 0 where
  error : Message → Body
  object : ObjectMetadata → Body
  objects : List ObjectMetadata → Body
  bytes : List ℕ → Body
  used_by : List String → Body
  entries : List AuditLogEntry → Body
  health : Option String → Body
  auth_status : Bool → Body
  identity : Option String → Body
  consumer : ConsumerEntry → Body
  name_list : List String → Body
  consumer_page : ConsumersPage → Body
  token : TokenWithValue → Body
  token_list : List ConsumerToken → Body
  empty : Body

-- An answer with its status, its body and X-Total-Count. `aborted` is a handler that panics: net/http
-- closes the connection.
pub data Response : Type 0 where
  reply : ℕ → Body → Option ℕ → Response
  aborted : Response

-- `writeJSON`
abbrev pub write_json : ℕ → Body → Response
write_json status body = reply status body none

-- `writeError`
abbrev pub write_error : ℕ → Message → Response
write_error status msg = write_json status (error msg)
