-- ===== src/Server/Types.antt =====
-- The state of internal/testserver/testserver.go: `Store`, what it holds, and its sentinel errors.
-- An instant is a number of nanoseconds, with 0 for Go's zero time; a byte slice is a list of numbers;
-- a nil slice of strings and an empty one are the same list. `s.mu` is held through every method,
-- so a method is one step.
use hush_hush_cli.Prelude.{ℕ, String, Bool, true, Option, List, []}
use hush_hush_cli.Prelude.Map.{Map}

abbrev pub Time : Type 0
Time = ℕ

-- The sentinels `ErrNotFound` to `ErrSeveralVariants`.
pub data StoreError : Type 0 where
  not_found already_exists invalid_filter : StoreError
  consumer_already_exists consumer_not_found : StoreError
  consumer_token_not_found consumer_token_active : StoreError
  several_variants : StoreError

pub record Object : Type 0 where
  pub id : String
  pub value : List ℕ
  pub used_by : List String
  pub description : String
  pub tags : List String
  pub created_at : Time
  pub updated_at : Time

-- `consumerToken`
pub record TokenRecord : Type 0 where
  pub id : String
  pub consumer : String
  pub description : String
  pub created_at : Time
  pub expires_at : Time
  pub last_used_at : Option Time
  pub revoked : Bool
  pub value : String

pub record AuditLogEntry : Type 0 where
  pub id : ℕ
  pub object_id : String
  pub action : String
  pub timestamp : Time
  pub caller : Option String
  pub ip : String
  pub actor_type : Option String
  pub actor_id : Option String

pub record Store : Type 0 where
  pub objects : Map Object
  pub extra : Map (List Object)
  pub tokens : Map Time
  pub audit_log : List AuditLogEntry
  pub audit_seq : ℕ
  pub bootstrapped : Bool
  pub environment : String
  pub consumers : Map (Option String)
  pub consumer_tokens : Map TokenRecord
  pub consumer_token_values : Map String
  pub owner_public_key : String

-- `selector`: a variant by UUID, by a consumer that it names, or the only one.
pub record Selector : Type 0 where
  pub id : String
  pub consumer : String

-- `newStore`
unfoldable pub new_store : Store
new_store = record {
  objects = [];
  extra = [];
  tokens = [];
  audit_log = [];
  audit_seq = 0;
  bootstrapped = true;
  environment = "";
  consumers = [];
  consumer_tokens = [];
  consumer_token_values = [];
  owner_public_key = "";
}
