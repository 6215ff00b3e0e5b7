-- ===== src/Server/Tokens.antt =====
-- Write tokens and consumer read tokens of internal/testserver/testserver.go. Each method reads the
-- clock once, as `now`, and takes the random suffixes that it draws as arguments.
pub mod Indexed
pub mod Lifetime
use Prim.Native.String.{◌++◌}
use hush_hush_cli.Prelude.{
  ℕ, ◌+◌, ◌-◌, suc, String, Bool, true, false, not, ◌&&◌, ◌||◌, Option, none, some, List, [], ◌∷◌,
  ltb, if◌then◌else◌, Result, ok, err, found_or, ◌>>=◌, map,
}
use hush_hush_cli.Prelude.Int.{ℤ, pos, negsuc}
use hush_hush_cli.Prelude.Map.{Map, lookup, has, put, remove}
use hush_hush_cli.Prelude.Sort.{sort_by}
use hush_hush_cli.Server.Types.{
  Time, StoreError, consumer_token_not_found, consumer_token_active, TokenRecord, Store,
}

-- A `time.Duration` in nanoseconds. An instant before the zero time is not represented.
abbrev pub add_time : Time → ℤ → Time
add_time t (pos d) = t + d
add_time t (negsuc d) = t - suc d

-- `ConsumerToken`: the metadata that the server shows.
pub record ConsumerToken : Type 0 where
  pub id : String
  pub consumer : String
  pub description : String
  pub created_at : Time
  pub expires_at : Time
  pub last_used_at : Option Time
  pub revoked : Bool
  pub status : String
  pub allowed_actions : List String

-- `ConsumerTokenWithValue`
pub record TokenWithValue : Type 0 where
  pub token : ConsumerToken
  pub open token use *
  pub value : String

-- The switch of `toConsumerTokenMetadata`.
unfoldable pub token_state : Time → TokenRecord → String × List String
token_state now t =
    if t.revoked
    then ("revoked", "purge" ∷ [])
    else if not (ltb now t.expires_at)
    then ("expired", "purge" ∷ [])
    else ("active", "rotate" ∷ "revoke" ∷ [])

-- `toConsumerTokenMetadata`
unfoldable pub token_metadata : Time → TokenRecord → ConsumerToken
unfolding token_state
token_metadata now t =
    let (status, actions) = token_state now t in
    record {
      id = t.id;
      consumer = t.consumer;
      description = t.description;
      created_at = t.created_at;
      expires_at = t.expires_at;
      last_used_at = t.last_used_at;
      revoked = t.revoked;
      status = status;
      allowed_actions = actions;
    }

-- `toConsumerTokenWithValue`
unfoldable pub token_with_value : Time → TokenRecord → TokenWithValue
unfolding token_metadata
token_with_value now t = record { token = token_metadata now t; value = t.value }

-- `CreateWriteToken`, with the suffix drawn.
unfoldable pub create_write_token : String → Time → String → ℤ → Store → String × Store
unfolding put
create_write_token suffix now name ttl s =
    let token = name ++ "-" ++ suffix in
    (token, record s { tokens = put token (add_time now ttl) s.tokens })

abbrev pub token_value : String → String → String
token_value consumer suffix = "consumer-" ++ consumer ++ "-" ++ suffix

-- `IssueConsumerToken`, with the id and the suffix drawn.
unfoldable pub issue_consumer_token :
    String → String → Time → String → String → ℤ → Store → TokenWithValue × Store
unfolding put token_with_value
issue_consumer_token new_id suffix now consumer description ttl s =
    let rec : TokenRecord = record {
      id = new_id;
      consumer = consumer;
      description = description;
      created_at = now;
      expires_at = add_time now ttl;
      last_used_at = none;
      revoked = false;
      value = token_value consumer suffix;
    } in
    (
      token_with_value now rec,
      record s {
        consumer_tokens = put new_id rec s.consumer_tokens;
        consumer_token_values = put rec.value new_id s.consumer_token_values;
      },
    )

-- The values of a map.
unfoldable pub values {ℓ} : {V : Type ℓ} → Map V → List V
values [] = []
values ((k, v) ∷ m) = v ∷ values m

-- `ListConsumerTokens`
unfoldable pub list_consumer_tokens : Time → Store → List ConsumerToken
unfolding values sort_by token_metadata
list_consumer_tokens now s =
    sort_by (λ t. t.id) (map (token_metadata now) (values s.consumer_tokens))

-- The record that `RotateConsumerToken` leaves behind the pointer.
unfoldable pub rotated : String → Time → ℤ → TokenRecord → TokenRecord
rotated suffix now ttl t = record t {
  value = token_value t.consumer suffix;
  expires_at = add_time now ttl;
}

-- `rec.Revoked || time.Now().After(rec.ExpiresAt)`
abbrev pub is_dead : Time → TokenRecord → Bool
is_dead now t = t.revoked || ltb t.expires_at now

-- `RotateConsumerToken`, with the suffix drawn.
unfoldable pub rotate_consumer_token :
    String → Time → String → ℤ → Store → Result StoreError (TokenWithValue × Store)
unfolding lookup put remove rotated token_with_value
rotate_consumer_token suffix now id ttl s = do
  t ← found_or consumer_token_not_found (lookup id s.consumer_tokens)
  let t' = rotated suffix now ttl t
  if is_dead now t
      then err consumer_token_not_found
      else ok (
        token_with_value now t',
        record s {
          consumer_tokens = put id t' s.consumer_tokens;
          consumer_token_values = put t'.value id (remove t.value s.consumer_token_values);
        },
      )

unfoldable pub revoked_at : String → Option TokenRecord → Store → Store
unfolding put
revoked_at id none s = s
revoked_at id (some t) s = record s {
  consumer_tokens = put id (record t { revoked = true }) s.consumer_tokens;
}

-- `RevokeConsumerToken`
unfoldable pub revoke_consumer_token : String → Store → Store
unfolding lookup revoked_at
revoke_consumer_token id s = revoked_at id (lookup id s.consumer_tokens) s

-- `PurgeConsumerToken`
unfoldable pub purge_consumer_token : Time → String → Store → Result StoreError Store
unfolding lookup remove
purge_consumer_token now id s = do
  t ← found_or consumer_token_not_found (lookup id s.consumer_tokens)
  if not t.revoked && ltb now t.expires_at
      then err consumer_token_active
      else ok (record s {
        consumer_tokens = remove id s.consumer_tokens;
        consumer_token_values = remove t.value s.consumer_token_values;
      })

abbrev pub unexpired : Time → Option Time → Bool
unexpired now none = false
unexpired now (some expiry) = ltb now expiry

-- `validateToken`
unfoldable pub validate_token : Time → String → Store → Bool
unfolding lookup
validate_token now token s = unexpired now (lookup token s.tokens)

-- What `consumerForToken` makes of a presented value. `fault` is the nil dereference of an index
-- entry whose record is gone.
pub data Bearer : Type 0 where
  fault : Bearer
  rejected : Bearer
  bound : String → Bearer

unfoldable pub bearer_of : Time → Option TokenRecord → Bearer
bearer_of now none = fault
bearer_of now (some t) = if is_dead now t then rejected else bound t.consumer

-- The record that an index entry leads to.
abbrev pub bearer_at : Time → Option String → Store → Bearer
unfolding lookup bearer_of
bearer_at now none s = rejected
bearer_at now (some id) s = bearer_of now (lookup id s.consumer_tokens)

-- `consumerForToken`
unfoldable pub consumer_for_token : Time → String → Store → Bearer
unfolding lookup bearer_of
consumer_for_token now value s = bearer_at now (lookup value s.consumer_token_values) s
