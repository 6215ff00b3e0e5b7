-- ===== src/Client/TokenCalls.antt =====
-- The calls of internal/client/consumer_tokens.go. A duration is a number of nanoseconds; `seconds` is
-- `int64(ttl.Seconds())`, and `now` what `time.Now` gives at the call's end.
use hush_hush_cli.Prelude.{String, List, map}
use hush_hush_cli.Prelude.Int.{ℤ}
use hush_hush_cli.Server.Types.{Time}
use hush_hush_cli.Server.Tokens.{ConsumerToken}
use hush_hush_cli.Client.Errors.{map_error, map_token_id_error}
use hush_hush_cli.Client.Sdk.{Call}
use hush_hush_cli.Client.Op.{Op, ◌>>=◌, done, calling}
use hush_hush_cli.Client.Tokens.{SdkToken, to_consumer_token}

-- `hushhush.ConsumerTokenWithValue`, its metadata apart.
pub record SdkTokenWithValue : Type 0 where
  pub token : SdkToken
  pub value : String

-- `ConsumerTokenWithValue`
pub record ConsumerTokenWithValue : Type 0 where
  pub token : ConsumerToken
  pub value : String

-- `toConsumerTokenWithValue`
unfoldable pub to_consumer_token_with_value : Time → SdkTokenWithValue → ConsumerTokenWithValue
unfolding to_consumer_token
to_consumer_token_with_value now t = record {
  token = to_consumer_token now t.token;
  value = t.value;
}

-- The SDK's calls on tokens. A lifetime is in seconds.
pub record TokenSdk {ℓ} (W : Type ℓ) : Type ℓ where
  pub create_consumer_token : String → String → ℤ → Call W SdkTokenWithValue
  pub list_consumer_tokens : Call W (List SdkToken)
  pub rotate_consumer_token : String → ℤ → Call W SdkTokenWithValue
  pub revoke_consumer_token : String → Call W (Unit {0})
  pub purge_consumer_token : String → Call W (Unit {0})

module _ {ℓ} {W : Type ℓ} (seconds : ℤ → ℤ) (now : Time) (sdk : TokenSdk W) where
  -- `Client.CreateConsumerToken`
  unfoldable pub create_consumer_token : String → String → ℤ → Op W ConsumerTokenWithValue
  unfolding map_error to_consumer_token_with_value
  create_consumer_token consumer description ttl =
      calling map_error (sdk.create_consumer_token consumer description (seconds ttl)) >>= λ t.
      done (to_consumer_token_with_value now t)

  -- `Client.ListConsumerTokens`
  unfoldable pub list_consumer_tokens : Op W (List ConsumerToken)
  unfolding map_error to_consumer_token
  list_consumer_tokens =
      calling map_error sdk.list_consumer_tokens >>= λ ts. done (map (to_consumer_token now) ts)

  -- `Client.RotateConsumerToken`
  unfoldable pub rotate_consumer_token : String → ℤ → Op W ConsumerTokenWithValue
  unfolding map_token_id_error to_consumer_token_with_value
  rotate_consumer_token id ttl =
      calling map_token_id_error (sdk.rotate_consumer_token id (seconds ttl)) >>= λ t.
      done (to_consumer_token_with_value now t)

  -- `Client.RevokeConsumerToken`
  unfoldable pub revoke_consumer_token : String → Op W (Unit {0})
  unfolding map_error
  revoke_consumer_token id = calling map_error (sdk.revoke_consumer_token id)

  -- `Client.PurgeConsumerToken`
  unfoldable pub purge_consumer_token : String → Op W (Unit {0})
  unfolding map_token_id_error
  purge_consumer_token id = calling map_token_id_error (sdk.purge_consumer_token id)
