-- ===== src/Client/Directory.antt =====
-- The calls of internal/client/consumers.go that change the consumer directory.
use hush_hush_cli.Prelude.{String, Option}
use hush_hush_cli.Server.Consumers.{ConsumerEntry, ConsumerFilter}
use hush_hush_cli.Client.Errors.{map_consumer_error}
use hush_hush_cli.Client.Sdk.{Call}
use hush_hush_cli.Client.Op.{Op, ◌>>=◌, done, calling}
use hush_hush_cli.Client.Consumers.{Listed, Consumer, to_consumer}

-- The SDK's calls on the directory.
pub record DirectorySdk {ℓ} (W : Type ℓ) : Type ℓ where
  pub list_consumers : ConsumerFilter → Call W Listed
  pub add_consumer : String → Call W ConsumerEntry
  pub update_consumer : String → Option String → Option String → Call W ConsumerEntry
  pub delete_consumer : String → Call W (Unit {0})

module _ {ℓ} {W : Type ℓ} (sdk : DirectorySdk W) where
  -- `Client.AddConsumer`
  unfoldable pub add_consumer : String → Op W Consumer
  unfolding map_consumer_error to_consumer
  add_consumer name =
      calling map_consumer_error (sdk.add_consumer name) >>= λ e. done (to_consumer e)

  -- `Client.UpdateConsumer`
  unfoldable pub update_consumer : String → Option String → Option String → Op W Consumer
  unfolding map_consumer_error to_consumer
  update_consumer name new_name public_key =
      calling map_consumer_error (sdk.update_consumer name new_name public_key) >>= λ e.
      done (to_consumer e)

  -- `Client.DeleteConsumer`
  unfoldable pub delete_consumer : String → Op W (Unit {0})
  unfolding map_consumer_error
  delete_consumer name = calling map_consumer_error (sdk.delete_consumer name)
