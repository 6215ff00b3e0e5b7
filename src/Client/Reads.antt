-- ===== src/Client/Reads.antt =====
-- The calls of internal/client/client.go that list, count and delete, and those that ask about the server.
use hush_hush_cli.Prelude.{String, Bool, List, map}
use hush_hush_cli.Client.Errors.{map_error}
use hush_hush_cli.Client.Op.{Op, ◌>>=◌, done, calling}
use hush_hush_cli.Client.Calls.{Sdk, ObjectMetadata, Health, to_object_metadata, object_options}

module _ {ℓ} {W : Type ℓ} (sdk : Sdk W) where
  -- `Client.Delete`
  unfoldable pub delete : String → String → String → Op W (Unit {0})
  unfolding map_error object_options
  delete id variant_id consumer =
      calling map_error (sdk.delete_object id (object_options variant_id consumer))

  -- `Client.List`
  unfoldable pub list : String → List String → Op W (List ObjectMetadata)
  unfolding map_error to_object_metadata
  list used_by tags = calling map_error (sdk.list_objects_filtered used_by tags) >>= λ metas.
      done (map to_object_metadata metas)

  -- `Client.UsedBy`
  unfoldable pub used_by : String → String → String → Op W (List String)
  unfolding map_error object_options
  used_by id variant_id consumer =
      calling map_error (sdk.get_object_used_by id (object_options variant_id consumer))

  -- `Client.AuthStatus`: whether the server is bootstrapped.
  unfoldable pub auth_status : Op W Bool
  unfolding map_error
  auth_status = calling map_error sdk.auth_status

  -- `Client.Health`
  unfoldable pub health : Op W Health
  unfolding map_error
  health = calling map_error sdk.health
