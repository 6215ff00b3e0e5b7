-- ===== src/Client/Calls.antt =====
-- The calls of internal/client/client.go that write objects and look keys up.
use hush_hush_cli.Prelude.{
  ℕ, String, Bool, true, Option, none, some, List, [], ◌∷◌, if◌then◌else◌, Result, ok, err,
}
use hush_hush_cli.Server.Types.{Time}
use hush_hush_cli.Prelude.Text.{is_empty}
use hush_hush_cli.Client.Errors.{
  Err, sentinel, explained, no_owner_key, consumer_no_public_key, map_error,
}
use hush_hush_cli.Client.Sdk.{Call}
use hush_hush_cli.Client.Op.{Op, ◌>>=◌, done, calling}

-- `hushhush.CreateObjectRequest`, a nil pointer being `none`.
pub record CreateRequest : Type 0 where
  pub slug : String
  pub value : List ℕ
  pub keep_readable_copy : Option Bool
  pub used_by : Option (List String)
  pub description : Option String
  pub tags : Option (List String)

pub record UpdateRequest : Type 0 where
  pub value : List ℕ
  pub tags : Option (List String)
  pub used_by : Option (List String)
  pub keep_readable_copy : Option Bool

pub record PatchRequest : Type 0 where
  pub description : Option String
  pub slug : Option String
  pub tags : Option (List String)

-- Who performed an audited write.
pub record Actor : Type 0 where
  pub id : String
  pub kind : String

-- `hushhush.ObjectMetadata`, a nil pointer being `none`, with the UUID's text.
pub record SdkMetadata : Type 0 where
  pub id : String
  pub slug : String
  pub used_by : Option (List String)
  pub description : Option String
  pub tags : List String
  pub created_at : Option Time
  pub created_by : Option Actor
  pub updated_at : Option Time
  pub updated_by : Option Actor

-- `ObjectMetadata`
pub record ObjectMetadata : Type 0 where
  pub id : String
  pub slug : String
  pub used_by : List String
  pub description : String
  pub tags : List String
  pub created_at : Option Time
  pub created_by : Option Actor
  pub updated_at : Option Time
  pub updated_by : Option Actor

abbrev pub list_or_empty : Option (List String) → List String
list_or_empty none = []
list_or_empty (some xs) = xs

abbrev pub text_or_empty : Option String → String
text_or_empty none = ""
text_or_empty (some s) = s

-- `toObjectMetadata`
unfoldable pub to_object_metadata : SdkMetadata → ObjectMetadata
to_object_metadata m = record {
  id = m.id;
  slug = m.slug;
  used_by = list_or_empty m.used_by;
  description = text_or_empty m.description;
  tags = m.tags;
  created_at = m.created_at;
  created_by = m.created_by;
  updated_at = m.updated_at;
  updated_by = m.updated_by;
}

-- `hushhush.ObjectOption`
pub data ObjectOption : Type 0 where
  with_variant_id : String → ObjectOption
  with_consumer : String → ObjectOption

-- `Health`, which has the fields of the SDK's.
pub record Health : Type 0 where
  pub status : String
  pub environment : Option String

-- The SDK's calls, at one world. `X-Caller` is part of the client.
pub record Sdk {ℓ} (W : Type ℓ) : Type ℓ where
  pub create_object : CreateRequest → Call W SdkMetadata
  pub update_object : String → UpdateRequest → List ObjectOption → Call W SdkMetadata
  pub patch_object : String → PatchRequest → List ObjectOption → Call W SdkMetadata
  pub get_object : String → List ObjectOption → Call W (List ℕ)
  pub get_owner_identity : Call W (Option String)
  pub get_consumer_public_key : String → Call W (Option String)
  pub delete_object : String → List ObjectOption → Call W (Unit {0})
  pub list_objects_filtered : String → List String → Call W (List SdkMetadata)
  pub get_object_used_by : String → List ObjectOption → Call W (List String)
  pub auth_status : Call W Bool
  pub health : Call W Health

abbrev pub unless_empty : String → Option String
unless_empty s = if is_empty s then none else some s

abbrev pub unless_nil : List String → Option (List String)
unless_nil [] = none
unless_nil (x ∷ xs) = some (x ∷ xs)

abbrev pub if_set : Bool → Option Bool
if_set b = if b then some true else none

abbrev option_of : (String → ObjectOption) → String → List ObjectOption → List ObjectOption
option_of f s rest = if is_empty s then rest else f s ∷ rest

-- `objectOptions` over the last WithVariant and the last WithConsumer given.
unfoldable pub object_options : String → String → List ObjectOption
object_options variant_id consumer =
    option_of with_variant_id variant_id (option_of with_consumer consumer [])

abbrev pub key_or_none : Option String → Result Err String
key_or_none none = err (sentinel no_owner_key)
key_or_none (some key) = if is_empty key then err (sentinel no_owner_key) else ok key

abbrev pub key_of_consumer : String → Option String → Result Err String
key_of_consumer name none = err (explained (sentinel consumer_no_public_key) name)
key_of_consumer name (some key) = ok key

module _ {ℓ} {W : Type ℓ} (sdk : Sdk W) where
  -- `Client.Create`
  unfoldable pub create :
      String → List ℕ → List String → String → List String → Bool → Op W ObjectMetadata
  unfolding map_error to_object_metadata
  create id value used_by description tags keep =
      calling map_error (
        sdk.create_object (record {
          slug = id;
          value = value;
          keep_readable_copy = if_set keep;
          used_by = unless_nil used_by;
          description = unless_empty description;
          tags = unless_nil tags;
        }))
      >>= λ m. done (to_object_metadata m)

  -- `Client.Update`
  unfoldable pub update :
      String
      → List ℕ
      → Option (List String)
      → Option (List String)
      → Bool
      → String
      → String
      → Op W ObjectMetadata
  unfolding map_error object_options to_object_metadata
  update id value tags used_by keep variant_id consumer =
      calling map_error (
        sdk.update_object id
          (record {
            value = value;
            tags = tags;
            used_by = used_by;
            keep_readable_copy = if_set keep;
          })
          (object_options variant_id consumer))
      >>= λ m. done (to_object_metadata m)

  -- `Client.Patch`
  unfoldable pub patch :
      String
      → Option String
      → Option String
      → Option (List String)
      → String
      → String
      → Op W ObjectMetadata
  unfolding map_error object_options to_object_metadata
  patch id description slug tags variant_id consumer =
      calling map_error (
        sdk.patch_object id (record { description = description; slug = slug; tags = tags })
          (object_options variant_id consumer))
      >>= λ m. done (to_object_metadata m)

  -- `Client.Get`
  unfoldable pub get : String → String → String → Op W (List ℕ)
  unfolding map_error object_options
  get id variant_id consumer =
      calling map_error (sdk.get_object id (object_options variant_id consumer))

  -- `Client.OwnerPublicKey`
  unfoldable pub owner_public_key : Op W String
  unfolding map_error
  owner_public_key = calling map_error sdk.get_owner_identity >>= λ key w. (key_or_none key, w)

  -- `Client.ConsumerPublicKey`
  unfoldable pub consumer_public_key : String → Op W String
  unfolding map_error
  consumer_public_key name = calling map_error (sdk.get_consumer_public_key name) >>= λ key w.
      (key_of_consumer name key, w)
