-- ===== src/Session.antt =====
-- The commands of internal/cli through internal/client and over the server of internal/testserver: what the SDK
-- between them is relied on for. The SDK is hush-hush-go, which is outside the repository.
pub mod Success
pub mod Calm
pub mod Stored
pub mod Renamed
pub mod Shared
pub mod Edited
pub mod Updated
pub mod Resealed
pub mod Picked
pub mod Foreign
pub mod Rejected
pub mod Revoked
pub mod Rotated
pub mod Removed
pub mod Deleted
use Prim.Native.String.{◌++◌}
use hush_hush_cli.Prelude.{
  ℕ, ◌≤◌, String, ◌≡◌, Bool, if◌then◌else◌, Option, none, some, List, [], ◌∷◌, ok, err,
}
use hush_hush_cli.Server.Types.{Time, Store}
use hush_hush_cli.Prelude.Int.{ℤ}
use hush_hush_cli.Server.Tokens.{TokenWithValue}
use hush_hush_cli.Server.Requests.{Message, Query}
use hush_hush_cli.Server.Http.Defs.{
  Env, Request, Endpoint, CreateObjectRequest, PatchObjectRequest, UpdateObjectRequest, Body,
  Response, reply, error, bytes, empty, post_object, patch_object, put_object, get_object,
  delete_object, get_auth_identity, revoke_token, rotate_token, token,
}
use hush_hush_cli.Server.Http.Flow.{Answer, unknown_object}
use hush_hush_cli.Server.Http.Mux.{serve}
use hush_hush_cli.Client.Errors.{api}
use hush_hush_cli.Client.Calls.{
  Sdk, CreateRequest, PatchRequest, UpdateRequest, SdkMetadata, ObjectOption, with_variant_id,
  with_consumer, list_or_empty, text_or_empty,
}
use hush_hush_cli.Client.TokenCalls.{SdkTokenWithValue}
use hush_hush_cli.Client.Remote.{Remote}

-- The Authorization header of a credential.
abbrev pub bearer : String → String
bearer credential = "Bearer " ++ credential

-- The query of the options of a call.
abbrev pub query_of : List ObjectOption → Query
query_of [] = []
query_of (with_variant_id id ∷ opts) = ("id", id) ∷ query_of opts
query_of (with_consumer consumer ∷ opts) = ("consumer", consumer) ∷ query_of opts

-- The body of a create call, whose keys are left out where a pointer is nil.
abbrev pub body_of : CreateRequest → CreateObjectRequest
body_of r = record {
  slug = r.slug;
  value = r.value;
  used_by = list_or_empty r.used_by;
  description = text_or_empty r.description;
  tags = list_or_empty r.tags;
}

-- The body of a patch call.
abbrev pub patch_of : PatchRequest → PatchObjectRequest
patch_of r = record { description = r.description; slug = r.slug; tags = r.tags }

-- The body of an update call. The server does not read whether to keep a readable copy.
abbrev pub update_of : UpdateRequest → UpdateObjectRequest
update_of r = record { value = r.value; tags = r.tags; used_by = r.used_by }

-- The server between two calls, with what it draws and the time at the next request.
pub record Hosting {ℓ} (W : Type ℓ) : Type ℓ where
  pub store_of : W → Store
  pub env_of : W → Env
  pub object_id : String → String
  pub parse_time : String → Option Time
  pub text_of : Message → String

-- The server's answer to a request with a credential, and the store that it leaves.
unfoldable pub asked {ℓ} : {W : Type ℓ} → Hosting W → String → Endpoint → Query → W → Answer
unfolding serve
asked h credential endpoint query w =
    serve h.object_id h.parse_time (h.env_of w)
      (record { endpoint = endpoint; authorization = bearer credential; query = query })
      (h.store_of w)

-- The answer to a reader with a consumer token, by whether its consumer is named.
abbrev pub told : Bool → List ℕ → Response
told mine value = if mine then reply 200 (bytes value) none else unknown_object

-- What is relied on of the SDK's client with a credential: a call sends its request, a call that goes well was
-- answered with the status of success, a value that is answered is returned, and an error that is
-- answered is an `APIError` with its status and its text.
pub record Forwards {ℓ} {W : Type ℓ} (h : Hosting W) (credential : String) (r : Remote W)
    : Type ℓ where
  pub create_answered :
      (req : CreateRequest) (m : SdkMetadata) (w w' : W)
      → r.objects.create_object req w ≡ (ok m, w')
      → (body : Body) × (total : Option ℕ) × (asked h credential
            (post_object (some (body_of req)))
            []
            w
          ≡ (reply 201 body total, h.store_of w'))
  pub patch_answered :
      (id : String) (req : PatchRequest) (opts : List ObjectOption) (m : SdkMetadata) (w w' : W)
      → r.objects.patch_object id req opts w ≡ (ok m, w')
      → (body : Body) × (total : Option ℕ) × (asked h credential
            (patch_object id (some (patch_of req)))
            (query_of opts)
            w
          ≡ (reply 200 body total, h.store_of w'))
  pub update_answered :
      (id : String) (req : UpdateRequest) (opts : List ObjectOption) (m : SdkMetadata) (w w' : W)
      → r.objects.update_object id req opts w ≡ (ok m, w')
      → (body : Body) × (total : Option ℕ) × (asked h credential
            (put_object id (some (update_of req)))
            (query_of opts)
            w
          ≡ (reply 200 body total, h.store_of w'))
  pub delete_answered :
      (id : String) (opts : List ObjectOption) (w w' : W)
      → r.objects.delete_object id opts w ≡ (ok tt, w')
      → asked h credential (delete_object id) (query_of opts) w
        ≡ (reply 204 empty none, h.store_of w')
  pub value_returned :
      (id : String) (opts : List ObjectOption) (value : List ℕ) (s : Store) (w : W)
      → asked h credential (get_object id) (query_of opts) w ≡ (reply 200 (bytes value) none, s)
      → (r.objects.get_object id opts w).0 ≡ ok value
  pub error_returned :
      (id : String) (opts : List ObjectOption) (status : ℕ) (msg : Message) (s : Store) (w : W)
      → 400 ≤ status
      → asked h credential (get_object id) (query_of opts) w ≡ (reply status (error msg) none, s)
      → (r.objects.get_object id opts w).0 ≡ err (api status (h.text_of msg))
  pub identity_asked :
      (w : W)
      → h.store_of (r.objects.get_owner_identity w).1
        ≡ (asked h credential get_auth_identity [] w).1
  pub revoke_answered :
      (id : String) (w w' : W)
      → r.tokens.revoke_consumer_token id w ≡ (ok tt, w')
      → asked h credential (revoke_token id) [] w ≡ (reply 204 empty none, h.store_of w')
  pub rotate_answered :
      (id : String) (seconds : ℤ) (t : SdkTokenWithValue) (w w' : W)
      → r.tokens.rotate_consumer_token id seconds w ≡ (ok t, w')
      → (shown : TokenWithValue) × (asked h credential (rotate_token id (some seconds)) [] w
          ≡ (reply 200 (token shown) none, h.store_of w'))
        × (t.value ≡ shown.value)
