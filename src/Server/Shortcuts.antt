-- ===== src/Server/Shortcuts.antt =====
-- The methods of `Store` in internal/testserver/testserver.go that call another with fixed arguments, `New`, and what it
-- draws.
use hush_hush_cli.Prelude.{ℕ, String, Bool, none, List, [], Result, ok, err, map_ok}
use hush_hush_cli.Prelude.Int.{pos}
use hush_hush_cli.Server.Types.{Time, Object, Selector, Store, StoreError, new_store}
use hush_hush_cli.Server.Objects.{create_object, get_variant, update_variant, delete_variant}
use hush_hush_cli.Server.Listing.{ObjectMetadata, list_objects}
use hush_hush_cli.Server.Tokens.{TokenWithValue, issue_consumer_token, create_write_token}

-- `selector{}` and `selector{id: variantID}`
abbrev pub by_id : String → Selector
by_id id = record { id = id; consumer = "" }

-- `CreateObject`
unfoldable pub create_untagged :
    (String → String)
    → Time
    → String
    → List ℕ
    → List String
    → String
    → Store
    → Result StoreError Store
unfolding create_object
create_untagged object_id now id value used_by description s =
    create_object object_id now id value used_by description [] s

-- `GetVariant`
unfoldable pub get_by_id : String → String → Store → Result StoreError Object
unfolding get_variant
get_by_id id variant_id s = get_variant id (by_id variant_id) s

-- `GetObject`
unfoldable pub get_only : String → Store → Result StoreError Object
unfolding get_by_id
get_only id s = get_by_id id "" s

-- `UpdateObject`
unfoldable pub update_only : Time → String → List ℕ → Store → Result StoreError Store
unfolding update_variant
update_only now id value s =
    map_ok (λ updated. updated.1) (update_variant now id (by_id "") value none none s)

-- `DeleteObject`
unfoldable pub delete_only : String → Store → Result StoreError Store
unfolding delete_variant
delete_only id s = delete_variant id (by_id "") s

-- `ListObjects`
unfoldable pub list_used_by : String → Store → List ObjectMetadata
unfolding list_objects
list_used_by used_by_filter s = list_objects used_by_filter [] s

-- `CreateConsumerToken`: a token for a year.
unfoldable pub year_token : String → String → Time → String → Store → TokenWithValue × Store
unfolding issue_consumer_token
year_token new_id suffix now consumer s =
    issue_consumer_token new_id suffix now consumer "" (pos 31536000000000000) s

-- The store of `New`, with the write token that it hands out.
unfoldable pub new_server : String → Time → String × Store
unfolding create_write_token new_store
new_server suffix now = create_write_token suffix now "test" (pos 3600000000000) new_store

-- `AuthStatus`: whether an admin account is there.
unfoldable pub auth_status : Store → Bool
auth_status s = s.bootstrapped

-- `randomSuffix`, by what `rand.Read` draws: the text of the bytes in hexadecimal, or a fixed one where it fails.
unfoldable pub random_suffix {ℓ κ} : {E : Type ℓ} {A : Type κ} → (A → String) → Result E A → String
random_suffix encode (ok drawn) = encode drawn
random_suffix encode (err e) = "fallback"
