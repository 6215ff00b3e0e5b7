-- ===== src/Server/Consumers.antt =====
-- The consumer directory of internal/testserver/testserver.go.
pub mod Names
pub mod Pages
use hush_hush_cli.Prelude.{
  ℕ, suc, ◌-◌, String, Bool, true, false, not, Option, none, some, List, [], ◌∷◌, ◌==◌,
  if◌then◌else◌, leb, take, drop, length, select, is_some, ◌||◌, Result, ok, err, map,
}
use hush_hush_cli.Prelude.Int.{ℤ, pos, negsuc, ◌+ℤ◌, ◌-ℤ◌, ◌*ℤ◌, ltb_ℤ, min_ℤ, wrap}
use hush_hush_cli.Prelude.Map.{Map, lookup, has, put, remove, keys, map_values}
use hush_hush_cli.Prelude.Sort.{sort_by}
use hush_hush_cli.Prelude.Text.{to_lower, contains, member}
use hush_hush_cli.Server.Types.{
  StoreError, consumer_already_exists, consumer_not_found, Object, Store,
}

-- An `int32` count, and a registered key where there is one.
pub record ConsumerEntry : Type 0 where
  pub name : String
  pub public_key : Option String
  pub secret_count : ℤ

-- The pages of a listing with a filter: `ConsumersPage`.
pub record ConsumersPage : Type 0 where
  pub consumers : List ConsumerEntry
  pub total : ℤ

pub record ConsumerFilter : Type 0 where
  pub q : Option String
  pub page : Option ℤ
  pub page_size : Option ℤ

-- `ConsumersResult`, and the panic of a slice expression whose bounds are out of order.
pub data ConsumersResult : Type 0 where
  plain : List String → ConsumersResult
  paged : ConsumersPage → ConsumersResult
  panicked : ConsumersResult

-- `AddConsumer`
unfoldable pub add_consumer : String → Store → Result StoreError Store
unfolding has put
add_consumer name s =
    if has name s.consumers
    then err consumer_already_exists
    else ok (record s { consumers = put name none s.consumers })

-- The loop of `renameUsedBy` after the names in `seen`.
unfoldable pub rename_from : List String → String → String → List String → List String
unfolding member
rename_from seen from to [] = []
rename_from seen from to (n ∷ names) =
    let name = if n == from then to else n in
    let skip = rename_from seen from to names in
    let keep = rename_from (name ∷ seen) from to names in
    if member name seen then skip else name ∷ keep

-- `renameUsedBy`
unfoldable pub rename_used_by : List String → String → String → List String
unfolding rename_from
rename_used_by used_by from to = rename_from [] from to used_by

-- `removeUsedBy`
unfoldable pub remove_used_by : List String → String → List String
remove_used_by used_by name = select (λ n. not (n == name)) used_by

-- How many objects name the consumer: the loop of `consumerEntryLocked`.
unfoldable pub secrets_of : String → Map Object → ℕ
unfolding member
secrets_of name [] = 0
secrets_of name ((id, obj) ∷ objects) =
    let rest = secrets_of name objects in if member name obj.used_by then suc rest else rest

-- A missing entry reads as no key.
abbrev pub key_of : Option (Option String) → Option String
key_of none = none
key_of (some key) = key

-- `consumerEntryLocked`
unfoldable pub consumer_entry : String → Store → ConsumerEntry
unfolding secrets_of lookup wrap
consumer_entry name s = record {
  name = name;
  public_key = key_of (lookup name s.consumers);
  secret_count = wrap 32 (pos (secrets_of name s.objects));
}

-- The key that a merge keeps: the target's own one, if it has one.
abbrev pub merged_key : Option (Option String) → Option String → Option String
merged_key (some (some target_key)) key = some target_key
merged_key _ key = key

unfoldable pub rename_in : String → String → Object → Object
unfolding rename_used_by
rename_in from to obj = record obj { used_by = rename_used_by obj.used_by from to }

-- The branch of `UpdateConsumer` that renames an entry of the directory.
unfoldable pub rename_consumer : String → String → Option String → Store → Store
unfolding lookup put remove map_values rename_in
rename_consumer name target key s = record s {
  consumers = put target (merged_key (lookup target s.consumers) key) (remove name s.consumers);
  objects = map_values (rename_in name target) s.objects;
}

abbrev pub renamed : String → Option String → Option String → Store → Store
unfolding rename_consumer
renamed name none key s = s
renamed name (some target) key s = rename_consumer name target key s

abbrev pub with_key : String → Option String → Store → Store
unfolding put
with_key target none s = s
with_key target (some key) s = record s { consumers = put target (some key) s.consumers }

abbrev pub name_or : Option String → String → String
name_or none name = name
name_or (some new_name) name = new_name

-- `UpdateConsumer`, by the directory's entry of the name.
unfoldable pub update_entry :
    String
    → Option String
    → Option String
    → Store
    → Option (Option String)
    → Result StoreError (ConsumerEntry × Store)
unfolding put rename_consumer consumer_entry
update_entry name new_name public_key s none =
    let s' = record s { consumers = put name public_key s.consumers } in
    if is_some new_name then err consumer_not_found else ok (consumer_entry name s', s')
update_entry name new_name public_key s (some key) =
    let target = name_or new_name name in
    let s' = with_key target public_key (renamed name new_name key s) in
    ok (consumer_entry target s', s')

-- `UpdateConsumer`
unfoldable pub update_consumer :
    String → Option String → Option String → Store → Result StoreError (ConsumerEntry × Store)
unfolding lookup update_entry
update_consumer name new_name public_key s =
    update_entry name new_name public_key s (lookup name s.consumers)

unfoldable pub strip : String → Object → Object
unfolding remove_used_by
strip name obj = record obj { used_by = remove_used_by obj.used_by name }

-- `DeleteConsumer`
unfoldable pub delete_consumer : String → Store → Result StoreError Store
unfolding has remove map_values strip
delete_consumer name s =
    if has name s.consumers
    then ok (record s {
      consumers = remove name s.consumers;
      objects = map_values (strip name) s.objects;
    })
    else err consumer_not_found

-- `xs[from:to]`, for a `to` within the length; `none` is the panic on bounds out of order.
unfoldable pub slice_between {ℓ} : {A : Type ℓ} → ℤ → ℤ → List A → Option (List A)
slice_between (pos from) (pos to) xs =
    if leb from to then some (take (to - from) (drop from xs)) else none
slice_between _ _ xs = none

-- The names that a query keeps.
unfoldable pub matching : Option String → List String → List String
unfolding to_lower contains
matching none names = names
matching (some q) names = select (λ name. contains (to_lower name) (to_lower q)) names

abbrev pub int_or : Option ℤ → ℤ → ℤ
int_or none n = n
int_or (some m) n = m

-- The bounds of a page of `len` names: `(page-1)*pageSize` is `int32` arithmetic, the rest is `int`.
unfoldable pub page_bounds : ℤ → ℤ → ℕ → ℤ × ℤ
unfolding wrap ◌-ℤ◌ ◌*ℤ◌ ◌+ℤ◌
page_bounds page size len =
    let start = min_ℤ (wrap 32 (wrap 32 (page -ℤ pos 1) *ℤ size)) (pos len) in
    (start, min_ℤ (start +ℤ size) (pos len))

unfoldable pub page_of : Store → List String → Option (List String) → ConsumersResult
unfolding consumer_entry wrap
page_of s matched none = panicked
page_of s matched (some part) = paged (record {
  consumers = map (λ name. consumer_entry name s) part;
  total = wrap 32 (pos (length matched));
})

-- `pageSize` with its default and its cap.
abbrev pub capped_size : Option ℤ → ℤ
capped_size size = if ltb_ℤ (pos 100) (int_or size (pos 20)) then pos 100 else int_or size (pos 20)

unfoldable pub page_between : Store → List String → ℤ × ℤ → ConsumersResult
unfolding slice_between page_of
page_between s matched (from, to) = page_of s matched (slice_between from to matched)

-- The page of the names that match.
unfoldable pub list_page : ConsumerFilter → List String → Store → ConsumersResult
unfolding page_between page_bounds
list_page filter matched s =
    page_between s matched
      (page_bounds (int_or filter.page (pos 1)) (capped_size filter.page_size) (length matched))

-- `slices.Sort` of the directory's names.
unfoldable pub sorted_names : Store → List String
unfolding keys sort_by
sorted_names s = sort_by (λ name. name) (keys s.consumers)

-- `ListConsumers`
unfoldable pub list_consumers : ConsumerFilter → Store → ConsumersResult
unfolding sorted_names matching list_page
list_consumers filter s =
    if is_some filter.q || is_some filter.page || is_some filter.page_size
    then list_page filter (matching filter.q (sorted_names s)) s
    else plain (sorted_names s)
