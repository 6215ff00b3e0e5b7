-- ===== src/Server/Objects.antt =====
-- The object methods of `Store` in internal/testserver/testserver.go.
pub mod Variants
pub mod Lookup
pub mod Owned
pub mod Created
pub mod Catalogue
use hush_hush_cli.Prelude.{
  ℕ, zero, suc, ◌+◌, String, Bool, true, false, ◌&&◌, ◌||◌, not, Option, none, some, List, [], ◌∷◌,
  ◌++◌, ◌==◌, if◌then◌else◌, set, delete_at, Result, ok, err, found_or, ◌>>=◌,
}
use hush_hush_cli.Prelude.Map.{Map, lookup, has, put, remove}
use hush_hush_cli.Prelude.Text.{is_empty, member}
use hush_hush_cli.Server.Types.{
  Time, StoreError, not_found, already_exists, several_variants, Object, Store, Selector,
}

-- The loop over `usedBy` that gives each new name a directory entry with no key.
unfoldable pub register : List String → Map (Option String) → Map (Option String)
unfolding has put
register [] consumers = consumers
register (name ∷ names) consumers =
    register names (if has name consumers then consumers else put name none consumers)

-- `createObject`, at the time `now`; `object_id` is the UUID that google/uuid derives from a slug.
unfoldable pub create_object :
    (String → String)
    → Time
    → String
    → List ℕ
    → List String
    → String
    → List String
    → Store
    → Result StoreError Store
unfolding register has put
create_object object_id now id value used_by description tags s =
    if has id s.objects
    then err already_exists
    else ok (record s {
      objects =
          put id
            (record {
              id = object_id id;
              value = value;
              used_by = used_by;
              description = description;
              tags = tags;
              created_at = now;
              updated_at = now;
            })
            s.objects;
      consumers = register used_by s.consumers;
    })

-- `s.extra[id]`, nil where there is none.
abbrev pub list_or_nil : Option (List Object) → List Object
list_or_nil none = []
list_or_nil (some vs) = vs

-- `variantsLocked`
unfoldable pub variants : String → Store → List Object
unfolding lookup
variants id s = elim (lookup id s.objects) [
  | none ↦ []
  | some primary ↦ primary ∷ list_or_nil (lookup id s.extra)
]

-- `storeVariantsLocked`
unfoldable pub store_variants : String → List Object → Store → Store
unfolding put remove
store_variants id [] s = record s { objects = remove id s.objects; extra = remove id s.extra }
store_variants id (v ∷ []) s = record s { objects = put id v s.objects; extra = remove id s.extra }
store_variants id (v ∷ (w ∷ vs)) s = record s {
  objects = put id v s.objects;
  extra = put id (w ∷ vs) s.extra;
}

-- `sel == (selector{})`
abbrev pub is_zero : Selector → Bool
is_zero sel = is_empty sel.id && is_empty sel.consumer

-- The test in the loop of `findLocked`.
unfoldable pub selects : Selector → Object → Bool
unfolding member
selects sel v =
    not (is_empty sel.id) && v.id == sel.id
    || not (is_empty sel.consumer) && member sel.consumer v.used_by

-- The loop of `findLocked`, from index `i`.
unfoldable pub pick : Selector → ℕ → List Object → Result StoreError (ℕ × Object)
unfolding selects
pick sel i [] = err not_found
pick sel i (v ∷ vs) = let rest = pick sel (suc i) vs in if selects sel v then ok (i, v) else rest

-- `findLocked` over the variants of a name.
unfoldable pub find_in : Selector → List Object → Result StoreError (ℕ × Object)
unfolding pick
find_in sel [] = err not_found
find_in sel (v ∷ []) = if is_zero sel then ok (0, v) else pick sel 0 (v ∷ [])
find_in sel (v ∷ (w ∷ vs)) = if is_zero sel then err several_variants else pick sel 0 (v ∷ (w ∷ vs))

unfoldable pub find : String → Selector → Store → Result StoreError (ℕ × Object)
unfolding find_in variants
find id sel s = find_in sel (variants id s)

-- `getVariant`
unfoldable pub get_variant : String → Selector → Store → Result StoreError Object
unfolding find
get_variant id sel s = do (i, obj) ← find id sel s; ok obj

-- `AddVariant`, with the UUID that `uuid.NewString` draws.
unfoldable pub add_variant :
    String → Time → String → List ℕ → List String → Store → Result StoreError (String × Store)
unfolding has put lookup
add_variant uuid now id value used_by s =
    if has id s.objects
    then ok (
      uuid,
      record s {
        extra =
            put id
              (list_or_nil (lookup id s.extra)
                ++ record {
                  id = uuid;
                  value = value;
                  used_by = used_by;
                  description = "";
                  tags = [];
                  created_at = now;
                  updated_at = now;
                }
                  ∷ [])
              s.extra;
      },
    )
    else err not_found

-- `*p` where `p` is not nil, else what was there.
abbrev pub replaced {ℓ} : {A : Type ℓ} → Option A → A → A
replaced none old = old
replaced (some new) old = new

-- The loop in `updateVariant` over a `usedBy` that is given.
abbrev pub register_given : Option (List String) → Map (Option String) → Map (Option String)
unfolding register
register_given none consumers = consumers
register_given (some names) consumers = register names consumers

unfoldable pub updated :
    Time → List ℕ → Option (List String) → Option (List String) → Object → Object
updated now value tags used_by obj = record obj {
  value = value;
  updated_at = now;
  tags = replaced tags obj.tags;
  used_by = replaced used_by obj.used_by;
}

-- `updateVariant`
unfoldable pub update_variant :
    Time
    → String
    → Selector
    → List ℕ
    → Option (List String)
    → Option (List String)
    → Store
    → Result StoreError (Object × Store)
unfolding find updated register variants store_variants
update_variant now id sel value tags used_by s = do
  (i, obj) ← find id sel s
  let obj' = updated now value tags used_by obj
  let s' = record s { consumers = register_given used_by s.consumers }
  ok (obj', store_variants id (set (variants id s) i obj') s')

unfoldable pub patched : Time → Option String → Option (List String) → Object → Object
patched now description tags obj = record obj {
  description = replaced description obj.description;
  tags = replaced tags obj.tags;
  updated_at = now;
}

-- `slug != nil && *slug != id`, with the new name.
unfoldable pub renames : String → Option String → Option String
renames id none = none
renames id (some slug) = if slug == id then none else some slug

-- `storeVariantsLocked` under the old name or, after the old name is cleared, under the new one.
unfoldable pub move_variants : String → Option String → List Object → Store → Store
unfolding store_variants
move_variants id none vs s = store_variants id vs s
move_variants id (some slug) vs s = store_variants slug vs (store_variants id [] s)

-- Whether the new name, if there is one, is taken.
unfoldable pub is_taken : Option String → Store → Bool
unfolding has
is_taken none s = false
is_taken (some slug) s = has slug s.objects

-- `patchVariant`
unfoldable pub patch_variant :
    Time
    → String
    → Selector
    → Option String
    → Option String
    → Option (List String)
    → Store
    → Result StoreError (Object × Store)
unfolding find is_taken renames patched move_variants variants
patch_variant now id sel description slug tags s = do
  (i, obj) ← find id sel s
  let target = renames id slug
  let obj' = patched now description tags obj
  if is_taken target s
      then err already_exists
      else ok (obj', move_variants id target (set (variants id s) i obj') s)

-- `SetObjectTags`
unfoldable pub set_object_tags : String → List String → Store → Result StoreError Store
unfolding lookup put
set_object_tags id tags s = do
  obj ← found_or not_found (lookup id s.objects)
  ok (record s { objects = put id (record obj { tags = tags }) s.objects })

-- `deleteVariant`
unfoldable pub delete_variant : String → Selector → Store → Result StoreError Store
unfolding find variants store_variants
delete_variant id sel s = do
  (i, obj) ← find id sel s
  ok (store_variants id (delete_at (variants id s) i) s)
