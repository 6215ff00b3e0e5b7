-- ===== src/Server/Objects/Created.antt =====
-- What `createObject` and `AddVariant` of internal/testserver/testserver.go add to a name.
use hush_hush_cli.Prelude.{
  ℕ, String, ◌≡◌, sym, ◌∙◌, true, false, none, is_some, List, [], ◌∷◌, ◌++◌, ◌==◌, if◌then◌else◌,
  ok, arith, eq_iff,
}
use hush_hush_cli.Prelude.Map.{lookup, has, put, lookup-put, has-lookup}
use hush_hush_cli.Server.Types.{Time, Object, Store}
use hush_hush_cli.Server.Objects.{create_object, add_variant, variants, register, list_or_nil}
use hush_hush_cli.Server.Objects.Owned.{IsOwned}

abbrev pub new_object : String → Time → List ℕ → List String → String → List String → Object
new_object uuid now value used_by description tags = record {
  id = uuid;
  value = value;
  used_by = used_by;
  description = description;
  tags = tags;
  created_at = now;
  updated_at = now;
}

-- Creating an object under a free name makes it the only variant of that name, in a store whose further
-- variants stand under names that have an object. Other names keep their variants.
pub create_object-variants :
    (object_id : String → String) (now : Time) (id : String) (value : List ℕ)
    (used_by : List String) (description : String) (tags : List String) (s : Store)
    → IsOwned s
    → has id s.objects ≡ false
    → (t : Store) × (create_object object_id now id value used_by description tags s ≡ ok t)
      × ((j : String)
          → variants j t ≡ (
              if id == j
              then new_object (object_id id) now value used_by description tags ∷ []
              else variants j s))
unfolding create_object variants
create_object-variants object_id now id value used_by description tags s h free =
    let obj = new_object (object_id id) now value used_by description tags in
    let unknown : is_some (lookup id s.objects) ≡ false = sym (has-lookup id s.objects) ∙ free in
    let no_extra : lookup id s.extra ≡ none = h.owner id (ground arith) in
    (
      record s { objects = put id obj s.objects; consumers = register used_by s.consumers },
      rw free,
      λ j. ground (arith, eq_iff id j, lookup-put id j obj s.objects),
    )

-- Adding a variant to a name that has an object puts it after the variants there are. Other names keep
-- theirs.
pub add_variant-variants :
    (uuid : String) (now : Time) (id : String) (value : List ℕ) (used_by : List String) (s : Store)
    → has id s.objects ≡ true
    → (t : Store) × (add_variant uuid now id value used_by s ≡ ok (uuid, t))
      × ((j : String)
          → variants j t ≡ (
              if id == j
              then variants id s ++ new_object uuid now value used_by "" [] ∷ []
              else variants j s))
unfolding add_variant variants
add_variant-variants uuid now id value used_by s known =
    let obj = new_object uuid now value used_by "" [] in
    let vs = list_or_nil (lookup id s.extra) ++ obj ∷ [] in
    let there : is_some (lookup id s.objects) ≡ true = sym (has-lookup id s.objects) ∙ known in
    (
      record s { extra = put id vs s.extra },
      rw known,
      λ j. ground (arith, eq_iff id j, lookup-put id j vs s.extra),
    )
