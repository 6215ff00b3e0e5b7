-- ===== src/Server/Listing.antt =====
-- `ListObjectsFiltered` of internal/testserver/testserver.go, and the metadata that answers carry.
use hush_hush_cli.Prelude.{
  String, not, ◌&&◌, Option, none, some, List, [], ◌∷◌, ◌++◌, if◌then◌else◌,
}
use hush_hush_cli.Prelude.Map.{keys}
use hush_hush_cli.Prelude.Sort.{sort_by}
use hush_hush_cli.Prelude.Text.{is_empty, member}
use hush_hush_cli.Server.Types.{Time, Object, Store}
use hush_hush_cli.Server.Objects.{variants}
use hush_hush_cli.Server.Requests.{has_all_tags}

pub record Actor : Type 0 where
  pub id : String
  pub kind : String

pub record ObjectMetadata : Type 0 where
  pub id : String
  pub slug : String
  pub used_by : List String
  pub description : String
  pub tags : List String
  pub created_at : Option Time
  pub created_by : Option Actor
  pub updated_at : Option Time
  pub updated_by : Option Actor

abbrev pub server_actor : Actor
server_actor = record { id = "testserver"; kind = "token" }

-- `listedObject`: the entry of an object, `none` where the filters leave it out.
unfoldable pub listed_object : String → Object → String → List String → Option ObjectMetadata
unfolding member has_all_tags
listed_object slug obj used_by_filter tags =
    if not (is_empty used_by_filter) && not (member used_by_filter obj.used_by)
    then none
    else if not (has_all_tags obj.tags tags)
    then none
    else some (record {
      id = obj.id;
      slug = slug;
      used_by = obj.used_by;
      description = obj.description;
      tags = obj.tags;
      created_at = some obj.created_at;
      created_by = some server_actor;
      updated_at = some obj.updated_at;
      updated_by = some server_actor;
    })

abbrev pub cons_some {ℓ} : {A : Type ℓ} → Option A → List A → List A
cons_some none xs = xs
cons_some (some x) xs = x ∷ xs

-- The inner loop, over the variants of one name.
unfoldable pub listed_variants : String → List String → String → List Object → List ObjectMetadata
unfolding listed_object
listed_variants used_by_filter tags slug [] = []
listed_variants used_by_filter tags slug (obj ∷ objs) =
    cons_some (listed_object slug obj used_by_filter tags)
      (listed_variants used_by_filter tags slug objs)

-- The outer loop, over the names.
unfoldable pub listed_names : String → List String → Store → List String → List ObjectMetadata
unfolding listed_variants variants
listed_names used_by_filter tags s [] = []
listed_names used_by_filter tags s (slug ∷ slugs) =
    listed_variants used_by_filter tags slug (variants slug s)
    ++ listed_names used_by_filter tags s slugs

-- `ListObjectsFiltered`
unfoldable pub list_objects : String → List String → Store → List ObjectMetadata
unfolding listed_names keys sort_by
list_objects used_by_filter tags s =
    sort_by (λ m. m.slug) (listed_names used_by_filter tags s (keys s.objects))

-- The metadata of a create, update or patch answer, which carries no times.
unfoldable pub metadata : String → Object → ObjectMetadata
metadata slug obj = record {
  id = obj.id;
  slug = slug;
  used_by = obj.used_by;
  description = obj.description;
  tags = obj.tags;
  created_at = none;
  created_by = none;
  updated_at = none;
  updated_by = none;
}
