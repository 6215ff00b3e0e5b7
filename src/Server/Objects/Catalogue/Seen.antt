-- ===== src/Server/Objects/Catalogue/Seen.antt =====
-- Each object method of internal/testserver/testserver.go, on the store and on its catalogue.
use mathlib.Core.Path.{fun_ext}
use hush_hush_cli.Prelude.{
  ℕ, String, ◌≡◌, refl, sym, ap, ◌∙◌, not, true, false, Option, none, some, List, [], ◌∷◌,
  Option-cases, eq_iff, set, delete_at, ok, err, map_ok, arith, Result-cases, Bool-cases, inl, inr,
}
use hush_hush_cli.Prelude.Map.{lookup, has, put, lookup-put}
use hush_hush_cli.Server.Types.{Time, already_exists, Object, Store, Selector}
use hush_hush_cli.Server.Objects.{
  create_object, add_variant, update_variant, patch_variant, delete_variant, get_variant,
  set_object_tags, find, find_in, variants, store_variants, updated, patched, renames, is_taken,
  move_variants, register_given, list_or_nil,
}
use hush_hush_cli.Server.Objects.Created.{create_object-variants, add_variant-variants}
use hush_hush_cli.Server.Objects.Owned.{IsOwned}
use hush_hush_cli.Server.Objects.Variants.{variants-store_variants}
use hush_hush_cli.Server.Objects.Catalogue.{
  create, add, update, patch, retag, delete, read, Reply, silent, spoken, Catalogue, write, none_in,
  moved, on_catalogue,
}

-- What a store keeps under each name.
abbrev pub catalogue : Store → Catalogue
catalogue s j = variants j s

-- A reply of the store, seen as one of its catalogue.
abbrev pub seen : Reply Store → Reply Catalogue
seen = map_ok (λ (r : Option Object × Store). (r.0, catalogue r.1))

-- A name is free in the catalogue exactly when the map of objects has it not.
none_in-variants : (id : String) (s : Store) → none_in (variants id s) ≡ not (has id s.objects)
unfolding variants has
none_in-variants id s = ground arith

catalogue-store_variants :
    (id : String) (vs : List Object) (s : Store)
    → catalogue (store_variants id vs s) ≡ write id vs (catalogue s)
catalogue-store_variants id vs s = fun_ext λ j. variants-store_variants id j vs s

-- Finding a variant, in the store and in its catalogue.
pub seen-update :
    (object_id : String → String) (now : Time) (id : String) (sel : Selector) (value : List ℕ)
    (tags used_by : Option (List String)) (s : Store)
    → seen (map_ok spoken (update_variant now id sel value tags used_by s))
      ≡ on_catalogue object_id (update now id sel value tags used_by) (catalogue s)
unfolding update_variant on_catalogue find
seen-update object_id now id sel value tags used_by s =
    elim (Result-cases (find_in sel (variants id s))) [
      | inl ((i, o), found) ↦ rw found (
          ap (λ c. ok (some (updated now value tags used_by o), c))
            (catalogue-store_variants id (set (variants id s) i (updated now value tags used_by o))
              (record s { consumers = register_given used_by s.consumers })))
      | inr (e, failed) ↦ rw failed refl
    ]

pub seen-delete :
    (object_id : String → String) (id : String) (sel : Selector) (s : Store)
    → seen (map_ok silent (delete_variant id sel s))
      ≡ on_catalogue object_id (delete id sel) (catalogue s)
unfolding delete_variant on_catalogue find
seen-delete object_id id sel s = elim (Result-cases (find_in sel (variants id s))) [
  | inl ((i, o), found) ↦
      rw found
        (ap (λ c. ok (none, c)) (catalogue-store_variants id (delete_at (variants id s) i) s))
  | inr (e, failed) ↦ rw failed refl
]

pub seen-read :
    (object_id : String → String) (id : String) (sel : Selector) (s : Store)
    → seen (map_ok (λ o. (some o, s)) (get_variant id sel s))
      ≡ on_catalogue object_id (read id sel) (catalogue s)
unfolding get_variant on_catalogue find
seen-read object_id id sel s = elim (Result-cases (find_in sel (variants id s))) [
  | inl ((i, o), found) ↦ rw found refl
  | inr (e, failed) ↦ rw failed refl
]

-- What a patch writes, under the old name or under a free new one.
moved-catalogue :
    (id : String) (target : Option String) (o : Object) (vs : List Object) (s : Store)
    → is_taken target s ≡ false
    → moved id target o vs (catalogue s) ≡ ok (some o, catalogue (move_variants id target vs s))
unfolding move_variants is_taken
moved-catalogue id none o vs s free =
    ap (λ c. ok (some o, c)) (sym (catalogue-store_variants id vs s))
moved-catalogue id (some slug) o vs s free =
    rw (none_in-variants slug s, free)
      (ap (λ c. ok (some o, c))
        (ap (write slug vs) (sym (catalogue-store_variants id [] s))
          ∙ sym (catalogue-store_variants slug vs (store_variants id [] s))))

moved-taken :
    (id : String) (target : Option String) (o : Object) (vs : List Object) (s : Store)
    → is_taken target s ≡ true
    → moved id target o vs (catalogue s) ≡ err already_exists
unfolding is_taken
moved-taken id none o vs s taken = cc
moved-taken id (some slug) o vs s taken = rw (none_in-variants slug s, taken) refl

pub seen-patch :
    (object_id : String → String) (now : Time) (id : String) (sel : Selector)
    (description slug : Option String) (tags : Option (List String)) (s : Store)
    → seen (map_ok spoken (patch_variant now id sel description slug tags s))
      ≡ on_catalogue object_id (patch now id sel description slug tags) (catalogue s)
unfolding patch_variant on_catalogue find
seen-patch object_id now id sel description slug tags s =
    elim (Result-cases (find_in sel (variants id s))) [
      | inr (e, failed) ↦ rw failed refl
      | inl ((i, o), found) ↦
          let o' = patched now description tags o in
          let vs = set (variants id s) i o' in
          elim (Bool-cases (is_taken (renames id slug) s)) [
            | inl taken ↦ rw (found, taken) (sym (moved-taken id (renames id slug) o' vs s taken))
            | inr free ↦ rw (found, free) (sym (moved-catalogue id (renames id slug) o' vs s free))
          ]
    ]

pub seen-create :
    (object_id : String → String) (now : Time) (id : String) (value : List ℕ)
    (used_by : List String) (description : String) (tags : List String) (s : Store)
    → IsOwned s
    → seen (map_ok silent (create_object object_id now id value used_by description tags s))
      ≡ on_catalogue object_id (create now id value used_by description tags) (catalogue s)
unfolding on_catalogue
seen-create object_id now id value used_by description tags s owned =
    elim (Bool-cases (has id s.objects)) [
      | inl taken ↦ rw (none_in-variants id s, taken) (unfold create_object in rw taken refl)
      | inr free ↦
          let (t, went, there) =
            create_object-variants object_id now id value used_by description tags s owned free in
          rw (none_in-variants id s, free, went) (ap (λ c. ok (none, c)) (fun_ext there))
    ]

pub seen-add :
    (object_id : String → String) (uuid : String) (now : Time) (id : String) (value : List ℕ)
    (used_by : List String) (s : Store)
    → seen (map_ok (λ r. silent r.1) (add_variant uuid now id value used_by s))
      ≡ on_catalogue object_id (add uuid now id value used_by) (catalogue s)
unfolding on_catalogue
seen-add object_id uuid now id value used_by s = elim (Bool-cases (has id s.objects)) [
  | inl known ↦
      let (t, went, there) = add_variant-variants uuid now id value used_by s known in
      rw (none_in-variants id s, known, went) (ap (λ c. ok (none, c)) (fun_ext there))
  | inr unknown ↦ rw (none_in-variants id s, unknown) (unfold add_variant in rw unknown refl)
]

variants-missing : (id : String) (s : Store) → lookup id s.objects ≡ none → variants id s ≡ []
unfolding variants
variants-missing id s missing = rw (missing, variants) refl

variants-there :
    (id : String) (s : Store) (o : Object)
    → lookup id s.objects ≡ some o
    → variants id s ≡ o ∷ list_or_nil (lookup id s.extra)
unfolding variants
variants-there id s o there = rw (there, variants) refl

-- New tags for the first variant of a name.
catalogue-retagged :
    (id : String) (o o' : Object) (s : Store)
    → lookup id s.objects ≡ some o
    → catalogue (record s { objects = put id o' s.objects })
      ≡ write id (o' ∷ list_or_nil (lookup id s.extra)) (catalogue s)
unfolding variants
catalogue-retagged id o o' s there =
    fun_ext λ j. ground (arith, eq_iff id j, lookup-put id j o' s.objects)

pub seen-retag :
    (object_id : String → String) (id : String) (tags : List String) (s : Store)
    → seen (map_ok silent (set_object_tags id tags s))
      ≡ on_catalogue object_id (retag id tags) (catalogue s)
unfolding set_object_tags on_catalogue
seen-retag object_id id tags s = elim (Option-cases (lookup id s.objects)) [
  | inl missing ↦ rw (missing, variants-missing id s missing) refl
  | inr (o, there) ↦
      rw (variants-there id s o there, there)
        (ap (λ c. ok (none, c)) (catalogue-retagged id o (record o { tags = tags }) s there))
]
