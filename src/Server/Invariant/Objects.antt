-- ===== src/Server/Invariant/Objects.antt =====
-- The invariant of the store of internal/testserver/testserver.go, through its object methods.
use hush_hush_cli.Prelude.{
  ℕ, String, Option, none, some, List, [], ◌∷◌, OnOk, OnOk-bind, Bool-cases, inl, inr, found_or,
}
use hush_hush_cli.Prelude.Map.{lookup, has}
use hush_hush_cli.Server.Types.{Time, not_found, Object, Store, Selector}
use hush_hush_cli.Server.Objects.{
  create_object, add_variant, update_variant, patch_variant, delete_variant, store_variants,
  move_variants, set_object_tags, is_taken, renames, find, register_given,
}
use hush_hush_cli.Server.Objects.Owned.{store_variants-IsOwned, put-Owned, put_extra-Owned}
use hush_hush_cli.Server.Invariant.{IsValid}

pub store_variants-IsValid :
    (id : String) (vs : List Object) (s : Store) → IsValid s → IsValid (store_variants id vs s)
unfolding store_variants
store_variants-IsValid id [] s (o, i, n) = (store_variants-IsOwned id [] s o, i, n)
store_variants-IsValid id (v ∷ []) s (o, i, n) = (store_variants-IsOwned id (v ∷ []) s o, i, n)
store_variants-IsValid id (v ∷ (w ∷ vs)) s (o, i, n) =
    (store_variants-IsOwned id (v ∷ (w ∷ vs)) s o, i, n)

pub create_object-IsValid :
    (object_id : String → String) (now : Time) (id : String) (value : List ℕ)
    (used_by : List String) (description : String) (tags : List String) (s : Store)
    → IsValid s
    → OnOk IsValid (create_object object_id now id value used_by description tags s)
unfolding create_object
create_object-IsValid object_id now id value used_by description tags s (o, i, n) =
    elim (Bool-cases (has id s.objects)) [
      | inl taken ↦ rw taken tt
      | inr free ↦ rw free (put-Owned id _ s.objects s.extra o, i, n)
    ]

pub add_variant-IsValid :
    (uuid : String) (now : Time) (id : String) (value : List ℕ) (used_by : List String) (s : Store)
    → IsValid s
    → OnOk (λ r. IsValid r.1) (add_variant uuid now id value used_by s)
unfolding add_variant
add_variant-IsValid uuid now id value used_by s (o, i, n) = elim (Bool-cases (has id s.objects)) [
  | inl known ↦ rw known (put_extra-Owned id _ _ s.objects s.extra known o, i, n)
  | inr unknown ↦ rw unknown tt
]

pub update_variant-IsValid :
    (now : Time) (id : String) (sel : Selector) (value : List ℕ)
    (tags used_by : Option (List String)) (s : Store)
    → IsValid s
    → OnOk (λ r. IsValid r.1) (update_variant now id sel value tags used_by s)
unfolding update_variant
update_variant-IsValid now id sel value tags used_by s h =
    OnOk-bind _ (find id sel s) _ (λ (i, obj) e.
      store_variants-IsValid id _ (record s { consumers = register_given used_by s.consumers }) h)

move_variants-IsValid :
    (id : String) (target : Option String) (vs : List Object) (s : Store)
    → IsValid s
    → IsValid (move_variants id target vs s)
unfolding move_variants
move_variants-IsValid id none vs s h = store_variants-IsValid id vs s h
move_variants-IsValid id (some slug) vs s h =
    store_variants-IsValid slug vs _ (store_variants-IsValid id [] s h)

pub patch_variant-IsValid :
    (now : Time) (id : String) (sel : Selector) (description slug : Option String)
    (tags : Option (List String)) (s : Store)
    → IsValid s
    → OnOk (λ r. IsValid r.1) (patch_variant now id sel description slug tags s)
unfolding patch_variant
patch_variant-IsValid now id sel description slug tags s h =
    OnOk-bind _ (find id sel s) _ (λ (i, obj) e. elim (Bool-cases (is_taken (renames id slug) s)) [
      | inl taken ↦ rw taken tt
      | inr free ↦ rw free (move_variants-IsValid id (renames id slug) _ s h)
    ])

pub delete_variant-IsValid :
    (id : String) (sel : Selector) (s : Store) → IsValid s → OnOk IsValid (delete_variant id sel s)
unfolding delete_variant
delete_variant-IsValid id sel s h =
    OnOk-bind _ (find id sel s) _ (λ (i, obj) e. store_variants-IsValid id _ s h)

pub set_object_tags-IsValid :
    (id : String) (tags : List String) (s : Store)
    → IsValid s
    → OnOk IsValid (set_object_tags id tags s)
unfolding set_object_tags
set_object_tags-IsValid id tags s (o, i, n) =
    OnOk-bind IsValid (found_or not_found (lookup id s.objects)) _
      λ obj found. (put-Owned id _ s.objects s.extra o, i, n)
