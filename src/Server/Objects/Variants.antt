-- ===== src/Server/Objects/Variants.antt =====
-- Reading and writing the variants of a name (`variantsLocked`, `storeVariantsLocked`), and what
-- each object method does to the variants of every name.
use hush_hush_cli.Prelude.{
  ℕ, String, ◌≡◌, ap, ◌∙◌, true, false, Option, none, some, List, [], ◌∷◌, ◌==◌, if◌then◌else◌, set,
  delete_at, ok, err, arith,
}
use hush_hush_cli.Prelude.Map.{lookup-put, lookup-remove}
use hush_hush_cli.Server.Types.{Time, already_exists, Object, Store, Selector}
use hush_hush_cli.Server.Objects.{
  variants, store_variants, delete_variant, update_variant, patch_variant, updated, patched,
  renames, is_taken, move_variants, find, register_given,
}

-- What is written for one name is read back, and other names keep their variants.
pub variants-store_variants :
    (id j : String) (vs : List Object) (s : Store)
    → variants j (store_variants id vs s) ≡ (if id == j then vs else variants j s)
unfolding variants store_variants
variants-store_variants id j [] s =
    ground (arith, lookup-remove id j s.objects, lookup-remove id j s.extra)
variants-store_variants id j (v ∷ []) s =
    ground (arith, lookup-put id j v s.objects, lookup-remove id j s.extra)
variants-store_variants id j (v ∷ (w ∷ vs)) s =
    ground (arith, lookup-put id j v s.objects, lookup-put id j (w ∷ vs) s.extra)

-- Deleting succeeds whenever the lookup does. It drops the variant that the lookup found and nothing
-- else: the other variants keep their order, and every other name keeps its variants.
pub delete_variant-variants :
    (id : String) (sel : Selector) (s : Store) (i : ℕ) (o : Object)
    → find id sel s ≡ ok (i, o)
    → (t : Store) × (delete_variant id sel s ≡ ok t)
      × ((j : String)
          → variants j t ≡ (if id == j then delete_at (variants id s) i else variants j s))
unfolding delete_variant
delete_variant-variants id sel s i o found = (
  store_variants id (delete_at (variants id s) i) s,
  rw found,
  λ j. variants-store_variants id j (delete_at (variants id s) i) s,
)

-- Updating succeeds whenever the lookup does. It replaces the variant that the lookup found by the
-- one it returns, whose value is the new one and whose tags and consumers are the given ones or,
-- where none are given, the old ones. The variants of other names stay.
pub update_variant-variants :
    (now : Time) (id : String) (sel : Selector) (value : List ℕ)
    (tags used_by : Option (List String)) (s : Store) (i : ℕ) (o : Object)
    → find id sel s ≡ ok (i, o)
    → (t : Store) × (update_variant now id sel value tags used_by s
        ≡ ok (updated now value tags used_by o, t))
      × ((j : String)
          → variants j t ≡ (
              if id == j
              then set (variants id s) i (updated now value tags used_by o)
              else variants j s))
unfolding update_variant variants
update_variant-variants now id sel value tags used_by s i o found =
    let s' = record s { consumers = register_given used_by s.consumers } in
    let vs = set (variants id s) i (updated now value tags used_by o) in
    (store_variants id vs s', rw found, λ j. variants-store_variants id j vs s')

-- The variants of `j` once those of `id` are written, under the new name if there is one.
abbrev pub placed : String → Option String → List Object → Store → String → List Object
placed id none vs s j = if id == j then vs else variants j s
placed id (some slug) vs s j = if slug == j then vs else if id == j then [] else variants j s

pub move_variants-placed :
    (id : String) (target : Option String) (vs : List Object) (s : Store) (j : String)
    → variants j (move_variants id target vs s) ≡ placed id target vs s j
unfolding move_variants
move_variants-placed id none vs s j = variants-store_variants id j vs s
move_variants-placed id (some slug) vs s j =
    variants-store_variants slug j vs (store_variants id [] s)
    ∙ ap (λ (l : List Object). if slug == j then vs else l) (variants-store_variants id j [] s)

-- Patching succeeds when the lookup does and a new name, if there is one, is free. It keeps the value
-- and the consumers of the variant found, and replaces the description and the tags that are given.
-- A new name takes every variant of the old one, which is then empty. The variants of other names
-- stay.
pub patch_variant-variants :
    (now : Time) (id : String) (sel : Selector) (description slug : Option String)
    (tags : Option (List String)) (s : Store) (i : ℕ) (o : Object)
    → find id sel s ≡ ok (i, o)
    → is_taken (renames id slug) s ≡ false
    → (t : Store) × (patch_variant now id sel description slug tags s
        ≡ ok (patched now description tags o, t))
      × ((j : String)
          → variants j t
            ≡ placed id
                (renames id slug)
                (set (variants id s) i (patched now description tags o))
                s
                j)
unfolding patch_variant
patch_variant-variants now id sel description slug tags s i o found free =
    let vs = set (variants id s) i (patched now description tags o) in
    (
      move_variants id (renames id slug) vs s,
      rw found (rw free),
      λ j. move_variants-placed id (renames id slug) vs s j,
    )

-- A patch whose new name is taken fails with "already exists" before anything is written.
pub patch_variant-taken :
    (now : Time) (id : String) (sel : Selector) (description slug : Option String)
    (tags : Option (List String)) (s : Store) (i : ℕ) (o : Object)
    → find id sel s ≡ ok (i, o)
    → is_taken (renames id slug) s ≡ true
    → patch_variant now id sel description slug tags s ≡ err already_exists
unfolding patch_variant
patch_variant-taken now id sel description slug tags s i o found taken = rw found (rw taken)
