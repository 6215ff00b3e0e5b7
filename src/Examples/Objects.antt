-- ===== src/Examples/Objects.antt =====
-- Object lookups and methods of internal/testserver/testserver.go at a concrete store.
use hush_hush_cli.Prelude.{
  List, String, ◌≡◌, ◌≤◌, ◌↔◌, refl, true, false, none, some, [], ◌∷◌, ok, err, length,
}
use hush_hush_cli.Prelude.Map.{lookup, has}
use hush_hush_cli.Prelude.Text.{member}
use hush_hush_cli.Server.Types.{several_variants, not_found}
use hush_hush_cli.Server.Objects.{
  variants, find, find_in, pick, selects, is_zero, delete_variant, patch_variant, get_variant,
  add_variant, patched, renames, is_taken,
}
use hush_hush_cli.Server.Objects.Lookup.{IsMeant, find-IsMeant, find-several_iff}
use hush_hush_cli.Server.Objects.Catalogue.{
  Call, delete, patch, read, add, on_store, on_catalogue, replay,
}
use hush_hush_cli.Server.Objects.Catalogue.Seen.{catalogue}
use hush_hush_cli.Server.Objects.Catalogue.Refined.{replay_refines}
use hush_hush_cli.Examples.Fixtures.{
  app_object, full-IsOwned, full-IsIndexed, full-IsNumbered, web_object, full, any_variant, of_web,
}

found_web : find "db" of_web full ≡ ok (1, web_object)
unfolding find find_in pick selects variants lookup member
found_web = refl

new_name_taken : is_taken (renames "db" (some "key")) full ≡ true
unfolding is_taken renames has lookup
new_name_taken = refl

find-IsMeant_example : IsMeant of_web (variants "db" full) 1 web_object
find-IsMeant_example = find-IsMeant "db" of_web full 1 web_object found_web

find-several_iff_example :
    (find "db" any_variant full ≡ err several_variants)
    ↔ ((is_zero any_variant ≡ true) × (2 ≤ length (variants "db" full)))
find-several_iff_example = find-several_iff "db" any_variant full

free_name : has "new" full.objects ≡ false
unfolding has lookup
free_name = refl

known_name : has "db" full.objects ≡ true
unfolding has lookup
known_name = refl

-- Two variants, one deleted, the other renamed and read, and a call that fails.
abbrev calls : List Call
calls =
    delete "db" of_web
    ∷ patch 50 "db" any_variant none (some "store") none
    ∷ read "store" any_variant
    ∷ add "u9" 60 "db" (9 ∷ []) []
    ∷ []

abbrev uuid_of : String → String
uuid_of slug = slug

replay_refines_example :
    ((replay (on_store uuid_of) calls full).0, catalogue (replay (on_store uuid_of) calls full).1)
    ≡ replay (on_catalogue uuid_of) calls (catalogue full)
replay_refines_example =
    replay_refines uuid_of calls full (full-IsOwned, full-IsIndexed, full-IsNumbered)

answers_of_calls :
    (replay (on_store uuid_of) calls full).0
    ≡ ok none
      ∷ ok (some (patched 50 none none app_object))
      ∷ ok (some (patched 50 none none app_object))
      ∷ err not_found
      ∷ []
unfolding replay on_store delete_variant patch_variant get_variant add_variant find find_in pick
    selects variants lookup member
answers_of_calls = refl
