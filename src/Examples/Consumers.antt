-- ===== src/Examples/Consumers.antt =====
-- The consumer directory and the requests' tags of internal/testserver/testserver.go at concrete inputs.
use mathlib.Core.Option
use hush_hush_cli.Prelude.{
  String, ◌≡◌, ◌≤◌, ◌-◌, ◌*◌, refl, true, false, not, ◌&&◌, ◌||◌, none, some, List, [], ◌∷◌, arith,
  ◌==◌, if◌then◌else◌, Result, ok, err, ap, map, take, drop, min, length,
}
use hush_hush_cli.Prelude.Int.{pos, wrap}
use hush_hush_cli.Prelude.Map.{lookup, has}
use hush_hush_cli.Prelude.Text.{member, to_lower}
use hush_hush_cli.Server.Types.{Store, Object}
use hush_hush_cli.Client.Errors.{SdkError, transport, external}
use hush_hush_cli.Prelude.Text.Order.{str_le}
use hush_hush_cli.Client.Sdk.{Call}
use hush_hush_cli.Client.Calls.{unless_empty}
use hush_hush_cli.Client.Consumers.{Listed, names, page, list_consumers}
use hush_hush_cli.Client.Consumers.Complete.{shown, list_consumers_complete}
use hush_hush_cli.Server.Consumers
use hush_hush_cli.Server.Consumers.{
  rename_used_by, delete_consumer, update_consumer, consumer_entry, list_page, strip, rename_in,
  paged, panicked,
}
use hush_hush_cli.Server.Consumers.Names.{delete_consumer-names, update_consumer-merge}
use hush_hush_cli.Server.Consumers.Pages.{list_page-window, list_page-zero}
use hush_hush_cli.Server.Requests.{normalize_tags, normalize_from, is_tag, max_tags}
use hush_hush_cli.Server.Requests.Tags.{AreTags, normalize_tags_sound}
use hush_hush_cli.Examples.Fixtures.{full, names_apart}

has_web : has "web" full.consumers ≡ true
unfolding has lookup
has_web = refl

delete_consumer-names_example :
    (t : Store) × (delete_consumer "web" full ≡ ok t)
    × ((j : String) → lookup j t.consumers ≡ (if "web" == j then none else lookup j full.consumers))
    × ((k : String) → lookup k t.objects ≡ Option.map (strip "web") (lookup k full.objects))
    × ((o : Object) (x : String)
        → member x (strip "web" o).used_by ≡ (member x o.used_by && not (x == "web")))
    × (t.extra ≡ full.extra)
delete_consumer-names_example = delete_consumer-names "web" full has_web

app_entry : lookup "app" full.consumers ≡ some none
unfolding lookup
app_entry = refl

web_entry : lookup "web" full.consumers ≡ some (some "age1web")
unfolding lookup
web_entry = refl

update_consumer-merge_example :
    (t : Store) × (update_consumer "app" (some "web") none full ≡ ok (consumer_entry "web" t, t))
    × (lookup "web" t.consumers ≡ some (some "age1web"))
    × (lookup "app" t.consumers ≡ none)
    × ((k : String)
        → lookup k t.objects ≡ Option.map (rename_in "app" "web") (lookup k full.objects))
    × ((o : Object)
        → (member "app" (rename_in "app" "web" o).used_by ≡ false)
          × (member "web" (rename_in "app" "web" o).used_by
              ≡ (member "app" o.used_by || member "web" o.used_by)))
update_consumer-merge_example =
    update_consumer-merge "app" "web" "age1web" none full (names_apart "app" "web" refl) app_entry
      web_entry

abbrev both : List String
both = "app" ∷ "web" ∷ []

abbrev kept_tags : List String
kept_tags = "prod" ∷ "a/b" ∷ []

list_page-window_example :
    list_page (record { q = none; page = some (pos 2); page_size = some (pos 1) }) both full
    ≡ paged (record {
      consumers =
          map
            (λ name. consumer_entry name full)
            (take (min 1 100) (drop ((2 - 1) * min 1 100) both));
      total = wrap 32 (pos (length both));
    })
list_page-window_example =
    list_page-window none 2 1 both full (omega arith) (omega arith) (omega arith)

list_page-zero_example :
    list_page (record { q = none; page = some (pos 0); page_size = some (pos 1) }) both full
    ≡ panicked
list_page-zero_example = list_page-zero none 1 both full (omega arith)

two_tags : normalize_tags ("Prod" ∷ "a/b" ∷ "PROD" ∷ []) ≡ ok kept_tags
unfolding normalize_tags normalize_from is_tag to_lower member
two_tags = refl

normalize_tags_sound_example :
    (length kept_tags ≤ max_tags)
    × AreTags kept_tags
    × ((x : String) → member x kept_tags ≡ member x (map to_lower ("Prod" ∷ "a/b" ∷ "PROD" ∷ [])))
normalize_tags_sound_example =
    normalize_tags_sound ("Prod" ∷ "a/b" ∷ "PROD" ∷ []) kept_tags two_tags

abbrev listing : Consumers.ConsumersResult → Result SdkError Listed
listing (Consumers.plain ns) = ok (names ns)
listing (Consumers.paged p) = ok (page p)
listing Consumers.panicked = err (transport (external "EOF"))

-- An SDK that forwards to the directory of the server, which is the world.
abbrev sdk_list : Consumers.ConsumerFilter → Call Store Listed
sdk_list f s = (listing (Consumers.list_consumers f s), s)

list_consumers_complete_example :
    list_consumers sdk_list 1 "WE" full
    ≡ some (
      ok (shown full (Consumers.matching (unless_empty "WE") (Consumers.sorted_names full))),
      full,
    )
unfolding Consumers.matching Consumers.sorted_names str_le
list_consumers_complete_example =
    list_consumers_complete sdk_list full full "WE" (λ f p h. ap (λ r. (listing r, full)) h)
      (omega arith) 1 (omega arith)
