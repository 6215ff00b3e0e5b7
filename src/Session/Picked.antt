-- ===== src/Session/Picked.antt =====
-- Picking a variant by the options of a read through internal/client, on the server of internal/testserver.
use hush_hush_cli.Prelude.{
  String, ◌≡◌, refl, true, [], ◌∷◌, ◌||◌, ok, err, ◌⊎◌, inl, inr, Bool-cases,
}
use hush_hush_cli.Prelude.Text.{is_empty}
use hush_hush_cli.Server.Types.{Selector, Object, Store, not_found}
use hush_hush_cli.Server.Objects.{variants, find, find_in, pick, selects, get_variant, is_zero}
use hush_hush_cli.Server.Requests.{selector_from, query_get}
use hush_hush_cli.Client.Calls.{object_options}
use hush_hush_cli.Session.{query_of}

-- A choice of at most one of a variant's id and its consumer is a selector.
pub one_pick :
    (variant_id consumer : String)
    → (is_empty variant_id || is_empty consumer) ≡ true
    → (sel : Selector) × (selector_from (query_of (object_options variant_id consumer)) ≡ ok sel)
unfolding object_options selector_from query_get
one_pick String.[] String.[] one = (record { id = ""; consumer = "" }, refl)
one_pick String.[] (String.◌∷◌ x consumer) one =
    (record { id = ""; consumer = String.◌∷◌ x consumer }, refl)
one_pick (String.◌∷◌ x variant_id) String.[] one =
    (record { id = String.◌∷◌ x variant_id; consumer = "" }, refl)
one_pick (String.◌∷◌ x variant_id) (String.◌∷◌ y consumer) one = cc

-- A name of one variant gives that one or none.
pub get_variant-lone :
    (id : String) (sel : Selector) (o : Object) (s : Store)
    → variants id s ≡ o ∷ []
    → (get_variant id sel s ≡ ok o) ⊎ (get_variant id sel s ≡ err not_found)
unfolding get_variant find find_in pick
get_variant-lone id sel o s alone = elim (Bool-cases (is_zero sel)) [
  | inl any ↦ inl (rw (alone, any) refl)
  | inr chosen ↦ elim (Bool-cases (selects sel o)) [
    | inl this ↦ inl (rw (alone, chosen, this) refl)
    | inr other ↦ inr (rw (alone, chosen, other) refl)
  ]
]
