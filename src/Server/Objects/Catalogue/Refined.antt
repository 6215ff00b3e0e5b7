-- ===== src/Server/Objects/Catalogue/Refined.antt =====
-- The object methods of internal/testserver/testserver.go keep what a catalogue promises.

use hush_hush_cli.Prelude.{
  String, ◌≡◌, refl, Option, some, List, [], ◌∷◌, Result, ok, err, OnOk, map_ok, OnOk-map_ok,
  OnOk-always,
}
use hush_hush_cli.Server.Types.{StoreError, Object, Store}
use hush_hush_cli.Server.Objects.{
  create_object, add_variant, update_variant, patch_variant, delete_variant, get_variant,
  set_object_tags,
}
use hush_hush_cli.Server.Objects.Owned.{IsOwned}
use hush_hush_cli.Server.Invariant.{IsValid}
use hush_hush_cli.Server.Invariant.Objects.{
  create_object-IsValid, add_variant-IsValid, update_variant-IsValid, patch_variant-IsValid,
  delete_variant-IsValid, set_object_tags-IsValid,
}
use hush_hush_cli.Server.Objects.Catalogue.{
  Call, create, add, update, patch, retag, delete, read, Reply, silent, spoken, on_store,
  on_catalogue, after, replay,
}
use hush_hush_cli.Server.Objects.Catalogue.Seen.{
  catalogue, seen, seen-create, seen-add, seen-update, seen-patch, seen-retag, seen-delete,
  seen-read,
}

kept {ℓ} :
    {A : Type ℓ} (f : A → Option Object × Store) (r : Result StoreError A)
    → OnOk (λ a. IsValid (f a).1) r
    → OnOk (λ p. IsValid p.1) (map_ok f r)
kept f r h = OnOk-map_ok (λ p. IsValid p.1) f r h

-- What follows a call, on both sides.
seen-after :
    (s : Store) (r : Reply Store)
    → IsValid s
    → OnOk (λ p. IsValid p.1) r
    → (after (catalogue s) (seen r) ≡ ((after s r).0, catalogue (after s r).1))
      × IsValid (after s r).1
seen-after s (ok (o, t)) h k = (refl, k)
seen-after s (err e) h k = (refl, h)

module _ (object_id : String → String) where
  -- One call, on the store and on its catalogue.
  seen-call :
      (c : Call) (s : Store)
      → IsOwned s
      → seen (on_store object_id c s) ≡ on_catalogue object_id c (catalogue s)
  unfolding on_store
  seen-call (create now id value used_by description tags) s owned =
      seen-create object_id now id value used_by description tags s owned
  seen-call (add uuid now id value used_by) s owned = seen-add object_id uuid now id value used_by s
  seen-call (update now id sel value tags used_by) s owned =
      seen-update object_id now id sel value tags used_by s
  seen-call (patch now id sel description slug tags) s owned =
      seen-patch object_id now id sel description slug tags s
  seen-call (retag id tags) s owned = seen-retag object_id id tags s
  seen-call (delete id sel) s owned = seen-delete object_id id sel s
  seen-call (read id sel) s owned = seen-read object_id id sel s

  call-IsValid :
      (c : Call) (s : Store) → IsValid s → OnOk (λ r. IsValid r.1) (on_store object_id c s)
  unfolding on_store
  call-IsValid (create now id value used_by description tags) s h =
      kept silent (create_object object_id now id value used_by description tags s)
        (create_object-IsValid object_id now id value used_by description tags s h)
  call-IsValid (add uuid now id value used_by) s h =
      kept (λ r. silent r.1) (add_variant uuid now id value used_by s)
        (add_variant-IsValid uuid now id value used_by s h)
  call-IsValid (update now id sel value tags used_by) s h =
      kept spoken (update_variant now id sel value tags used_by s)
        (update_variant-IsValid now id sel value tags used_by s h)
  call-IsValid (patch now id sel description slug tags) s h =
      kept spoken (patch_variant now id sel description slug tags s)
        (patch_variant-IsValid now id sel description slug tags s h)
  call-IsValid (retag id tags) s h =
      kept silent (set_object_tags id tags s) (set_object_tags-IsValid id tags s h)
  call-IsValid (delete id sel) s h =
      kept silent (delete_variant id sel s) (delete_variant-IsValid id sel s h)
  call-IsValid (read id sel) s h =
      kept (λ o. (some o, s)) (get_variant id sel s) (OnOk-always h (get_variant id sel s))

  -- On a valid store, calls in any sequence, those that fail and those that only read included, are answered as
  -- they are on the catalogue of the store, and leave the catalogue of the store that they leave.
  pub replay_refines :
      (cs : List Call) (s : Store)
      → IsValid s
      → ((replay (on_store object_id) cs s).0, catalogue (replay (on_store object_id) cs s).1)
        ≡ replay (on_catalogue object_id) cs (catalogue s)
  unfolding replay
  replay_refines [] s h = refl
  replay_refines (c ∷ cs) s h =
      let (same, valid) = seen-after s (on_store object_id c s) h (call-IsValid c s h) in
      let ih = replay_refines cs (after s (on_store object_id c s)).1 valid in
      rw (← (seen-call c s h.0), same, ← ih) refl
