-- ===== src/Server/Objects/Catalogue.antt =====
-- What the object methods of internal/testserver/testserver.go promise, with no word of the two maps that hold
-- objects: a catalogue gives each name its variants in order, and no variants where the name is free.
pub mod Seen
pub mod Refined
use hush_hush_cli.Prelude.{
  ℕ, String, Bool, true, false, Option, none, some, List, [], ◌∷◌, ◌++◌, ◌==◌, if◌then◌else◌, set,
  delete_at, Result, ok, err, ◌>>=◌, map_ok,
}
use hush_hush_cli.Server.Types.{
  Time, StoreError, not_found, already_exists, Object, Store, Selector, new_store,
}
use hush_hush_cli.Server.Objects.{
  create_object, add_variant, update_variant, patch_variant, delete_variant, get_variant,
  set_object_tags, find_in, updated, patched, renames,
}
use hush_hush_cli.Server.Objects.Created.{new_object}

-- A call of a method on objects, with its arguments and what it draws.
pub data Call : Type 0 where
  create : Time → String → List ℕ → List String → String → List String → Call
  add : String → Time → String → List ℕ → List String → Call
  update : Time → String → Selector → List ℕ → Option (List String) → Option (List String) → Call
  patch : Time → String → Selector → Option String → Option String → Option (List String) → Call
  retag : String → List String → Call
  delete : String → Selector → Call
  read : String → Selector → Call

-- What a call gives: an error, or the object that it returns, if it returns one, and a new state.
abbrev pub Reply {ℓ} : Type ℓ → Type ℓ
Reply S = Result StoreError (Option Object × S)

abbrev pub silent {ℓ} : {S : Type ℓ} → S → Option Object × S
silent s = (none, s)

abbrev pub spoken {ℓ} : {S : Type ℓ} → Object × S → Option Object × S
spoken (o, s) = (some o, s)

module _ (object_id : String → String) where
  -- A call on the store.
  unfoldable pub on_store : Call → Store → Reply Store
  on_store (create now id value used_by description tags) s =
      map_ok silent (create_object object_id now id value used_by description tags s)
  on_store (add uuid now id value used_by) s =
      map_ok (λ r. silent r.1) (add_variant uuid now id value used_by s)
  on_store (update now id sel value tags used_by) s =
      map_ok spoken (update_variant now id sel value tags used_by s)
  on_store (patch now id sel description slug tags) s =
      map_ok spoken (patch_variant now id sel description slug tags s)
  on_store (retag id tags) s = map_ok silent (set_object_tags id tags s)
  on_store (delete id sel) s = map_ok silent (delete_variant id sel s)
  on_store (read id sel) s = map_ok (λ o. (some o, s)) (get_variant id sel s)

abbrev pub Catalogue : Type 0
Catalogue = String → List Object

-- The variants of one name, written; other names keep theirs.
abbrev pub write : String → List Object → Catalogue → Catalogue
write id vs c j = if id == j then vs else c j

abbrev pub none_in : List Object → Bool
none_in [] = true
none_in (v ∷ vs) = false

abbrev pub retagged : String → List String → List Object → Catalogue → Reply Catalogue
retagged id tags [] c = err not_found
retagged id tags (v ∷ vs) c = ok (none, write id (record v { tags = tags } ∷ vs) c)

-- Variants written under their name, or under a free new one with the old name cleared.
abbrev pub moved : String → Option String → Object → List Object → Catalogue → Reply Catalogue
moved id none o vs c = ok (some o, write id vs c)
moved id (some slug) o vs c =
    if none_in (c slug) then ok (some o, write slug vs (write id [] c)) else err already_exists

module _ (object_id : String → String) where
  -- The same call on a catalogue.
  unfoldable pub on_catalogue : Call → Catalogue → Reply Catalogue
  on_catalogue (create now id value used_by description tags) c =
      if none_in (c id)
      then ok (none, write id (new_object (object_id id) now value used_by description tags ∷ []) c)
      else err already_exists
  on_catalogue (add uuid now id value used_by) c =
      if none_in (c id)
      then err not_found
      else ok (none, write id (c id ++ new_object uuid now value used_by "" [] ∷ []) c)
  on_catalogue (update now id sel value tags used_by) c = do
    (i, o) ← find_in sel (c id)
    let o' = updated now value tags used_by o
    ok (some o', write id (set (c id) i o') c)
  on_catalogue (patch now id sel description slug tags) c = do
    (i, o) ← find_in sel (c id)
    let o' = patched now description tags o
    moved id (renames id slug) o' (set (c id) i o') c
  on_catalogue (retag id tags) c = retagged id tags (c id) c
  on_catalogue (delete id sel) c = do
    (i, o) ← find_in sel (c id)
    ok (none, write id (delete_at (c id) i) c)
  on_catalogue (read id sel) c = do (i, o) ← find_in sel (c id); ok (some o, c)

-- What is told of a call, and the state after it; one that fails changes nothing.
abbrev pub after {ℓ} : {S : Type ℓ} → S → Reply S → Result StoreError (Option Object) × S
after s (ok (o, t)) = (ok o, t)
after s (err e) = (err e, s)

-- The answers to calls in sequence, and the state after them.
unfoldable pub replay {ℓ} :
    {S : Type ℓ}
    → (Call → S → Reply S)
    → List Call
    → S
    → List (Result StoreError (Option Object)) × S
replay step [] s = ([], s)
replay step (c ∷ cs) s =
    let (told, t) = after s (step c s) in let (rest, u) = replay step cs t in (told ∷ rest, u)
