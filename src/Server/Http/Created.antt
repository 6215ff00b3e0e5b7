-- ===== src/Server/Http/Created.antt =====
-- What POST /objects stores, read by GET /objects/{id}.
use hush_hush_cli.Prelude.{
  ℕ, String, ◌≡◌, refl, sym, ap, ◌∙◌, subst, Bool, true, false, ◌||◌, some, none, List, [], ◌∷◌, ok,
  err, ok-injective, if◌then◌else◌, eq_refl,
}
use hush_hush_cli.Prelude.Map.{has}
use hush_hush_cli.Prelude.Text.{is_empty}
use hush_hush_cli.Server.Types.{Time, Object, Store, Selector}
use hush_hush_cli.Server.Objects.{create_object, variants, find, find_in, get_variant}
use hush_hush_cli.Server.Objects.Created.{new_object, create_object-variants}
use hush_hush_cli.Server.Objects.Owned.{IsOwned}
use hush_hush_cli.Server.Requests.{normalize_tags, selector_from, query_get}
use hush_hush_cli.Server.Tokens.{validate_token}
use hush_hush_cli.Server.Http.Defs.{Env, CreateObjectRequest, reply, bytes}
use hush_hush_cli.Server.Http.Flow.{has_write_token, selected}
use hush_hush_cli.Server.Http.Objects.{
  handle_create_object, handle_get_object, read_scope, no_bytes,
}

abbrev pub only : Selector
only = record { id = ""; consumer = "" }

pub selected-nothing : selected [] ≡ ok only
unfolding selected selector_from query_get
selected-nothing = refl

-- The only variant of a name is the one that a lookup with no selector gives.
pub get_variant-only :
    (id : String) (o : Object) (s : Store) → variants id s ≡ o ∷ [] → get_variant id only s ≡ ok o
unfolding get_variant find find_in
get_variant-only id o s alone = rw alone refl

-- The reading of a write token's holder is a function of the lookup alone.
read_by_writer :
    (env : Env) (authorization id : String) (o : Object) (s : Store)
    → has_write_token env.now authorization s ≡ true
    → get_variant id only s ≡ ok o
    → handle_get_object env authorization id [] s ≡ (reply 200 (bytes o.value) none, s)
unfolding handle_get_object read_scope
read_by_writer env authorization id o s writes found = rw (writes, found) refl

pub unless {ℓ κ} :
    {E : Type ℓ} {A : Type κ} (refused : Bool) (e : E) (a b : A)
    → (if refused then err e else ok a) ≡ ok b
    → a ≡ b
unless true e a b h = cc
unless false e a b h = ok-injective h

-- Creating an object leaves the tokens alone.
pub writes_still :
    (object_id : String → String) (now later : Time) (authorization id : String) (value : List ℕ)
    (used_by : List String) (description : String) (tags : List String) (s t : Store)
    → create_object object_id now id value used_by description tags s ≡ ok t
    → has_write_token later authorization t ≡ has_write_token later authorization s
unfolding create_object has_write_token validate_token
writes_still object_id now later authorization id value used_by description tags s t went =
    ap (has_write_token later authorization) (sym (unless (has id s.objects) _ _ t went))

module _ (object_id : String → String) (env later : Env) (authorization : String)
    (req : CreateObjectRequest) (s : Store) (owned : IsOwned s)
    (complete : (is_empty req.slug || no_bytes req.value) ≡ false) (tags : List String)
    (normal : normalize_tags req.tags ≡ ok tags) (free : has req.slug s.objects ≡ false)
    (writes : has_write_token later.now authorization s ≡ true) where
  created_store :
      (t : Store)
      → create_object object_id env.now req.slug req.value req.used_by req.description tags s ≡ ok t
      → (handle_create_object object_id env (some req) s).1 ≡ t
  unfolding handle_create_object
  created_store t went = rw (complete, normal, went) refl

  -- In a store whose further variants stand under names that have an object, a request with a value, a free name
  -- and tags that pass creates an object: whoever holds a write token of that store, at the time of reading, and
  -- then asks for the name, is answered with exactly the bytes that were sent, and nothing changes.
  pub handle_get_object-created :
      handle_get_object later authorization req.slug []
        (handle_create_object object_id env (some req) s).1
      ≡ (reply 200 (bytes req.value) none, (handle_create_object object_id env (some req) s).1)
  handle_get_object-created =
      let (t, went, there) =
        create_object-variants object_id env.now req.slug req.value req.used_by req.description tags
          s owned free in
      let obj =
        new_object (object_id req.slug) env.now req.value req.used_by req.description tags in
      let alone : variants req.slug t ≡ obj ∷ [] =
        there req.slug ∙ ap (λ b. if b then obj ∷ [] else variants req.slug s) (eq_refl req.slug) in
      subst
        (λ u.
          handle_get_object later authorization req.slug [] u
          ≡ (reply 200 (bytes req.value) none, u))
        (sym (created_store t went))
        (read_by_writer later authorization req.slug obj t
          (writes_still object_id env.now later.now authorization req.slug req.value req.used_by
              req.description tags s t went
            ∙ writes)
          (get_variant-only req.slug obj t alone))
