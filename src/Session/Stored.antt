-- ===== src/Session/Stored.antt =====
-- What the server of internal/testserver/testserver.go has stored once a call that creates an object is
-- answered with 201.
use hush_hush_cli.Prelude.{
  ℕ, String, ◌≡◌, refl, sym, ap, ◌∙◌, true, false, ◌||◌, Option, some, List, [], ◌∷◌, if◌then◌else◌,
  eq_refl, Result, ok, ok-injective, Bool-cases, inl, inr, map_err, arith,
}
use hush_hush_cli.Prelude.Map.{Map, has, lookup}
use hush_hush_cli.Prelude.Text.{is_empty, member}
use hush_hush_cli.Server.Types.{Time, StoreError, Store, Object}
use hush_hush_cli.Server.Objects.{create_object, variants, get_variant}
use hush_hush_cli.Server.Objects.Owned.{IsOwned}
use hush_hush_cli.Server.Objects.Created.{new_object, create_object-variants}
use hush_hush_cli.Server.Requests.{normalize_tags, selector_from, query_get}
use hush_hush_cli.Server.Tokens.{consumer_for_token, bearer_of}
use hush_hush_cli.Server.Http.Defs.{Env, CreateObjectRequest}
use hush_hush_cli.Server.Http.Flow.{bad_request, refuse_if, Answer, bearer_value}
use hush_hush_cli.Server.Http.Objects.{handle_create_object, handle_get_object, no_bytes, conflict}
use hush_hush_cli.Server.Http.Created.{only, unless, writes_still, get_variant-only}
use hush_hush_cli.Session.{told}
use hush_hush_cli.Session.Success.{
  is_success, passed, mapped-passed, refuse_if-Fails, map_err-Fails,
}
use hush_hush_cli.Server.Http.Reading.{IsScoped, get_object-in_scope, get_object-out_of_scope}

-- With no query there is no selector.
pub no_selection : selector_from [] ≡ ok only
unfolding selector_from query_get
no_selection = refl

created_is_free :
    (object_id : String → String) (now : Time) (id : String) (value : List ℕ)
    (used_by : List String) (description : String) (tags : List String) (s t : Store)
    → create_object object_id now id value used_by description tags s ≡ ok t
    → has id s.objects ≡ false
unfolding create_object
created_is_free object_id now id value used_by description tags s t went =
    elim (Bool-cases (has id s.objects)) [
      | inl taken ↦ let bad = rw taken at went in cc
      | inr free ↦ free
    ]

-- What the holder of a consumer token is answered for a name of one variant.
pub get_object-told :
    (later : Env) (authorization id c : String) (o : Object) (t : Store)
    → IsScoped later.now authorization t c
    → get_variant id only t ≡ ok o
    → handle_get_object later authorization id [] t ≡ (told (member c o.used_by) o.value, t)
get_object-told later authorization id c o t scoped found = elim (Bool-cases (member c o.used_by)) [
  | inl mine ↦
      rw mine
        (get_object-in_scope later authorization id [] t c only scoped no_selection o found mine)
  | inr foreign ↦ rw foreign (
      get_object-out_of_scope later authorization id [] t c only scoped no_selection o found
        foreign)
]

-- Who holds a consumer token does not depend on the objects and the directory.
pub same_bearers :
    (later : Time) (value : String) (objects : Map Object) (extra : Map (List Object))
    (consumers : Map (Option String)) (s : Store)
    → consumer_for_token later value
        (record s { objects = objects; extra = extra; consumers = consumers })
      ≡ consumer_for_token later value s
unfolding consumer_for_token lookup bearer_of
same_bearers later value objects extra consumers s = ground arith

module _ (object_id : String → String) (env : Env) (req : CreateObjectRequest) (s : Store) where
  -- What is stored for a request, with the tags that it comes to.
  abbrev stored : List String → Result StoreError Store
  stored tags =
      create_object object_id env.now req.slug req.value req.used_by req.description tags s

  handle_created :
      (a : Answer)
      → is_success a.0 ≡ true
      → handle_create_object object_id env (some req) s ≡ a
      → (tags : List String) × (stored tags ≡ ok a.1)
  unfolding handle_create_object
  handle_created a good went =
      let (_, _, whole) =
        passed s a (refuse_if _ _) _ good
          (refuse_if-Fails (is_empty req.slug || no_bytes req.value) _ refl) went in
      let (tags, _, normal) =
        passed s a (map_err bad_request (normalize_tags req.tags)) _ good
          (map_err-Fails _ (normalize_tags req.tags) (λ e. refl)) whole in
      let (t, created, last) =
        passed s a (map_err conflict (stored tags)) _ good
          (map_err-Fails _ (stored tags) (λ e. refl)) normal in
      (tags, mapped-passed conflict (stored tags) created ∙ ap ok (ap (λ (b : Answer). b.1) last))

  -- What is stored is the only variant of its name.
  stored_alone :
      (tags : List String) (t : Store)
      → IsOwned s
      → stored tags ≡ ok t
      → get_variant req.slug only t
        ≡ ok (new_object (object_id req.slug) env.now req.value req.used_by req.description tags)
  stored_alone tags t owned went =
      let free =
        created_is_free object_id env.now req.slug req.value req.used_by req.description tags s t
          went in
      let (u, went', there) =
        create_object-variants object_id env.now req.slug req.value req.used_by req.description tags
          s owned free in
      let obj =
        new_object (object_id req.slug) env.now req.value req.used_by req.description tags in
      let alone : variants req.slug u ≡ obj ∷ [] =
        there req.slug ∙ ap (λ b. if b then obj ∷ [] else variants req.slug s) (eq_refl req.slug) in
      get_variant-only req.slug obj t
        (ap (variants req.slug) (ok-injective (sym went ∙ went')) ∙ alone)

  -- Creating an object leaves the consumer tokens alone.
  bearers_still :
      (later : Time) (value : String) (tags : List String) (t : Store)
      → stored tags ≡ ok t
      → consumer_for_token later value t ≡ consumer_for_token later value s
  unfolding create_object
  bearers_still later value tags t went =
      ap (consumer_for_token later value) (sym (unless (has req.slug s.objects) _ _ t went))
      ∙ same_bearers later value _ _ _ s

  stored-IsScoped :
      (later : Time) (authorization c : String) (tags : List String) (t : Store)
      → stored tags ≡ ok t
      → IsScoped later authorization s c
      → IsScoped later authorization t c
  stored-IsScoped later authorization c tags t went h = record {
    no_write =
        writes_still object_id env.now later authorization req.slug req.value req.used_by
          req.description tags s t went
        ∙ h.no_write;
    given = h.given;
    bound_to = bearers_still later (bearer_value authorization) tags t went ∙ h.bound_to;
    named = h.named;
  }

  -- What the holder of a consumer token may find under a name that has just been created.
  pub created_alone :
      (later : Env) (authorization c : String) (a : Answer)
      → IsOwned s
      → IsScoped later.now authorization s c
      → is_success a.0 ≡ true
      → handle_create_object object_id env (some req) s ≡ a
      → (o : Object) × (get_variant req.slug only a.1 ≡ ok o)
        × (o.used_by ≡ req.used_by)
        × (o.value ≡ req.value)
        × IsScoped later.now authorization a.1 c
  created_alone later authorization c a owned scoped made went =
      let (tags, stores) = handle_created a made went in
      (
        new_object (object_id req.slug) env.now req.value req.used_by req.description tags,
        stored_alone tags a.1 owned stores,
        refl,
        refl,
        stored-IsScoped later.now authorization c tags a.1 stores scoped,
      )

  -- What the holder of a consumer token is answered for a name that has just been created.
  pub read_created :
      (later : Env) (authorization c : String) (a : Answer)
      → IsOwned s
      → IsScoped later.now authorization s c
      → is_success a.0 ≡ true
      → handle_create_object object_id env (some req) s ≡ a
      → handle_get_object later authorization req.slug [] a.1
        ≡ (told (member c req.used_by) req.value, a.1)
  read_created later authorization c a owned scoped made went =
      let (o, found, names, carried, scoped') =
        created_alone later authorization c a owned scoped made went in
      get_object-told later authorization req.slug c o a.1 scoped' found
      ∙ ap (λ used_by. (told (member c used_by) o.value, a.1)) names
      ∙ ap (λ value. (told (member c req.used_by) value, a.1)) carried
