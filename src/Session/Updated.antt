-- ===== src/Session/Updated.antt =====
-- What the server of internal/testserver/testserver.go has stored once a call that updates an object is answered
-- with success.
use hush_hush_cli.Prelude.{
  ℕ, String, ◌≡◌, refl, sym, ap, ◌∙◌, subst, Option, List, [], ◌∷◌, eq_refl, true, false, some,
  Result, ok, ok-injective, ◌>>=◌, map_err,
}
use hush_hush_cli.Prelude.Text.{member}
use hush_hush_cli.Server.Types.{Time, Store, Object, Selector, StoreError, several_variants}
use hush_hush_cli.Server.Objects.{
  variants, find, find_in, get_variant, update_variant, updated, replaced, register_given,
  store_variants,
}
use hush_hush_cli.Server.Objects.Variants.{variants-store_variants}
use hush_hush_cli.Server.Listing.{metadata}
use hush_hush_cli.Server.Requests.{normalize_optional_tags}
use hush_hush_cli.Server.Tokens.{validate_token}
use hush_hush_cli.Server.Http.Defs.{Env, UpdateObjectRequest, Response, object, write_json}
use hush_hush_cli.Server.Http.Flow.{
  Answer, refuse_if, bad_request, selected, has_write_token, bearer_value, variant_error,
}
use hush_hush_cli.Server.Http.Objects.{handle_update_object, handle_get_object, no_bytes}
use hush_hush_cli.Server.Http.Created.{only, selected-nothing, get_variant-only}
use hush_hush_cli.Server.Http.Reading.{IsScoped}
use hush_hush_cli.Session.{told}
use hush_hush_cli.Session.Success.{
  is_success, Fails, passed, mapped-passed, refuse_if-Fails, map_err-Fails,
}
use hush_hush_cli.Session.Stored.{same_bearers, get_object-told}
use hush_hush_cli.Session.Renamed.{get_variant-alone}

module _ (now : Time) (id : String) (value : List ℕ) (tags used_by : Option (List String))
    (o : Object) (s : Store) (alone : variants id s ≡ o ∷ []) where
  -- The store once the object is written anew.
  abbrev written_store : Store
  written_store =
      store_variants id (updated now value tags used_by o ∷ [])
        (record s { consumers = register_given used_by s.consumers })

  update_variant-written :
      (o' : Object) (t : Store)
      → update_variant now id only value tags used_by s ≡ ok (o', t)
      → t ≡ written_store
  unfolding update_variant find find_in
  update_variant-written o' t went = ap (λ p. p.1) (sym (ok-injective (rw alone at went)))

  written-variants : variants id written_store ≡ updated now value tags used_by o ∷ []
  written-variants =
      variants-store_variants id id (updated now value tags used_by o ∷ [])
        (record s { consumers = register_given used_by s.consumers })
      ∙ rw (eq_refl id) refl

  written-IsScoped :
      (later : Time) (authorization c : String)
      → IsScoped later authorization s c
      → IsScoped later authorization written_store c
  unfolding store_variants has_write_token validate_token
  written-IsScoped later authorization c h = record {
    no_write = h.no_write;
    given = h.given;
    bound_to = same_bearers later (bearer_value authorization) _ _ _ s ∙ h.bound_to;
    named = h.named;
  }

variant_error-Fails : (e : StoreError) → is_success (variant_error e) ≡ false
variant_error-Fails several_variants = refl
variant_error-Fails _ = refl

module _ (env : Env) (id : String) (req : UpdateObjectRequest) (s : Store) where
  -- The end of the chain.
  abbrev update_reply : Object × Store → Result Response Answer
  update_reply p = ok (write_json 200 (object (metadata id p.0)), p.1)

  update_passed :
      (a : Answer)
      → is_success a.0 ≡ true
      → handle_update_object env id (some req) [] s ≡ a
      → (tags : Option (List String)) × (o' : Object) × (update_variant env.now id only req.value
            tags req.used_by s
          ≡ ok (o', a.1))
  unfolding handle_update_object
  update_passed a good went =
      let (_, _, fine) =
        passed s a (refuse_if _ _) _ good (refuse_if-Fails (no_bytes req.value) _ refl) went in
      let (tags, _, normal) =
        passed s a (map_err bad_request (normalize_optional_tags req.tags)) _ good
          (map_err-Fails _ (normalize_optional_tags req.tags) (λ e. refl)) fine in
      let updating = λ (v : Selector). update_variant env.now id v req.value tags req.used_by s in
      let (sel, chosen, picked) =
        passed s a (selected []) (λ v. map_err variant_error (updating v) >>= update_reply) good
          (subst Fails (sym selected-nothing) tt) normal in
      let ((o', t), updates, last) =
        passed s a (map_err variant_error (updating sel)) update_reply good
          (map_err-Fails _ (updating sel) variant_error-Fails) picked in
      (
        tags,
        o',
        ap updating (ok-injective (sym selected-nothing ∙ chosen))
            ∙ mapped-passed variant_error (updating sel) updates
            ∙ ap (λ u. ok (o', u)) (ap (λ (b : Answer). b.1) last),
      )

  -- What the holder of a consumer token is answered for a name that has just been updated.
  pub read_updated :
      (o : Object) (later : Env) (authorization c : String) (a : Answer)
      → get_variant id only s ≡ ok o
      → IsScoped later.now authorization s c
      → is_success a.0 ≡ true
      → handle_update_object env id (some req) [] s ≡ a
      → handle_get_object later authorization id [] a.1
        ≡ (told (member c (replaced req.used_by o.used_by)) req.value, a.1)
  unfolding updated
  read_updated o later authorization c a found scoped good went =
      let (tags, o', updates) = update_passed a good went in
      let alone = get_variant-alone id o s found in
      let t = written_store env.now id req.value tags req.used_by o s alone in
      subst
        (λ u.
          handle_get_object later authorization id [] u
          ≡ (told (member c (replaced req.used_by o.used_by)) req.value, u))
        (sym
          (update_variant-written env.now id req.value tags req.used_by o s alone o' a.1 updates))
        (get_object-told later authorization id c (updated env.now req.value tags req.used_by o) t
          (written-IsScoped env.now id req.value tags req.used_by o s alone later.now authorization
            c scoped)
          (get_variant-only id (updated env.now req.value tags req.used_by o) t
            (written-variants env.now id req.value tags req.used_by o s alone)))
