-- ===== src/Session/Renamed.antt =====
-- What the server of internal/testserver/testserver.go has under the old name and the new one, once a call that
-- renames an object is answered with success.
use hush_hush_cli.Prelude.{
  ℕ, String, ◌≡◌, refl, sym, ap, ◌∙◌, Bool, true, false, not, Option, some, List, [], ◌∷◌, ◌==◌,
  if◌then◌else◌, eq_refl, Result, ok, err, ok-injective, Bool-cases, inl, inr, map_err, subst,
  >>=-eq-ok, ◌>>=◌,
}
use hush_hush_cli.Prelude.Text.{is_empty, member}
use hush_hush_cli.Server.Types.{
  Time, Store, Object, Selector, StoreError, not_found, already_exists, several_variants,
}
use hush_hush_cli.Server.Objects.{
  variants, find, find_in, get_variant, patch_variant, patched, replaced, renames, is_taken,
  move_variants, store_variants,
}
use hush_hush_cli.Server.Objects.Variants.{move_variants-placed}
use hush_hush_cli.Server.Requests.{normalize_optional_tags}
use hush_hush_cli.Server.Tokens.{validate_token}
use hush_hush_cli.Server.Http.Defs.{Env, PatchObjectRequest, Response, object, write_json}
use hush_hush_cli.Server.Listing.{metadata}
use hush_hush_cli.Server.Http.Flow.{
  Answer, refuse_if, bad_request, selected, has_write_token, bearer_value, unknown_object,
}
use hush_hush_cli.Server.Http.Objects.{handle_patch_object, handle_get_object, problem, patch_error}
use hush_hush_cli.Server.Http.Created.{only, selected-nothing, get_variant-only}
use hush_hush_cli.Server.Http.Reading.{IsScoped, get_object-unknown}
use hush_hush_cli.Session.Success.{
  is_success, Fails, passed, mapped-passed, refuse_if-Fails, map_err-Fails,
}
use hush_hush_cli.Session.{told}
use hush_hush_cli.Session.Stored.{same_bearers, no_selection, get_object-told}

-- A name that is found with no selector has one variant.
pub alone_in : (vs : List Object) (i : ℕ) (o : Object) → find_in only vs ≡ ok (i, o) → vs ≡ o ∷ []
unfolding find_in
alone_in [] i o found = cc
alone_in (v ∷ []) i o found = ap (λ u. u ∷ []) (ap (λ p. p.1) (ok-injective found))
alone_in (v ∷ (w ∷ vs)) i o found = cc

pub get_variant-alone :
    (id : String) (o : Object) (s : Store) → get_variant id only s ≡ ok o → variants id s ≡ o ∷ []
unfolding get_variant find
get_variant-alone id o s found =
    let (p, at, same) = >>=-eq-ok (find_in only (variants id s)) (λ p. ok p.1) found in
    alone_in (variants id s) p.0 p.1 at ∙ ap (λ u. u ∷ []) (ok-injective same)

module _ (now : Time) (id slug : String) (description : Option String) (tags : Option (List String))
    (o : Object) (s : Store) (alone : variants id s ≡ o ∷ []) (apart : (slug == id) ≡ false) where
  -- The store once the object has its new name.
  abbrev moved_store : Store
  moved_store = move_variants id (some slug) (patched now description tags o ∷ []) s

  patch_variant-moved :
      (o' : Object) (t : Store)
      → patch_variant now id only description (some slug) tags s ≡ ok (o', t)
      → t ≡ moved_store
  unfolding patch_variant find find_in renames
  patch_variant-moved o' t went = elim (Bool-cases (is_taken (some slug) s)) [
    | inl taken ↦ let bad = rw (alone, apart, taken) at went in cc
    | inr free ↦ ap (λ p. p.1) (sym (ok-injective (rw (alone, apart, free) at went)))
  ]

  moved-new : variants slug moved_store ≡ patched now description tags o ∷ []
  moved-new =
      move_variants-placed id (some slug) (patched now description tags o ∷ []) s slug
      ∙ ap
          (λ (b : Bool).
            if b
            then patched now description tags o ∷ []
            else if id == slug
            then []
            else variants slug s)
          (eq_refl slug)

  moved-old : variants id moved_store ≡ []
  moved-old =
      move_variants-placed id (some slug) (patched now description tags o ∷ []) s id
      ∙ rw (apart, eq_refl id) refl

  moved-IsScoped :
      (later : Time) (authorization c : String)
      → IsScoped later authorization s c
      → IsScoped later authorization moved_store c
  unfolding move_variants store_variants has_write_token validate_token
  moved-IsScoped later authorization c h = record {
    no_write = h.no_write;
    given = h.given;
    bound_to = same_bearers later (bearer_value authorization) _ _ _ s ∙ h.bound_to;
    named = h.named;
  }

pub get_variant-none :
    (id : String) (sel : Selector) (s : Store)
    → variants id s ≡ []
    → get_variant id sel s ≡ err not_found
unfolding get_variant find find_in
get_variant-none id sel s gone = rw gone refl

patch_error-Fails : (e : StoreError) → is_success (patch_error e) ≡ false
patch_error-Fails already_exists = refl
patch_error-Fails several_variants = refl
patch_error-Fails _ = refl

module _ (env : Env) (id : String) (req : PatchObjectRequest) (s : Store) where
  -- The end of the chain.
  abbrev patch_reply : Object × Store → Result Response Answer
  patch_reply p = ok (write_json 200 (object (metadata (replaced req.slug id) p.0)), p.1)

  patch_passed :
      (a : Answer)
      → is_success a.0 ≡ true
      → handle_patch_object env id (some req) [] s ≡ a
      → (tags : Option (List String)) × (o' : Object) × (patch_variant env.now id only
            req.description req.slug tags s
          ≡ ok (o', a.1))
  unfolding handle_patch_object
  patch_passed a good went =
      let (_, _, fine) =
        passed s a (refuse_if _ _) _ good (refuse_if-Fails (not (is_empty (problem req))) _ refl)
          went in
      let (tags, _, normal) =
        passed s a (map_err bad_request (normalize_optional_tags req.tags)) _ good
          (map_err-Fails _ (normalize_optional_tags req.tags) (λ e. refl)) fine in
      let patching = λ (v : Selector). patch_variant env.now id v req.description req.slug tags s in
      let (sel, chosen, picked) =
        passed s a (selected []) (λ v. map_err patch_error (patching v) >>= patch_reply) good
          (subst Fails (sym selected-nothing) tt) normal in
      let ((o', t), patches, last) =
        passed s a (map_err patch_error (patching sel)) patch_reply good
          (map_err-Fails _ (patching sel) patch_error-Fails) picked in
      (
        tags,
        o',
        ap patching (ok-injective (sym selected-nothing ∙ chosen))
            ∙ mapped-passed patch_error (patching sel) patches
            ∙ ap (λ u. ok (o', u)) (ap (λ (b : Answer). b.1) last),
      )

  -- What the holder of a consumer token is answered for the two names, once the object has the new one.
  pub read_renamed :
      (slug : String) (o : Object) (later : Env) (authorization c : String) (a : Answer)
      → req.slug ≡ some slug
      → (slug == id) ≡ false
      → get_variant id only s ≡ ok o
      → IsScoped later.now authorization s c
      → is_success a.0 ≡ true
      → handle_patch_object env id (some req) [] s ≡ a
      → (handle_get_object later authorization slug [] a.1
          ≡ (told (member c o.used_by) o.value, a.1))
        × (handle_get_object later authorization id [] a.1 ≡ (unknown_object, a.1))
  unfolding patched
  read_renamed slug o later authorization c a named apart found scoped good went =
      let (tags, o', patches) = patch_passed a good went in
      let alone = get_variant-alone id o s found in
      let same = patch_variant-moved env.now id slug req.description tags o s alone apart o' a.1 (
        subst (λ n. patch_variant env.now id only req.description n tags s ≡ ok (o', a.1)) named
          patches) in
      let t = moved_store env.now id slug req.description tags o s alone apart in
      let scoped' =
        moved-IsScoped env.now id slug req.description tags o s alone apart later.now authorization
          c scoped in
      subst
        (λ u.
          (handle_get_object later authorization slug [] u ≡ (told (member c o.used_by) o.value, u))
          × (handle_get_object later authorization id [] u ≡ (unknown_object, u)))
        (sym same)
        (
          get_object-told later authorization slug c (patched env.now req.description tags o) t
              scoped'
              (get_variant-only slug (patched env.now req.description tags o) t
                (moved-new env.now id slug req.description tags o s alone apart)),
          get_object-unknown later authorization id [] t c only scoped' no_selection (
              get_variant-none id only t
                (moved-old env.now id slug req.description tags o s alone apart)),
        )
