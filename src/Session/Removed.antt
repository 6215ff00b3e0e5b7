-- ===== src/Session/Removed.antt =====
-- What the server of internal/testserver/testserver.go has under each name, once a call that deletes an object
-- with no selector is answered with success.
use hush_hush_cli.Prelude.{
  String, ◌≡◌, refl, sym, ap, ◌∙◌, true, false, none, [], ◌==◌, if◌then◌else◌, eq_refl,
  Result-cases, Bool-cases, inl, inr, not, ◌&&◌, ok, ok-injective, map_err, >>=-eq-ok, ◌>>=◌, subst,
}
use hush_hush_cli.Prelude.Map.{remove}
use hush_hush_cli.Prelude.Text.{member, is_empty}
use hush_hush_cli.Server.Types.{Time, Store, Selector, StoreError, several_variants}
use hush_hush_cli.Server.Objects.{
  variants, find, find_in, delete_variant, get_variant, store_variants,
}
use hush_hush_cli.Server.Objects.Variants.{variants-store_variants}
use hush_hush_cli.Server.Requests.{Query, selector_from}
use hush_hush_cli.Server.Tokens.{validate_token}
use hush_hush_cli.Server.Http.Defs.{Env, reply, empty}
use hush_hush_cli.Server.Http.Flow.{
  Answer, selected, has_write_token, bearer_value, unknown_object, variant_error,
}
use hush_hush_cli.Server.Http.Objects.{handle_delete_object, handle_get_object, read_scope}
use hush_hush_cli.Server.Http.Created.{only, selected-nothing}
use hush_hush_cli.Server.Http.Reading.{IsScoped, get_object-unknown}
use hush_hush_cli.Session.Success.{is_success, Fails, passed, mapped-passed, map_err-Fails}
use hush_hush_cli.Session.Stored.{same_bearers}
use hush_hush_cli.Session.Renamed.{alone_in, get_variant-none}

-- A deletion with no selector takes the only variant of its name.
delete_variant-alone :
    (id : String) (s t : Store) → delete_variant id only s ≡ ok t → t ≡ store_variants id [] s
unfolding delete_variant find find_in
delete_variant-alone id s t went =
    let ((i, o), at, same) = >>=-eq-ok (find_in only (variants id s)) _ went in
    sym (ok-injective (rw (alone_in (variants id s) i o at) at went))

variant_error-Fails : (e : StoreError) → is_success (variant_error e) ≡ false
variant_error-Fails several_variants = refl
variant_error-Fails _ = refl

deleted :
    (id : String) (s : Store) (a : Answer)
    → is_success a.0 ≡ true
    → handle_delete_object id [] s ≡ a
    → a.1 ≡ store_variants id [] s
unfolding handle_delete_object
deleted id s a good went =
    let ending = λ (t : Store). ok (reply 204 empty none, t) in
    let deleting = λ (v : Selector). delete_variant id v s in
    let (sel, chosen, picked) =
      passed s a (selected []) (λ v. map_err variant_error (deleting v) >>= ending) good
        (subst Fails (sym selected-nothing) tt) went in
    let (t, deletes, last) =
      passed s a (map_err variant_error (deleting sel)) ending good
        (map_err-Fails _ (deleting sel) variant_error-Fails) picked in
    ap (λ (b : Answer). b.1) (sym last)
    ∙ delete_variant-alone id s t (
        ap deleting (ok-injective (sym selected-nothing ∙ chosen))
        ∙ mapped-passed variant_error (deleting sel) deletes)

removed-IsScoped :
    (id : String) (s : Store) (later : Time) (authorization c : String)
    → IsScoped later authorization s c
    → IsScoped later authorization (store_variants id [] s) c
unfolding store_variants has_write_token validate_token
removed-IsScoped id s later authorization c h = record {
  no_write = h.no_write;
  given = h.given;
  bound_to = same_bearers later (bearer_value authorization) _ _ _ s ∙ h.bound_to;
  named = h.named;
}

-- A lookup depends on the variants of its name alone.
get_variant-same :
    (id : String) (sel : Selector) (s t : Store)
    → variants id t ≡ variants id s
    → get_variant id sel t ≡ get_variant id sel s
unfolding get_variant find
get_variant-same id sel s t same = ap (λ vs. find_in sel vs >>= λ p. ok p.1) same

-- The scope of a read does not depend on the objects.
removed-scope :
    (now : Time) (authorization id : String) (s : Store)
    → read_scope now authorization (store_variants id [] s) ≡ read_scope now authorization s
unfolding read_scope store_variants has_write_token validate_token
removed-scope now authorization id s =
    rw
      (same_bearers now (bearer_value authorization) (remove id s.objects) (remove id s.extra)
        s.consumers s)
      refl

-- Stores that agree on the scope of a read and on the variants of its name answer it alike.
handle_get_object-same :
    (env : Env) (authorization id : String) (q : Query) (s t : Store)
    → read_scope env.now authorization t ≡ read_scope env.now authorization s
    → variants id t ≡ variants id s
    → (handle_get_object env authorization id q t).0
      ≡ (handle_get_object env authorization id q s).0
unfolding handle_get_object
handle_get_object-same env authorization id q s t scope same =
    elim (Result-cases (read_scope env.now authorization s)) [
      | inr (r, refused) ↦ rw (scope, refused) refl
      | inl (c, scoped) ↦ elim (Result-cases (selected q)) [
        | inr (r, bad) ↦ rw (scope, scoped, bad) refl
        | inl (sel, picked) ↦
            let alike = get_variant-same id sel s t same in
            elim (Result-cases (get_variant id sel s)) [
              | inr (e, missing) ↦ rw (scope, scoped, picked, alike, missing) refl
              | inl (o, found) ↦ elim (Bool-cases (not (is_empty c) && not (member c o.used_by))) [
                | inl foreign ↦ rw (scope, scoped, picked, alike, found, foreign) refl
                | inr mine ↦ rw (scope, scoped, picked, alike, found, mine) refl
              ]
            ]
      ]
    ]

module _ (id : String) (s : Store) (later : Env) (authorization : String) (a : Answer)
    (good : is_success a.0 ≡ true) (went : handle_delete_object id [] s ≡ a) where
  left : (j : String) → variants j a.1 ≡ (if id == j then [] else variants j s)
  left j = ap (variants j) (deleted id s a good went) ∙ variants-store_variants id j [] s

  pub read_deleted :
      (c : String) (q : Query) (sel : Selector)
      → IsScoped later.now authorization s c
      → selector_from q ≡ ok sel
      → handle_get_object later authorization id q a.1 ≡ (unknown_object, a.1)
  read_deleted c q sel scoped picked =
      get_object-unknown later authorization id q a.1 c sel
        (subst (λ t. IsScoped later.now authorization t c) (sym (deleted id s a good went))
          (removed-IsScoped id s later.now authorization c scoped))
        picked
        (get_variant-none id sel a.1
          (left id ∙ ap (λ b. if b then [] else variants id s) (eq_refl id)))

  pub read_other :
      (j : String) (q : Query)
      → (id == j) ≡ false
      → (handle_get_object later authorization j q a.1).0
        ≡ (handle_get_object later authorization j q s).0
  read_other j q apart =
      handle_get_object-same later authorization j q s a.1
        (ap (read_scope later.now authorization) (deleted id s a good went)
          ∙ removed-scope later.now authorization id s)
        (left j ∙ ap (λ b. if b then [] else variants j s) apart)
