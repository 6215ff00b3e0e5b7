-- ===== src/Session/Edited.antt =====
-- An object that an operator renamed through internal/cli, read by the holder of a consumer token.
use hush_hush_cli.Prelude.{
  ℕ, String, ◌≡◌, refl, sym, ap, ◌∙◌, true, false, some, List, [], ◌==◌, Result, ok, err, arith,
  Bool-cases, inl, inr,
}
use hush_hush_cli.Prelude.Text.{member}
use hush_hush_cli.Server.Types.{Object}
use hush_hush_cli.Server.Objects.{get_variant}
use hush_hush_cli.Server.Requests.{text}
use hush_hush_cli.Server.Http.Defs.{reply, get_object}
use hush_hush_cli.Server.Http.Flow.{unknown_object}
use hush_hush_cli.Server.Http.Created.{only}
use hush_hush_cli.Server.Http.Mux.{serve, route}
use hush_hush_cli.Server.Http.Reading.{IsScoped}
use hush_hush_cli.Client.Errors.{Err, wrap, map_error, sentinel, is, not_found}
use hush_hush_cli.Client.Op.{
  calling, wrapping, done, >>=-ok, wrapped_reply-ok, mapped-ok, reply-injective,
}
use hush_hush_cli.Client.Calls.{
  Sdk, PatchRequest, SdkMetadata, patch, object_options, to_object_metadata,
}
use hush_hush_cli.Client.Seal
use hush_hush_cli.Client.Remote.{Remote, Builder}
use hush_hush_cli.Cli.Config.{Config, read_credential, read_error}
use hush_hush_cli.Cli.Options.{WriteOption, WriteOptions, new_write_options}
use hush_hush_cli.Cli.Write.{edit, changes_nothing}
use hush_hush_cli.Cli.Read.{get}
use hush_hush_cli.Cli.Read.Fetched.{get-opened, get-refused}
use hush_hush_cli.Session.{told, Hosting, Forwards, asked, bearer, patch_of}
use hush_hush_cli.Session.Success.{guarded-passed}
use hush_hush_cli.Session.Renamed.{read_renamed}

-- The request of an edit.
abbrev request_of : WriteOptions → PatchRequest
request_of o = record { description = o.description; slug = o.slug; tags = o.tags }

-- An edit that goes well has sent one patch call.
edited {ℓ} :
    {W : Type ℓ} (sdk : Sdk W) (id : String) (opts : List WriteOption) (w w' : W)
    → edit sdk id opts w ≡ (ok tt, w')
    → (m : SdkMetadata) × (sdk.patch_object id
          (request_of (new_write_options opts))
          (object_options (new_write_options opts).variant_id (new_write_options opts).consumer)
          w
        ≡ (ok m, w'))
unfolding edit patch
edited sdk id opts w w' went =
    let o = new_write_options opts in
    let call = sdk.patch_object id (request_of o) (object_options o.variant_id o.consumer) in
    elim (Bool-cases (changes_nothing o)) [
      | inl empty ↦ let bad = rw empty at went in cc
      | inr some_change ↦
          let (shown, w1, patched, ended) =
            >>=-ok
              (wrapping (wrap "edit object")
                (patch sdk id o.description o.slug o.tags o.variant_id o.consumer))
              (λ meta. done tt) w (rw some_change at went) in
          let (m, w2, called, showing) =
            >>=-ok (calling map_error call) (λ m. done (to_object_metadata m)) w
              (wrapped_reply-ok (wrap "edit object")
                (patch sdk id o.description o.slug o.tags o.variant_id o.consumer w) patched) in
          (
            m,
            mapped-ok map_error (call w) called
                ∙ ap (λ v. (ok m, v)) ((reply-injective showing).1 ∙ (reply-injective ended).1),
          )
    ]

pub no_query :
    (variant_id consumer : String)
    → variant_id ≡ ""
    → consumer ≡ ""
    → object_options variant_id consumer ≡ []
unfolding object_options
no_query variant_id consumer p q = rw (p, q) refl

module _ {ℓ κ μ} {W : Type ℓ} {I : Type κ} {Stream : Type μ} (h : Hosting W)
    (operator_credential : String) (operator : Remote W)
    (operates : Forwards h operator_credential operator) (build : Builder W) (cfg : Config)
    (make : String → Remote W) (builds : build cfg.server (read_credential cfg) ≡ ok make)
    (reads : Forwards h (read_credential cfg) (make cfg.caller))
    (parse_identity : String → Result Err I) (decrypt : List I → List ℕ → Result Err Stream)
    (read_all : Stream → Result Err (List ℕ)) (id slug : String) (opts : List WriteOption)
    (o : Object) (c : String) (w w' : W) (renaming : (new_write_options opts).slug ≡ some slug)
    (apart : (slug == id) ≡ false) (any_variant : (new_write_options opts).variant_id ≡ "")
    (any_consumer : (new_write_options opts).consumer ≡ "")
    (found : get_variant id only (h.store_of w) ≡ ok o)
    (scoped : IsScoped (h.env_of w').now (bearer (read_credential cfg)) (h.store_of w) c)
    (went : edit operator.objects id opts w ≡ (ok tt, w')) where
  -- What the reader is answered for the two names.
  both_answered :
      (asked h (read_credential cfg) (get_object slug) [] w'
        ≡ (told (member c o.used_by) o.value, h.store_of w'))
      × (asked h (read_credential cfg) (get_object id) [] w' ≡ (unknown_object, h.store_of w'))
  unfolding asked serve route
  both_answered =
      let options = new_write_options opts in
      let (m, called) = edited operator.objects id opts w w' went in
      let (body, total, patched) = operates.patch_answered id (request_of options) [] m w w' (
        ap (λ q. operator.objects.patch_object id (request_of options) q w)
          (sym (no_query options.variant_id options.consumer any_variant any_consumer))
        ∙ called) in
      let done =
        guarded-passed (h.env_of w).now (bearer operator_credential) _ (h.store_of w)
          (reply 200 body total, h.store_of w') refl patched in
      read_renamed (h.env_of w) id (patch_of (request_of options)) (h.store_of w) slug o
        (h.env_of w') (bearer (read_credential cfg)) c (reply 200 body total, h.store_of w')
        renaming apart found scoped refl done

  -- Over an SDK that forwards the calls of an operator and of a reader to the server, an edit by the operator that
  -- goes well, selects no variant and gives a name with one variant another name, leaves a reader with a
  -- consumer token and no write token, whose consumer the object names, the value under the new name,
  -- where its identities open what was stored, and under the old name the error of a name that is not there.
  pub get-edit_renamed :
      (identities : List String) (value : List ℕ)
      → member c o.used_by ≡ true
      → Seal.unseal parse_identity decrypt read_all o.value identities ≡ ok value
      → ((get build parse_identity decrypt read_all cfg slug identities "" "" w').0 ≡ ok value)
        × ((get build parse_identity decrypt read_all cfg id identities "" "" w').0
            ≡ err (wrap "fetch object" (sentinel not_found)))
  unfolding map_error read_error is
  get-edit_renamed identities value mine opened =
      let (renamed, old) = both_answered in
      (
        get-opened build parse_identity decrypt read_all cfg make builds slug identities w' value
            o.value
            (reads.value_returned slug [] o.value (h.store_of w') w'
              (renamed ∙ ap (λ b. (told b o.value, h.store_of w')) mine))
            opened,
        get-refused build parse_identity decrypt read_all cfg make builds id identities w' _ (
            reads.error_returned id [] 404 (text "unknown object") (h.store_of w') w' (omega arith)
              old),
      )
