-- ===== src/Session/Foreign.antt =====
-- What an operator injects through internal/cli for others, asked for by the holder of a consumer token.
use hush_hush_cli.Prelude.{
  ℕ, String, ◌≡◌, refl, sym, ap, ◌∙◌, subst, true, false, List, [], ◌∷◌, ◌||◌, Result, ok, err,
  arith, inl, inr,
}
use hush_hush_cli.Prelude.Text.{is_empty, member}
use hush_hush_cli.Server.Types.{Object}
use hush_hush_cli.Server.Objects.{variants}
use hush_hush_cli.Server.Objects.Owned.{IsOwned}
use hush_hush_cli.Server.Requests.{text}
use hush_hush_cli.Server.Http.Defs.{reply}
use hush_hush_cli.Server.Http.Mux.{serve, route}
use hush_hush_cli.Server.Http.Reading.{IsScoped, get_object-out_of_scope, get_object-unknown}
use hush_hush_cli.Client.Errors.{Err, wrap, map_error, sentinel, is, not_found}
use hush_hush_cli.Client.Calls.{object_options, list_or_empty}
use hush_hush_cli.Client.Remote.{Remote, Builder}
use hush_hush_cli.Cli.Config.{Config, read_credential, read_error}
use hush_hush_cli.Cli.Options.{WriteOption}
use hush_hush_cli.Cli.Write.{inject}
use hush_hush_cli.Cli.Write.Calm.{sealed_value-keeps_all}
use hush_hush_cli.Cli.Read.{get}
use hush_hush_cli.Cli.Read.Fetched.{get-refused_with}
use hush_hush_cli.Cli.Read.RoundTrip.{inject_sent}
use hush_hush_cli.Session.{Hosting, Forwards, asked, bearer, body_of, query_of}
use hush_hush_cli.Session.Calm.{calm}
use hush_hush_cli.Session.Picked.{one_pick, get_variant-lone}
use hush_hush_cli.Session.Renamed.{get_variant-alone}
use hush_hush_cli.Session.Shared.{names_sent}
use hush_hush_cli.Session.Stored.{created_alone}
use hush_hush_cli.Session.Success.{guarded-passed}

module _ {ℓ κ μ ν} {W : Type ℓ} {R : Type κ} {I : Type μ} {Stream : Type ν} (h : Hosting W)
    (operator_credential : String) (operator : Remote W)
    (operates : Forwards h operator_credential operator)
    (looks_up : (name : String) (u : W)
      → h.store_of (operator.objects.get_consumer_public_key name u).1 ≡ h.store_of u)
    (build : Builder W) (cfg : Config) (make : String → Remote W)
    (builds : build cfg.server (read_credential cfg) ≡ ok make)
    (reads : Forwards h (read_credential cfg) (make cfg.caller))
    (parse_recipient : String → Result Err R) (encrypt : List R → List ℕ → Result Err (List ℕ))
    (parse_identity : String → Result Err I) (decrypt : List I → List ℕ → Result Err Stream)
    (read_all : Stream → Result Err (List ℕ)) (id : String) (value : List ℕ)
    (recipients used_by : List String) (description : String) (opts : List WriteOption) (c : String)
    (w w' : W) (owned : IsOwned (h.store_of w))
    (scoped : IsScoped (h.env_of w').now (bearer (read_credential cfg)) (h.store_of w) c)
    (went : inject operator.objects parse_recipient encrypt id value recipients used_by description
        opts w
      ≡ (ok tt, w')) where
  -- What the server has under the name.
  stored :
      (o : Object) × (variants id (h.store_of w') ≡ o ∷ [])
      × (o.used_by ≡ used_by)
      × IsScoped (h.env_of w').now (bearer (read_credential cfg)) (h.store_of w') c
  unfolding asked serve route
  stored =
      let reader = bearer (read_credential cfg) in
      let (sealed, req, m, w1, named, carried, called, names, before) =
        inject_sent operator.objects parse_recipient encrypt id value recipients used_by description
          opts w w' went in
      let (body, total, created) = operates.create_answered req m w1 w' called in
      let same : h.store_of w1 ≡ h.store_of w =
        sealed_value-keeps_all operator.objects h.store_of
          (calm h operator_credential operator operates) parse_recipient encrypt value recipients
          used_by _ sealed w w1 before looks_up in
      let made =
        guarded-passed (h.env_of w1).now (bearer operator_credential) _ (h.store_of w1)
          (reply 201 body total, h.store_of w') refl created in
      let (o, found, users, kept, scoped') =
        created_alone h.object_id (h.env_of w1) (body_of req) (h.store_of w1) (h.env_of w') reader c
          (reply 201 body total, h.store_of w') (subst IsOwned (sym same) owned)
          (subst (λ s. IsScoped (h.env_of w').now reader s c) (sym same) scoped) refl made in
      (
        o,
        subst (λ slug. variants slug (h.store_of w') ≡ o ∷ []) named
            (get_variant-alone req.slug o (h.store_of w') found),
        users ∙ ap list_or_empty names ∙ names_sent used_by,
        scoped',
      )

  -- Over a server whose further variants stand under names that have an object, and an SDK that forwards the calls
  -- of an operator and of a reader to it and changes nothing to look up a consumer's key, an inject by the operator
  -- that goes well, for given recipients or for those of the directory, leaves a reader with a consumer
  -- token and no write token, whose consumer is not among those that the name was injected for, the error of
  -- a name that is not there: whatever identities it has, and whatever it asks for of a variant's id and of a
  -- variant's consumer, but both.
  pub get-inject_foreign :
      (variant_id consumer : String) (identities : List String)
      → (is_empty variant_id || is_empty consumer) ≡ true
      → member c used_by ≡ false
      → (get build parse_identity decrypt read_all cfg id identities variant_id consumer w').0
        ≡ err (wrap "fetch object" (sentinel not_found))
  unfolding map_error read_error is asked serve route
  get-inject_foreign variant_id consumer identities one foreign =
      let options = object_options variant_id consumer in
      let s = h.store_of w' in
      let reader = bearer (read_credential cfg) in
      let (sel, picked) = one_pick variant_id consumer one in
      let (o, alone, users, scoped') = stored in
      get-refused_with build parse_identity decrypt read_all cfg make builds id identities w'
        variant_id consumer _
        (reads.error_returned id options 404 (text "unknown object") s w' (omega arith)
          (elim (get_variant-lone id sel o s alone) [
            | inl found ↦
                get_object-out_of_scope (h.env_of w') reader id (query_of options) s c sel scoped'
                  picked o found (ap (member c) users ∙ foreign)
            | inr missing ↦
                get_object-unknown (h.env_of w') reader id (query_of options) s c sel scoped' picked
                  missing
          ]))
