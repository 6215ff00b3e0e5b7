-- ===== src/Session/Rejected.antt =====
-- A Get of internal/cli with a consumer token that the server of internal/testserver takes no more.
use hush_hush_cli.Prelude.{
  ℕ, String, ◌≡◌, refl, sym, ap, ◌∙◌, Option-cases, inl, inr, subst, true, false, List, Result, ok,
  err, arith,
}
use hush_hush_cli.Prelude.Map.{lookup}
use hush_hush_cli.Prelude.Text.{is_empty}
use hush_hush_cli.Prelude.Text.Prefix.{cut_prefix-append}
use hush_hush_cli.Server.Types.{Store, Time}
use hush_hush_cli.Server.Requests.{text, Query}
use hush_hush_cli.Server.Tokens.{consumer_for_token, rejected, bearer_at, bearer_of}
use hush_hush_cli.Server.Http.Defs.{Env, get_object}
use hush_hush_cli.Server.Http.Flow.{has_write_token, bearer_value, unauthorized}
use hush_hush_cli.Server.Http.Objects.{handle_get_object, read_scope}
use hush_hush_cli.Server.Http.Mux.{serve, route}
use hush_hush_cli.Client.Errors
use hush_hush_cli.Client.Errors.{Err, wrap, map_error, sentinel, is}
use hush_hush_cli.Client.Calls.{object_options}
use hush_hush_cli.Client.Remote.{Remote, Builder}
use hush_hush_cli.Cli.Config.{Config, read_credential, read_error}
use hush_hush_cli.Cli.Read.{get}
use hush_hush_cli.Cli.Read.Fetched.{get-refused_with}
use hush_hush_cli.Session.{Hosting, Forwards, asked, bearer, query_of}

bearer_value-bearer : (credential : String) → bearer_value (bearer credential) ≡ credential
unfolding bearer_value
bearer_value-bearer credential = rw (cut_prefix-append "Bearer " credential, bearer_value) refl

-- A reader whose token is rejected is not told anything of the name, whatever the query.
rejected_unauthorized :
    (env : Env) (credential id : String) (q : Query) (s : Store)
    → is_empty credential ≡ false
    → has_write_token env.now (bearer credential) s ≡ false
    → consumer_for_token env.now credential s ≡ rejected
    → handle_get_object env (bearer credential) id q s ≡ (unauthorized, s)
unfolding handle_get_object read_scope
rejected_unauthorized env credential id q s given no_write gone =
    rw (no_write, bearer_value-bearer credential, given, gone) refl

-- The consumer tokens of a store are those of another one.
abbrev pub HasTokensOf : Store → Store → Type 0
HasTokensOf s t =
    (t.consumer_tokens ≡ s.consumer_tokens) × (t.consumer_token_values ≡ s.consumer_token_values)

-- What a value is worth depends on the consumer tokens alone.
pub consumer_for_token-same :
    (later : Time) (value : String) (s t : Store)
    → HasTokensOf s t
    → consumer_for_token later value t ≡ consumer_for_token later value s
unfolding consumer_for_token
consumer_for_token-same later value s t (tokens, values) =
    ap (λ index. bearer_at later (lookup value index) t) values
    ∙ elim (Option-cases (lookup value s.consumer_token_values)) [
      | inl unknown ↦ rw unknown refl
      | inr (id, known) ↦ rw known (ap (λ records. bearer_of later (lookup id records)) tokens)
    ]

module _ {ℓ κ μ} {W : Type ℓ} {I : Type κ} {Stream : Type μ} (h : Hosting W) (build : Builder W)
    (cfg : Config) (make : String → Remote W)
    (builds : build cfg.server (read_credential cfg) ≡ ok make)
    (reads : Forwards h (read_credential cfg) (make cfg.caller))
    (parse_identity : String → Result Err I) (decrypt : List I → List ℕ → Result Err Stream)
    (read_all : Stream → Result Err (List ℕ)) (no_token : is_empty cfg.token ≡ true)
    (given : is_empty cfg.consumer_token ≡ false) where
  credential : read_credential cfg ≡ cfg.consumer_token
  unfolding read_credential
  credential = rw no_token refl

  module _ (w : W)
      (no_write : has_write_token (h.env_of w).now (bearer cfg.consumer_token) (h.store_of w)
        ≡ false)
      (gone : consumer_for_token (h.env_of w).now cfg.consumer_token (h.store_of w) ≡ rejected)
      (name variant_id consumer : String) where
    abbrev picked : Query
    picked = query_of (object_options variant_id consumer)

    refused :
        asked h (read_credential cfg) (get_object name) picked w ≡ (unauthorized, h.store_of w)
    unfolding asked serve route
    refused =
        subst
          (λ c.
            handle_get_object (h.env_of w) (bearer c) name picked (h.store_of w)
            ≡ (unauthorized, h.store_of w))
          (sym credential)
          (rejected_unauthorized (h.env_of w) cfg.consumer_token name picked (h.store_of w) given
            no_write gone)

    -- Such a Get fails, for every name and every choice of a variant, with the error that the consumer token is rejected.
    pub get-rejected :
        (identities : List String)
        → (get build parse_identity decrypt read_all cfg name identities variant_id consumer w).0
          ≡ err (
              wrap "fetch object"
                (wrap "consumer token rejected" (sentinel Errors.Sentinel.unauthorized)))
    unfolding map_error read_error is
    get-rejected identities =
        let named =
          get-refused_with build parse_identity decrypt read_all cfg make builds name identities w
            variant_id consumer _
            (reads.error_returned name (object_options variant_id consumer) 401
              (text "missing or invalid bearer token") (h.store_of w) w (omega arith) refused) in
        named ∙ rw (no_token, given) refl
