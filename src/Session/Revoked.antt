-- ===== src/Session/Revoked.antt =====
-- A consumer token that an operator revoked through internal/client, and its holder's Get of internal/cli.
use hush_hush_cli.Prelude.{
  ℕ, String, ◌≡◌, refl, sym, ap, ◌∙◌, true, false, none, some, List, Result, ok, err, eq_refl, ◌==◌,
  if◌then◌else◌,
}
use hush_hush_cli.Prelude.Int.{ℤ}
use hush_hush_cli.Prelude.Map.{lookup}
use hush_hush_cli.Prelude.Text.{is_empty}
use hush_hush_cli.Server.Types.{Time, TokenRecord}
use hush_hush_cli.Server.Tokens.{revoke_consumer_token, consumer_for_token, rejected}
use hush_hush_cli.Server.Tokens.Indexed.{IsIndexed}
use hush_hush_cli.Server.Tokens.Lifetime.{revoke_consumer_token-rejected}
use hush_hush_cli.Server.Http.Defs.{reply, empty}
use hush_hush_cli.Server.Http.Flow.{has_write_token}
use hush_hush_cli.Server.Http.Tokens.{handle_revoke_token}
use hush_hush_cli.Server.Http.Mux.{serve, route}
use hush_hush_cli.Client.Errors
use hush_hush_cli.Client.Errors.{Err, wrap, map_error, sentinel, is}
use hush_hush_cli.Client.Op.{mapped-ok}
use hush_hush_cli.Client.TokenCalls
use hush_hush_cli.Client.Remote.{Remote, Builder}
use hush_hush_cli.Cli.Config.{Config, read_credential}
use hush_hush_cli.Cli.Read.{get}
use hush_hush_cli.Session.Rejected.{get-rejected, HasTokensOf, consumer_for_token-same}
use hush_hush_cli.Session.{Hosting, Forwards, asked, bearer}
use hush_hush_cli.Session.Success.{guarded-passed}

module _ {ℓ κ μ} {W : Type ℓ} {I : Type κ} {Stream : Type μ} (h : Hosting W)
    (operator_credential : String) (operator : Remote W)
    (operates : Forwards h operator_credential operator) (build : Builder W) (cfg : Config)
    (make : String → Remote W) (builds : build cfg.server (read_credential cfg) ≡ ok make)
    (reads : Forwards h (read_credential cfg) (make cfg.caller))
    (parse_identity : String → Result Err I) (decrypt : List I → List ℕ → Result Err Stream)
    (read_all : Stream → Result Err (List ℕ)) (no_token : is_empty cfg.token ≡ true)
    (given : is_empty cfg.consumer_token ≡ false) where
  module _ (seconds : ℤ → ℤ) (now : Time) (id : String) (t : TokenRecord) (w w' : W)
      (went : TokenCalls.revoke_consumer_token seconds now operator.tokens id w ≡ (ok tt, w')) where
    revoked_store : h.store_of w' ≡ revoke_consumer_token id (h.store_of w)
    unfolding TokenCalls.revoke_consumer_token asked serve route handle_revoke_token
    revoked_store =
        let called = mapped-ok map_error (operator.tokens.revoke_consumer_token id w) went in
        let done =
          guarded-passed (h.env_of w).now (bearer operator_credential) _ (h.store_of w)
            (reply 204 empty none, h.store_of w') refl (operates.revoke_answered id w w' called) in
        sym (ap (λ a. a.1) done)

    module _ (known : lookup id (h.store_of w).consumer_tokens ≡ some t)
        (held : t.value ≡ cfg.consumer_token) (indexed : IsIndexed (h.store_of w)) where
      gone : (later : Time) → consumer_for_token later cfg.consumer_token (h.store_of w') ≡ rejected
      gone later =
          let s = h.store_of w in
          ap (consumer_for_token later cfg.consumer_token) revoked_store
          ∙ revoke_consumer_token-rejected id s t cfg.consumer_token later indexed known
          ∙ ap (λ b. if b then rejected else consumer_for_token later cfg.consumer_token s)
              (ap (λ v. cfg.consumer_token == v) held ∙ eq_refl cfg.consumer_token)

      -- Over a server whose token values and records match, and an SDK that forwards the calls of an operator and of
      -- a reader to it, after a revocation of a known token by the operator that goes well, and for as long as
      -- the server's consumer tokens are the ones that it left, whatever the time and whatever else
      -- changed, every get with that token's value fails, where the value is no write token: for every name and
      -- every choice of a variant, with the error that the consumer token is rejected.
      pub get-revoked :
          (u : W) (name variant_id consumer : String) (identities : List String)
          → HasTokensOf (h.store_of w') (h.store_of u)
          → has_write_token (h.env_of u).now (bearer cfg.consumer_token) (h.store_of u) ≡ false
          → (get build parse_identity decrypt read_all cfg name identities variant_id consumer u).0
            ≡ err (
                wrap "fetch object"
                  (wrap "consumer token rejected" (sentinel Errors.Sentinel.unauthorized)))
      get-revoked u name variant_id consumer identities same no_write =
          let now' = (h.env_of u).now in
          get-rejected h build cfg make builds reads parse_identity decrypt read_all no_token given
            u no_write
            (consumer_for_token-same now' cfg.consumer_token (h.store_of w') (h.store_of u) same
              ∙ gone now')
            name variant_id consumer identities
