-- ===== src/Session/Rotated.antt =====
-- A consumer token that an operator rotated through internal/client, and what its values are worth afterwards.
use hush_hush_cli.Prelude.{
  ℕ, String, ◌≡◌, ◌≢◌, refl, sym, ap, ◌∙◌, subst, true, false, none, some, List, Result, ok, err,
  ◌≤◌, Bool-cases, inl, inr,
}
use hush_hush_cli.Prelude.Int.{ℤ, pos, leb_ℤ}
use hush_hush_cli.Prelude.Map.{lookup}
use hush_hush_cli.Prelude.Text.{is_empty}
use hush_hush_cli.Server.Types.{Time, Store, TokenRecord}
use hush_hush_cli.Server.Tokens.{
  rotate_consumer_token, rotated, token_value, token_with_value, is_dead, bound, consumer_for_token,
  rejected, add_time,
}
use hush_hush_cli.Server.Tokens.Lifetime.{drawn-accepted, replaced-rejected, rotated_store}
use hush_hush_cli.Server.Http.Defs.{Env, Response, reply, token}
use hush_hush_cli.Server.Http.Flow.{Answer, has_write_token, refuse_if}
use hush_hush_cli.Server.Http.Tokens.{handle_rotate_token, seconds}
use hush_hush_cli.Server.Http.Mux.{serve, route}
use hush_hush_cli.Client.Errors
use hush_hush_cli.Client.Errors.{Err, wrap, map_token_id_error, sentinel}
use hush_hush_cli.Client.Op.{mapped-ok, >>=-ok, calling, done, reply-injective}
use hush_hush_cli.Client.TokenCalls
use hush_hush_cli.Client.Remote.{Remote, Builder}
use hush_hush_cli.Cli.Config.{Config, read_credential}
use hush_hush_cli.Cli.Read.{get}
use hush_hush_cli.Session.{Hosting, Forwards, asked, bearer}
use hush_hush_cli.Session.Rejected.{get-rejected, HasTokensOf, consumer_for_token-same}
use hush_hush_cli.Session.Success.{guarded-passed, is_success, passed, refuse_if-Fails}

-- What the server answers, and keeps, on a rotation of a known token that goes well.
handle_rotated :
    (env : Env) (id : String) (n : ℤ) (s : Store) (t : TokenRecord) (a : Answer)
    → lookup id s.consumer_tokens ≡ some t
    → is_success a.0 ≡ true
    → handle_rotate_token env id (some n) s ≡ a
    → (is_dead env.now t ≡ false)
      × (a ≡ (
        reply 200
            (token (token_with_value env.now (rotated env.suffix env.now (seconds n) t)))
            none,
        rotated_store env.suffix env.now id (seconds n) t s,
      ))
unfolding handle_rotate_token rotate_consumer_token rotated_store
handle_rotated env id n s t a known good went =
    let (_, _, rest) =
      passed s a (refuse_if (leb_ℤ n (pos 0)) _) _ good (refuse_if-Fails (leb_ℤ n (pos 0)) _ refl)
        went in
    elim (Bool-cases (is_dead env.now t)) [
      | inl dead ↦
          let refusal = rw (known, dead) at rest in
          let bad : false ≡ true = ap (λ (b : Answer). is_success b.0) refusal ∙ good in cc
      | inr live ↦ (live, sym (rw (known, live) at rest))
    ]

abbrev shown_value : Response → String
shown_value (reply status (token shown) total) = shown.value
shown_value r = ""

module _ {ℓ} {W : Type ℓ} (h : Hosting W) (operator_credential : String) (operator : Remote W)
    (operates : Forwards h operator_credential operator) (in_seconds : ℤ → ℤ) (now : Time)
    (id : String) (ttl : ℤ) (t : TokenRecord) (fresh : TokenCalls.ConsumerTokenWithValue) (w w' : W)
    (known : lookup id (h.store_of w).consumer_tokens ≡ some t)
    (went : TokenCalls.rotate_consumer_token in_seconds now operator.tokens id ttl w
      ≡ (ok fresh, w')) where
  -- The server's token and store after the call.
  rotation :
      (is_dead (h.env_of w).now t ≡ false)
      × (fresh.value ≡ token_value t.consumer (h.env_of w).suffix)
      × (h.store_of w'
          ≡ rotated_store
              (h.env_of w).suffix
              (h.env_of w).now
              id
              (seconds (in_seconds ttl))
              t
              (h.store_of w))
  unfolding TokenCalls.rotate_consumer_token asked serve route token_with_value rotated
      TokenCalls.to_consumer_token_with_value
  rotation =
      let call = operator.tokens.rotate_consumer_token id (in_seconds ttl) in
      let (sent, w1, called, last) =
        >>=-ok (calling map_token_id_error call)
          (λ m. done (TokenCalls.to_consumer_token_with_value now m)) w went in
      let (shown, answered, same) =
        operates.rotate_answered id (in_seconds ttl) sent w w1
          (mapped-ok map_token_id_error (call w) called) in
      let handled =
        guarded-passed (h.env_of w).now (bearer operator_credential) _ (h.store_of w)
          (reply 200 (token shown) none, h.store_of w1) refl answered in
      let (live, whole) =
        handle_rotated (h.env_of w) id (in_seconds ttl) (h.store_of w) t _ known refl handled in
      (
        live,
        ap (λ m. m.value) (sym (reply-injective last).0)
            ∙ same
            ∙ ap (λ (a : Answer). shown_value a.0) whole,
        ap h.store_of (sym (reply-injective last).1) ∙ ap (λ (a : Answer). a.1) whole,
      )

  module _ {κ μ} {I : Type κ} {Stream : Type μ} (build : Builder W) (cfg : Config)
      (make : String → Remote W) (builds : build cfg.server (read_credential cfg) ≡ ok make)
      (reads : Forwards h (read_credential cfg) (make cfg.caller))
      (parse_identity : String → Result Err I) (decrypt : List I → List ℕ → Result Err Stream)
      (read_all : Stream → Result Err (List ℕ)) (no_token : is_empty cfg.token ≡ true)
      (given : is_empty cfg.consumer_token ≡ false) (held : t.value ≡ cfg.consumer_token)
      (redrawn : fresh.value ≢ cfg.consumer_token) where
    -- Over an SDK that forwards the calls of an operator and of a reader to the server, a rotation of a known token
    -- by the operator that goes well returns a value. For as long as the server's consumer tokens are the ones
    -- that it left, whatever else changed, the server takes this value for the token's consumer at any time until the
    -- lifetime that it makes of the seconds sent has passed, and every get with the value before, where that is
    -- another one and no write token, fails, whatever the time: for every name and every choice of a variant,
    -- with the error that the consumer token is rejected.
    pub get-rotated :
        (u : W) (until : Time) (name variant_id consumer : String) (identities : List String)
        → HasTokensOf (h.store_of w') (h.store_of u)
        → has_write_token (h.env_of u).now (bearer cfg.consumer_token) (h.store_of u) ≡ false
        → until ≤ add_time (h.env_of w).now (seconds (in_seconds ttl))
        → (consumer_for_token until fresh.value (h.store_of u) ≡ bound t.consumer)
          × ((get build parse_identity decrypt read_all cfg name identities variant_id consumer u).0
              ≡ err (
                  wrap "fetch object"
                    (wrap "consumer token rejected" (sentinel Errors.Sentinel.unauthorized))))
    get-rotated u until name variant_id consumer identities same no_write within =
        let env = h.env_of w in
        let s = h.store_of w in
        let later = (h.env_of u).now in
        let lifetime = seconds (in_seconds ttl) in
        let (live, drawn, kept) = rotation in
        let another : t.value ≢ token_value t.consumer env.suffix =
          λ equal. redrawn (drawn ∙ sym equal ∙ held) in
        let worth : (time : Time) (value : String)
            → consumer_for_token time value (h.store_of u)
              ≡ consumer_for_token time value (rotated_store env.suffix env.now id lifetime t s) =
          λ time value.
            consumer_for_token-same time value (h.store_of w') (h.store_of u) same
            ∙ ap (consumer_for_token time value) kept in
        (
          subst (λ v. consumer_for_token until v (h.store_of u) ≡ bound t.consumer) (sym drawn)
              (worth until (token_value t.consumer env.suffix)
                ∙ drawn-accepted env.suffix env.now until id lifetime s t live within),
          get-rejected h build cfg make builds reads parse_identity decrypt read_all no_token given
              u no_write
              (subst (λ v. consumer_for_token later v (h.store_of u) ≡ rejected) held
                (worth later t.value
                  ∙ replaced-rejected env.suffix env.now later id lifetime s t another))
              name variant_id consumer identities,
        )
