-- ===== src/Examples/Tokens.antt =====
-- Consumer tokens of internal/testserver/testserver.go at a concrete store.
use mathlib.Core.Option
use hush_hush_cli.Prelude.{
  ◌≡◌, refl, true, not, ◌&&◌, ◌||◌, eqb, some, [], ◌∷◌, arith, ◌==◌, if◌then◌else◌, is_ok,
}
use hush_hush_cli.Prelude.Int.{pos}
use hush_hush_cli.Prelude.Map.{lookup}
use hush_hush_cli.Prelude.Text.{member}
use hush_hush_cli.Server.Tokens.{
  issue_consumer_token, rotate_consumer_token, revoke_consumer_token, purge_consumer_token,
  consumer_for_token, rejected, bound, token_metadata,
}
use hush_hush_cli.Server.Tokens.Lifetime.{
  issue_consumer_token-accepted, revoke_consumer_token-rejected, token_metadata-actions,
  shown_state, token_state-at_expiry,
}
use hush_hush_cli.Examples.Fixtures.{full, full-IsIndexed, app_token}

known : lookup "t1" full.consumer_tokens ≡ some app_token
unfolding lookup
known = refl

issue_consumer_token-accepted_example :
    (let (issued, t) = issue_consumer_token "t2" "y" 100 "web" "" (pos 50) full in
      consumer_for_token 150 issued.value t ≡ bound "web")
issue_consumer_token-accepted_example =
    issue_consumer_token-accepted "t2" "y" 100 150 "web" "" (pos 50) full (omega arith)

revoke_consumer_token-rejected_example :
    consumer_for_token 120 "consumer-app-x" (revoke_consumer_token "t1" full) ≡ (
      if "consumer-app-x" == app_token.value
      then rejected
      else consumer_for_token 120 "consumer-app-x" full)
revoke_consumer_token-rejected_example =
    revoke_consumer_token-rejected "t1" full app_token "consumer-app-x" 120 full-IsIndexed known

token_metadata-actions_example :
    (is_ok (purge_consumer_token 100 "t1" full)
      ≡ member "purge" (token_metadata 100 app_token).allowed_actions)
    × (is_ok (rotate_consumer_token "y" 100 "t1" (pos 50) full) ≡ (
        member "rotate" (token_metadata 100 app_token).allowed_actions
        || (not app_token.revoked && eqb 100 app_token.expires_at)))
    × (member "revoke" (token_metadata 100 app_token).allowed_actions
        ≡ member "rotate" (token_metadata 100 app_token).allowed_actions)
    × (Option.map (shown_state 120) (lookup "t1" (revoke_consumer_token "t1" full).consumer_tokens)
        ≡ some ("revoked", "purge" ∷ []))
token_metadata-actions_example =
    token_metadata-actions "y" 100 120 "t1" (pos 50) full app_token known

token_state-at_expiry_example :
    ((token_metadata 500 app_token).status ≡ "expired")
    × (is_ok (purge_consumer_token 500 "t1" full) ≡ true)
    × (consumer_for_token 500 "consumer-app-x" full ≡ bound "app")
    × (is_ok (rotate_consumer_token "y" 500 "t1" (pos 50) full) ≡ true)
token_state-at_expiry_example =
    token_state-at_expiry "y" "t1" (pos 50) full app_token full-IsIndexed known refl
