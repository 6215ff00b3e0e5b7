-- ===== src/Server/Http/Tokens.antt =====
-- The consumer tokens' handlers of internal/testserver/testserver.go.
use hush_hush_cli.Prelude.{String, Option, some, none, ◌||◌, length, ok, ◌>>=◌, map_err}
use hush_hush_cli.Prelude.Int.{ℤ, pos, ◌*ℤ◌, leb_ℤ, wrap}
use hush_hush_cli.Prelude.Text.{is_empty}
use hush_hush_cli.Server.Types.{StoreError, consumer_token_not_found, consumer_token_active, Store}
use hush_hush_cli.Server.Tokens.{
  issue_consumer_token, list_consumer_tokens, rotate_consumer_token, revoke_consumer_token,
  purge_consumer_token,
}
use hush_hush_cli.Server.Requests.{text, Query, page_items}
use hush_hush_cli.Server.Http.Defs.{
  Env, CreateConsumerTokenRequest, Response, reply, token, token_list, empty, write_json,
  write_error,
}
use hush_hush_cli.Server.Http.Flow.{Answer, answer, ◌>>◌, refuse_if, decoded}

-- `time.Duration(seconds)*time.Second`, in `int64` arithmetic.
unfoldable pub seconds : ℤ → ℤ
unfolding wrap ◌*ℤ◌
seconds n = wrap 64 (n *ℤ pos 1000000000)

abbrev ttl_required : Response
ttl_required = write_error 400 (text "consumer and a positive ttl_seconds are required")

abbrev rotate_ttl_required : Response
rotate_ttl_required = write_error 400 (text "a positive ttl_seconds is required")

-- `handleCreateConsumerToken`
unfoldable pub handle_create_token : Env → Option CreateConsumerTokenRequest → Store → Answer
unfolding issue_consumer_token seconds
handle_create_token env body s = answer s (do
  req ← decoded ttl_required body
  refuse_if (is_empty req.consumer || leb_ℤ req.ttl_seconds (pos 0)) ttl_required
  let issued =
      issue_consumer_token env.new_id env.suffix env.now req.consumer req.description
        (seconds req.ttl_seconds) s
  ok (write_json 201 (token issued.0), issued.1))

-- `handleListConsumerTokens`
unfoldable pub handle_list_tokens : Env → Query → Store → Answer
unfolding list_consumer_tokens page_items
handle_list_tokens env q s =
    let items = list_consumer_tokens env.now s in
    (reply 200 (token_list (page_items q items)) (some (length items)), s)

abbrev rotate_error : StoreError → Response
rotate_error e = write_error 404 (text "unknown, revoked, or expired consumer token")

-- `handleRotateConsumerToken`
unfoldable pub handle_rotate_token : Env → String → Option ℤ → Store → Answer
unfolding rotate_consumer_token seconds
handle_rotate_token env id body s = answer s (do
  ttl ← decoded rotate_ttl_required body
  refuse_if (leb_ℤ ttl (pos 0)) rotate_ttl_required
  (rotated, t) ← map_err rotate_error (rotate_consumer_token env.suffix env.now id (seconds ttl) s)
  ok (write_json 200 (token rotated), t))

-- `handleRevokeConsumerToken`
unfoldable pub handle_revoke_token : String → Store → Answer
unfolding revoke_consumer_token
handle_revoke_token id s = (reply 204 empty none, revoke_consumer_token id s)

abbrev pub purge_error : StoreError → Response
purge_error consumer_token_not_found = write_error 404 (text "unknown consumer token")
purge_error consumer_token_active = write_error 409 (text "consumer token is still active")
purge_error e = write_error 500 (text "internal error")

-- `handlePurgeConsumerToken`
unfoldable pub handle_purge_token : Env → String → Store → Answer
unfolding purge_consumer_token
handle_purge_token env id s =
    answer s
      (do t ← map_err purge_error (purge_consumer_token env.now id s); ok (reply 204 empty none, t))
