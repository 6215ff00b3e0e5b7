-- ===== src/Server/Http/Mux.antt =====
-- `newMux` of internal/testserver/testserver.go: which handler serves a pattern, and behind which check.
use hush_hush_cli.Prelude.{String, Option}
use hush_hush_cli.Server.Types.{Time, Store}
use hush_hush_cli.Server.Http.Defs.{
  Request, Env, Endpoint, post_object, get_objects, get_object, put_object, patch_object,
  delete_object, get_used_by, get_audit_log, get_health, get_auth_status, get_auth_identity,
  get_consumers, post_consumer, patch_consumer, delete_consumer, post_token, get_tokens,
  rotate_token, purge_token, revoke_token,
}
use hush_hush_cli.Server.Http.Flow.{Answer, require_write_token}
use hush_hush_cli.Server.Http.Objects.{
  handle_create_object, handle_get_object, handle_get_used_by, handle_update_object,
  handle_patch_object, handle_list_objects, handle_delete_object, handle_query_audit_log,
  handle_health, handle_auth_status, handle_auth_identity,
}
use hush_hush_cli.Server.Http.Consumers.{
  handle_list_consumers, handle_add_consumer, handle_update_consumer, handle_delete_consumer,
}
use hush_hush_cli.Server.Http.Tokens.{
  handle_create_token, handle_list_tokens, handle_rotate_token, handle_revoke_token,
  handle_purge_token,
}

module _ (object_id : String → String) (parse_time : String → Option Time) where
  -- The handler of a pattern.
  unfoldable pub route : Env → Request → Endpoint → Store → Answer
  route env req (post_object body) =
      require_write_token env.now req.authorization (handle_create_object object_id env body)
  route env req get_objects =
      require_write_token env.now req.authorization (handle_list_objects req.query)
  route env req (get_object id) = handle_get_object env req.authorization id req.query
  route env req (put_object id body) =
      require_write_token env.now req.authorization (handle_update_object env id body req.query)
  route env req (patch_object id body) =
      require_write_token env.now req.authorization (handle_patch_object env id body req.query)
  route env req (delete_object id) =
      require_write_token env.now req.authorization (handle_delete_object id req.query)
  route env req (get_used_by id) = handle_get_used_by id req.query
  route env req get_audit_log = handle_query_audit_log parse_time req.query
  route env req get_health = handle_health
  route env req get_auth_status = handle_auth_status
  route env req get_auth_identity =
      require_write_token env.now req.authorization handle_auth_identity
  route env req get_consumers =
      require_write_token env.now req.authorization (handle_list_consumers req.query)
  route env req (post_consumer body) =
      require_write_token env.now req.authorization (handle_add_consumer body)
  route env req (patch_consumer name body) =
      require_write_token env.now req.authorization (handle_update_consumer name body)
  route env req (delete_consumer name) =
      require_write_token env.now req.authorization (handle_delete_consumer name)
  route env req (post_token body) =
      require_write_token env.now req.authorization (handle_create_token env body)
  route env req get_tokens =
      require_write_token env.now req.authorization (handle_list_tokens env req.query)
  route env req (rotate_token id body) =
      require_write_token env.now req.authorization (handle_rotate_token env id body)
  route env req (purge_token id) =
      require_write_token env.now req.authorization (handle_purge_token env id)
  route env req (revoke_token id) =
      require_write_token env.now req.authorization (handle_revoke_token id)

  -- `newMux`
  unfoldable pub serve : Env → Request → Store → Answer
  unfolding route
  serve env req s = route env req req.endpoint s
