-- ===== src/Server/Http/Preserves.antt =====
-- Each request that `newMux` of internal/testserver/testserver.go serves keeps the store's invariant.
pub mod Handlers
use hush_hush_cli.Prelude.{
  String, ◌≡◌, Bool, true, false, not, ◌||◌, Option, none, Result, ok, err, OnOk, OnOk-bind,
  OnOk-step, Bool-cases, inl, inr, map_err, subst, sym, refl,
}
use hush_hush_cli.Prelude.Int.{ℤ, leb_ℤ, pos}
use hush_hush_cli.Prelude.Map.{lookup}
use hush_hush_cli.Prelude.Text.{is_empty}
use hush_hush_cli.Server.Types.{Time, Store}
use hush_hush_cli.Server.Objects.{create_object, update_variant, patch_variant, delete_variant}
use hush_hush_cli.Server.Consumers
use hush_hush_cli.Server.Requests.{
  Query, normalize_tags, normalize_optional_tags, parse_consumer_filter,
}
use hush_hush_cli.Server.Tokens.{token_value, rotate_consumer_token, purge_consumer_token}
use hush_hush_cli.Server.Invariant.{
  IsValid, add_consumer-IsValid, update_consumer-IsValid, delete_consumer-IsValid,
  issue_consumer_token-IsValid, rotate_consumer_token-IsValid, revoke_consumer_token-IsValid,
  purge_consumer_token-IsValid,
}
use hush_hush_cli.Server.Invariant.Objects.{
  create_object-IsValid, update_variant-IsValid, patch_variant-IsValid, delete_variant-IsValid,
}
use hush_hush_cli.Server.Http.Defs.{
  Env, Request, Endpoint, Response, post_object, get_objects, get_object, put_object, patch_object,
  get_used_by, get_audit_log, get_health, get_auth_status, get_auth_identity, get_consumers,
  post_consumer, patch_consumer, delete_consumer, post_token, get_tokens, rotate_token, purge_token,
  revoke_token, CreateObjectRequest, UpdateObjectRequest, PatchObjectRequest, UpdateConsumerRequest,
  CreateConsumerTokenRequest,
}
use hush_hush_cli.Server.Http.Flow.{
  Answer, answer, require_write_token, has_write_token, decoded, refuse_if, ◌>>◌, selected,
}
use hush_hush_cli.Server.Http.Objects.{
  handle_create_object, handle_update_object, handle_patch_object, handle_list_objects,
  handle_delete_object, handle_auth_identity, no_bytes, problem,
}
use hush_hush_cli.Server.Http.Consumers.{
  handle_list_consumers, handle_add_consumer, handle_update_consumer, handle_delete_consumer,
}
use hush_hush_cli.Server.Http.Tokens.{
  handle_create_token, handle_list_tokens, handle_rotate_token, handle_revoke_token,
  handle_purge_token,
}
use hush_hush_cli.Server.Http.Access.{open-keeps}
use hush_hush_cli.Server.Http.Mux.{route, serve}
use hush_hush_cli.Server.Http.Preserves.Handlers.{
  list_consumers-IsValid, IsFresh, guarded-IsValid, create-IsValid, update-IsValid, patch-IsValid,
  delete-IsValid, handle_add_consumer-IsValid, handle_update_consumer-IsValid,
  handle_delete_consumer-IsValid, handle_create_token-IsValid, handle_rotate_token-IsValid,
  handle_purge_token-IsValid,
}

module _ (object_id : String → String) (parse_time : String → Option Time) (env : Env)
    (req : Request) (s : Store) (fresh : IsFresh env s) (h : IsValid s) where
  route-IsValid : (e : Endpoint) → IsValid (route object_id parse_time env req e s).1
  unfolding route handle_list_objects handle_auth_identity handle_list_tokens handle_revoke_token
  route-IsValid (post_object body) =
      guarded-IsValid env.now req.authorization _ s h (create-IsValid object_id env body s h)
  route-IsValid get_objects = guarded-IsValid env.now req.authorization _ s h h
  route-IsValid (put_object id body) =
      guarded-IsValid env.now req.authorization _ s h (update-IsValid env id body req.query s h)
  route-IsValid (patch_object id body) =
      guarded-IsValid env.now req.authorization _ s h (patch-IsValid env id body req.query s h)
  route-IsValid (Endpoint.delete_object id) =
      guarded-IsValid env.now req.authorization _ s h (delete-IsValid id req.query s h)
  route-IsValid get_auth_identity = guarded-IsValid env.now req.authorization _ s h h
  route-IsValid get_consumers =
      guarded-IsValid env.now req.authorization _ s h (list_consumers-IsValid req.query s h)
  route-IsValid (post_consumer body) =
      guarded-IsValid env.now req.authorization _ s h (handle_add_consumer-IsValid body s h)
  route-IsValid (patch_consumer name body) =
      guarded-IsValid env.now req.authorization _ s h (handle_update_consumer-IsValid name body s h)
  route-IsValid (delete_consumer name) =
      guarded-IsValid env.now req.authorization _ s h (handle_delete_consumer-IsValid name s h)
  route-IsValid (post_token body) =
      guarded-IsValid env.now req.authorization _ s h
        (handle_create_token-IsValid env body s fresh h)
  route-IsValid get_tokens = guarded-IsValid env.now req.authorization _ s h h
  route-IsValid (rotate_token id body) =
      guarded-IsValid env.now req.authorization _ s h
        (handle_rotate_token-IsValid env id body s fresh h)
  route-IsValid (purge_token id) =
      guarded-IsValid env.now req.authorization _ s h (handle_purge_token-IsValid env id s h)
  route-IsValid (revoke_token id) =
      guarded-IsValid env.now req.authorization _ s h (revoke_consumer_token-IsValid id s h)
  route-IsValid (get_object id) =
      subst IsValid (sym (open-keeps object_id parse_time env req s (get_object id) refl)) h
  route-IsValid (get_used_by id) =
      subst IsValid (sym (open-keeps object_id parse_time env req s (get_used_by id) refl)) h
  route-IsValid get_audit_log =
      subst IsValid (sym (open-keeps object_id parse_time env req s get_audit_log refl)) h
  route-IsValid get_health =
      subst IsValid (sym (open-keeps object_id parse_time env req s get_health refl)) h
  route-IsValid get_auth_status =
      subst IsValid (sym (open-keeps object_id parse_time env req s get_auth_status refl)) h

  -- Every request keeps a valid store valid, whatever its pattern, its body and its answer, when the id
  -- and the random suffix that it draws are not in use: further variants stand under names that have
  -- an object, token values and records match, and the audit log's ids grow.
  pub serve-IsValid : IsValid (serve object_id parse_time env req s).1
  unfolding serve
  serve-IsValid = route-IsValid req.endpoint
