-- ===== src/Server/Http/Answers/Served.antt =====
-- Requests that are answered: no handler panics in a store that is reached, a listing of consumers with a start
-- included.
use hush_hush_cli.Prelude.{String, ◌≡◌, refl, Bool, true, Option}
use hush_hush_cli.Server.Types.{Time, Store}
use hush_hush_cli.Server.Tokens.Indexed.{IsIndexed}
use hush_hush_cli.Server.Http.Defs.{
  Env, Request, Endpoint, post_object, get_objects, get_object, put_object, patch_object,
  delete_object, get_used_by, get_audit_log, get_health, get_auth_status, get_auth_identity,
  get_consumers, post_consumer, patch_consumer, delete_consumer, post_token, get_tokens,
  rotate_token, purge_token, revoke_token,
}
use hush_hush_cli.Server.Http.Objects.{
  handle_list_objects, handle_health, handle_auth_status, handle_auth_identity,
}
use hush_hush_cli.Server.Http.Tokens.{handle_list_tokens, handle_revoke_token}
use hush_hush_cli.Server.Http.Mux.{route, serve}
use hush_hush_cli.Server.Requests.{Query, parse_consumer_filter}
use hush_hush_cli.Server.Http.Answers.{is_answer, guarded}
use hush_hush_cli.Server.Http.Answers.Listed.{startable, list_consumers_answers}
use hush_hush_cli.Server.Steps.{Reach}
use hush_hush_cli.Server.Steps.Reached.{Reach-IsValid}
use hush_hush_cli.Server.Http.Answers.Handlers.{
  create_answers, get_answers, used_by_answers, update_answers, patch_answers, delete_answers,
  audit_log_answers, add_consumer_answers, update_consumer_answers, delete_consumer_answers,
  create_token_answers, rotate_token_answers, purge_token_answers,
}

-- Whether a request does not list consumers from a page with no start.
abbrev pub is_startable_request : Endpoint → Query → Bool
is_startable_request get_consumers q = startable (parse_consumer_filter q)
is_startable_request _ q = true

module _ (object_id : String → String) (parse_time : String → Option Time) (env : Env)
    (req : Request) (s : Store) where
  route_answers :
      (e : Endpoint)
      → IsIndexed s
      → is_startable_request e req.query ≡ true
      → is_answer (route object_id parse_time env req e s).0 ≡ true
  unfolding route handle_list_objects handle_health handle_auth_status handle_auth_identity
      handle_list_tokens handle_revoke_token
  route_answers (post_object body) h c =
      guarded env.now req.authorization _ s (create_answers object_id env body s)
  route_answers get_objects h c = guarded env.now req.authorization _ s (refl)
  route_answers (get_object id) h c = get_answers env req.authorization id req.query s h
  route_answers (put_object id body) h c =
      guarded env.now req.authorization _ s (update_answers env id body req.query s)
  route_answers (patch_object id body) h c =
      guarded env.now req.authorization _ s (patch_answers env id body req.query s)
  route_answers (delete_object id) h c =
      guarded env.now req.authorization _ s (delete_answers id req.query s)
  route_answers (get_used_by id) h c = used_by_answers id req.query s
  route_answers get_audit_log h c = audit_log_answers parse_time req.query s
  route_answers get_health h c = refl
  route_answers get_auth_status h c = refl
  route_answers get_auth_identity h c = guarded env.now req.authorization _ s (refl)
  route_answers get_consumers h c =
      guarded env.now req.authorization _ s (list_consumers_answers req.query s c)
  route_answers (post_consumer body) h c =
      guarded env.now req.authorization _ s (add_consumer_answers body s)
  route_answers (patch_consumer name body) h c =
      guarded env.now req.authorization _ s (update_consumer_answers name body s)
  route_answers (delete_consumer name) h c =
      guarded env.now req.authorization _ s (delete_consumer_answers name s)
  route_answers (post_token body) h c =
      guarded env.now req.authorization _ s (create_token_answers env body s)
  route_answers get_tokens h c = guarded env.now req.authorization _ s (refl)
  route_answers (rotate_token id body) h c =
      guarded env.now req.authorization _ s (rotate_token_answers env id body s)
  route_answers (purge_token id) h c =
      guarded env.now req.authorization _ s (purge_token_answers env id s)
  route_answers (revoke_token id) h c = guarded env.now req.authorization _ s (refl)

  -- In every store that the server reaches, every request is answered but a listing of consumers whose page has
  -- no start (the page is below the first, the size is negative, or the start is no `int32`): whatever the
  -- credential, the path values, the query and the body are, the handler does not panic.
  pub serve_answers :
      Reach object_id parse_time s
      → is_startable_request req.endpoint req.query ≡ true
      → is_answer (serve object_id parse_time env req s).0 ≡ true
  unfolding serve
  serve_answers reached starts =
      route_answers req.endpoint (Reach-IsValid object_id parse_time s reached).1 starts
