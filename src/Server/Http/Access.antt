-- ===== src/Server/Http/Access.antt =====
-- Who may read and write through the handlers of internal/testserver/testserver.go.
use hush_hush_cli.Prelude.{
  String, ◌≡◌, refl, ap, inl, inr, Bool, true, false, Option, Result, ok, err, OnOk, OnOk-bind,
  arith, Bool-cases, map_err,
}
use hush_hush_cli.Server.Types.{Time, Store}
use hush_hush_cli.Server.Objects.{get_variant}
use hush_hush_cli.Server.Requests.{Query, parse_audit_log_filter}
use hush_hush_cli.Server.Audit.{query_audit_log}
use hush_hush_cli.Server.Http.Defs.{
  Env, Request, Endpoint, Response, get_object, get_used_by, get_audit_log, get_health,
  get_auth_status,
}
use hush_hush_cli.Server.Http.Flow.{
  Answer, answer, has_write_token, require_write_token, unauthorized, selected,
}
use hush_hush_cli.Server.Http.Objects.{
  handle_get_object, handle_get_used_by, handle_query_audit_log, handle_health, handle_auth_status,
  read_scope,
}
use hush_hush_cli.Server.Http.Mux.{route, serve}

-- The patterns that `newMux` does not wrap in `requireWriteToken`.
abbrev pub is_open : Endpoint → Bool
is_open (get_object id) = true
is_open (get_used_by id) = true
is_open get_audit_log = true
is_open get_health = true
is_open get_auth_status = true
is_open _ = false

pub answer-keeps :
    (s : Store) (r : Result Response Answer) → OnOk (λ a. a.1 ≡ s) r → (answer s r).1 ≡ s
answer-keeps s (ok a) h = h
answer-keeps s (err e) h = refl

get_object-keeps :
    (env : Env) (authorization id : String) (q : Query) (s : Store)
    → (handle_get_object env authorization id q s).1 ≡ s
unfolding handle_get_object
get_object-keeps env authorization id q s = answer-keeps s _ (
    OnOk-bind _ (read_scope env.now authorization s) _ λ consumer _.
      OnOk-bind _ (selected q) _
        λ sel _. OnOk-bind _ (map_err _ (get_variant id sel s)) _ λ obj _. ground arith)

used_by-keeps : (id : String) (q : Query) (s : Store) → (handle_get_used_by id q s).1 ≡ s
unfolding handle_get_used_by
used_by-keeps id q s = answer-keeps s _ (
    OnOk-bind _ (selected q) _
      λ sel _. OnOk-bind _ (map_err _ (get_variant id sel s)) _ λ obj _. refl)

audit_log-keeps :
    (parse_time : String → Option Time) (q : Query) (s : Store)
    → (handle_query_audit_log parse_time q s).1 ≡ s
unfolding handle_query_audit_log
audit_log-keeps parse_time q s = answer-keeps s _ (
    OnOk-bind _ (map_err _ (parse_audit_log_filter parse_time q)) _
      λ filter _. OnOk-bind _ (map_err _ (query_audit_log filter s)) _ λ found _. refl)

guarded-unauthorized :
    (now : Time) (authorization : String) (next : Store → Answer) (s : Store)
    → has_write_token now authorization s ≡ false
    → require_write_token now authorization next s ≡ (unauthorized, s)
unfolding require_write_token
guarded-unauthorized now authorization next s h = rw h

module _ (object_id : String → String) (parse_time : String → Option Time) where
  -- A request to a pattern behind `requireWriteToken`, with no valid write token, gets a 401 and
  -- leaves the store as it was, whatever else it carries.
  pub serve-unauthorized :
      (env : Env) (req : Request) (s : Store)
      → is_open req.endpoint ≡ false
      → has_write_token env.now req.authorization s ≡ false
      → serve object_id parse_time env req s ≡ (unauthorized, s)
  unfolding serve
  serve-unauthorized env req s shut h = go req.endpoint shut
    where
      go :
          (e : Endpoint)
          → is_open e ≡ false
          → route object_id parse_time env req e s ≡ (unauthorized, s)
      go (get_object id) c = cc
      go (get_used_by id) c = cc
      go get_audit_log c = cc
      go get_health c = cc
      go get_auth_status c = cc
      go _ c = guarded-unauthorized env.now req.authorization _ s h

  pub open-keeps :
      (env : Env) (req : Request) (s : Store) (e : Endpoint)
      → is_open e ≡ true
      → (route object_id parse_time env req e s).1 ≡ s
  unfolding route handle_health handle_auth_status
  open-keeps env req s (get_object id) h = get_object-keeps env req.authorization id req.query s
  open-keeps env req s (get_used_by id) h = used_by-keeps id req.query s
  open-keeps env req s get_audit_log h = audit_log-keeps parse_time req.query s
  open-keeps env req s get_health h = refl
  open-keeps env req s get_auth_status h = refl
  open-keeps env req s _ h = cc

  -- No request without a valid write token changes the store, whatever its pattern and its answer.
  pub serve-keeps :
      (env : Env) (req : Request) (s : Store)
      → has_write_token env.now req.authorization s ≡ false
      → (serve object_id parse_time env req s).1 ≡ s
  unfolding serve
  serve-keeps env req s h = elim (Bool-cases (is_open req.endpoint)) [
    | inl o ↦ open-keeps env req s req.endpoint o
    | inr g ↦ ap (λ a. a.1) (serve-unauthorized env req s g h)
  ]
