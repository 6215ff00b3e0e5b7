-- ===== src/Server/Http/Objects.antt =====
-- The object, audit and status handlers of internal/testserver/testserver.go.
use hush_hush_cli.Prelude.{
  ℕ, String, Bool, true, false, not, ◌&&◌, ◌||◌, Option, none, some, List, [], ◌∷◌, if◌then◌else◌,
  length, is_some, Result, ok, err, ◌>>=◌, map_err,
}
use hush_hush_cli.Prelude.Text.{is_empty, member}
use hush_hush_cli.Server.Types.{Time, StoreError, already_exists, Store}
use hush_hush_cli.Server.Objects.{
  create_object, get_variant, update_variant, patch_variant, delete_variant, replaced,
}
use hush_hush_cli.Server.Audit.{query_audit_log}
use hush_hush_cli.Server.Requests.{
  text, bad_filter, Query, query_get, query_all, normalize_tags, normalize_optional_tags,
  page_items, parse_audit_log_filter, given,
}
use hush_hush_cli.Server.Listing.{ObjectMetadata, list_objects, metadata}
use hush_hush_cli.Server.Tokens.{Bearer, fault, rejected, bound, consumer_for_token}
use hush_hush_cli.Server.Http.Defs.{
  Env, CreateObjectRequest, PatchObjectRequest, UpdateObjectRequest, Response, reply, aborted,
  object, objects, bytes, used_by, entries, health, auth_status, identity, empty, write_json,
  write_error,
}
use hush_hush_cli.Server.Http.Flow.{
  Answer, answer, ◌>>◌, refuse_if, decoded, malformed, unauthorized, unknown_object, variant_error,
  bad_request, selected, has_write_token, bearer_value,
}

abbrev pub no_bytes : List ℕ → Bool
no_bytes [] = true
no_bytes (b ∷ bs) = false

abbrev pub conflict : StoreError → Response
conflict e = write_error 409 (text "object already exists")

-- The metadata of the create answer.
unfoldable pub created : (String → String) → CreateObjectRequest → List String → ObjectMetadata
created object_id req tags = record {
  id = object_id req.slug;
  slug = req.slug;
  used_by = req.used_by;
  description = req.description;
  tags = tags;
  created_at = none;
  created_by = none;
  updated_at = none;
  updated_by = none;
}

-- `handleCreateObject`
unfoldable pub handle_create_object :
    (String → String) → Env → Option CreateObjectRequest → Store → Answer
unfolding normalize_tags create_object created
handle_create_object object_id env body s = answer s (do
  req ← decoded malformed body
  refuse_if (is_empty req.slug || no_bytes req.value)
      (write_error 400 (text "slug and value are required"))
  tags ← map_err bad_request (normalize_tags req.tags)
  t ←
      map_err conflict
        (create_object object_id env.now req.slug req.value req.used_by req.description tags s)
  ok (write_json 201 (object (created object_id req tags)), t))

-- The consumer that a consumer token is bound to.
abbrev pub scope_of : Bearer → Result Response String
scope_of fault = err aborted
scope_of rejected = err unauthorized
scope_of (bound consumer) = ok consumer

-- The switch of `handleGetObject`: the consumer that a read is scoped to, empty for a write token.
unfoldable pub read_scope : Time → String → Store → Result Response String
unfolding has_write_token consumer_for_token bearer_value
read_scope now authorization s =
    if has_write_token now authorization s
    then ok ""
    else if is_empty (bearer_value authorization)
    then err unauthorized
    else scope_of (consumer_for_token now (bearer_value authorization) s)

-- `handleGetObject`
unfoldable pub handle_get_object : Env → String → String → Query → Store → Answer
unfolding read_scope selected get_variant member
handle_get_object env authorization id q s = answer s (do
  consumer ← read_scope env.now authorization s
  sel ← selected q
  obj ← map_err variant_error (get_variant id sel s)
  refuse_if (not (is_empty consumer) && not (member consumer obj.used_by)) unknown_object
  ok (write_json 200 (bytes obj.value), s))

-- `handleGetObjectUsedBy`
unfoldable pub handle_get_used_by : String → Query → Store → Answer
unfolding selected get_variant
handle_get_used_by id q s = answer s (do
  sel ← selected q
  obj ← map_err variant_error (get_variant id sel s)
  ok (write_json 200 (used_by obj.used_by), s))

-- `handleUpdateObject`
unfoldable pub handle_update_object :
    Env → String → Option UpdateObjectRequest → Query → Store → Answer
unfolding normalize_optional_tags selected update_variant metadata
handle_update_object env id body q s = answer s (do
  req ← decoded malformed body
  refuse_if (no_bytes req.value) (write_error 400 (text "value is required"))
  tags ← map_err bad_request (normalize_optional_tags req.tags)
  sel ← selected q
  (obj, t) ← map_err variant_error (update_variant env.now id sel req.value tags req.used_by s)
  ok (write_json 200 (object (metadata id obj)), t))

abbrev is_blank : Option String → Bool
is_blank none = false
is_blank (some s) = is_empty s

-- `patchObjectRequest.problem`: the text of the 400, empty when the request is fine.
unfoldable pub problem : PatchObjectRequest → String
problem r =
    if not (is_some r.description) && not (is_some r.slug) && not (is_some r.tags)
    then "at least one of description, slug or tags is required"
    else if is_blank r.slug
    then "slug must not be empty"
    else ""

abbrev pub patch_error : StoreError → Response
patch_error already_exists = write_error 409 (text "object already exists")
patch_error e = variant_error e

-- `handlePatchObject`
unfoldable pub handle_patch_object :
    Env → String → Option PatchObjectRequest → Query → Store → Answer
unfolding problem normalize_optional_tags selected patch_variant metadata
handle_patch_object env id body q s = answer s (do
  req ← decoded malformed body
  refuse_if (not (is_empty (problem req))) (write_error 400 (text (problem req)))
  tags ← map_err bad_request (normalize_optional_tags req.tags)
  sel ← selected q
  (obj, t) ← map_err patch_error (patch_variant env.now id sel req.description req.slug tags s)
  ok (write_json 200 (object (metadata (replaced req.slug id) obj)), t))

-- `handleListObjects`
unfoldable pub handle_list_objects : Query → Store → Answer
unfolding list_objects page_items query_get query_all
handle_list_objects q s =
    let items = list_objects (query_get "used_by" q) (query_all "tag" q) s in
    (reply 200 (objects (page_items q items)) (some (length items)), s)

-- `handleDeleteObject`
unfoldable pub handle_delete_object : String → Query → Store → Answer
unfolding selected delete_variant
handle_delete_object id q s = answer s (do
  sel ← selected q
  t ← map_err variant_error (delete_variant id sel s)
  ok (reply 204 empty none, t))

abbrev filter_error : StoreError → Response
filter_error e = write_error 400 bad_filter

-- `handleQueryAuditLog`
unfoldable pub handle_query_audit_log : (String → Option Time) → Query → Store → Answer
unfolding parse_audit_log_filter query_audit_log
handle_query_audit_log parse_time q s = answer s (do
  filter ← map_err bad_request (parse_audit_log_filter parse_time q)
  found ← map_err filter_error (query_audit_log filter s)
  ok (write_json 200 (entries found), s))

-- `handleHealth`, whose status is always "ok"
unfoldable pub handle_health : Store → Answer
handle_health s = (write_json 200 (health (given s.environment)), s)

-- `handleAuthStatus`
unfoldable pub handle_auth_status : Store → Answer
handle_auth_status s = (write_json 200 (auth_status s.bootstrapped), s)

-- `handleAuthIdentity`
unfoldable pub handle_auth_identity : Store → Answer
handle_auth_identity s = (write_json 200 (identity (given s.owner_public_key)), s)
