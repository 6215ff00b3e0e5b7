-- ===== src/Server/Http/Answers/Handlers.antt =====
-- Each handler of internal/testserver/testserver.go but the one that lists consumers ends with an answer.
use hush_hush_cli.Prelude.{
  String, ◌≡◌, ◌≢◌, refl, true, not, ◌||◌, ◌&&◌, Option, map_err, Bool-cases, inl, inr,
}
use hush_hush_cli.Prelude.Int.{ℤ, leb_ℤ, pos}
use hush_hush_cli.Prelude.Text.{is_empty, member}
use hush_hush_cli.Server.Types.{
  Time, Store, StoreError, already_exists, consumer_token_not_found, consumer_token_active,
}
use hush_hush_cli.Server.Objects.{
  create_object, get_variant, update_variant, patch_variant, delete_variant,
}
use hush_hush_cli.Server.Consumers
use hush_hush_cli.Server.Audit
use hush_hush_cli.Server.Requests.{
  Query, normalize_tags, normalize_optional_tags, parse_audit_log_filter,
}
use hush_hush_cli.Server.Tokens.{
  Bearer, fault, rejected, bound, consumer_for_token, rotate_consumer_token, purge_consumer_token,
}
use hush_hush_cli.Server.Tokens.Indexed.{IsIndexed, consumer_for_token-no_fault}
use hush_hush_cli.Server.Http.Defs.{
  Env, CreateObjectRequest, UpdateObjectRequest, PatchObjectRequest, UpdateConsumerRequest,
  CreateConsumerTokenRequest,
}
use hush_hush_cli.Server.Http.Flow.{has_write_token, bearer_value, decoded, selected}
use hush_hush_cli.Server.Http.Objects.{
  read_scope, scope_of, handle_create_object, handle_get_object, handle_get_used_by,
  handle_update_object, handle_patch_object, handle_delete_object, handle_query_audit_log,
  patch_error, no_bytes, problem,
}
use hush_hush_cli.Server.Http.Consumers.{
  handle_add_consumer, handle_update_consumer, handle_delete_consumer,
}
use hush_hush_cli.Server.Http.Tokens.{
  handle_create_token, handle_rotate_token, handle_purge_token, purge_error,
}
use hush_hush_cli.Server.Http.Answers.{
  is_answer, Returns, answered, then-Answers, refusing, decoding, mapping, selecting,
  variant_answer,
}

patch_answer : (e : StoreError) → is_answer (patch_error e) ≡ true
patch_answer already_exists = refl
patch_answer e = variant_answer e

purge_answer : (e : StoreError) → is_answer (purge_error e) ≡ true
purge_answer consumer_token_not_found = refl
purge_answer consumer_token_active = refl
purge_answer _ = refl

pub create_answers :
    (object_id : String → String) (env : Env) (body : Option CreateObjectRequest) (s : Store)
    → is_answer (handle_create_object object_id env body s).0 ≡ true
unfolding handle_create_object
create_answers object_id env body s = answered s _ (
    then-Answers (decoded _ body) _ (decoding _ body refl) λ req.
      refusing (is_empty req.slug || no_bytes req.value) _ _ refl (
        then-Answers (map_err _ (normalize_tags req.tags)) _ (mapping _ _ λ e. refl) λ tags.
          then-Answers
            (map_err _ (
              create_object object_id env.now req.slug req.value req.used_by req.description tags
                s))
            _ (mapping _ _ λ e. refl) λ t. refl))

-- The part of the answer that a bearer decides: nothing but a fault aborts.
bearer-Returns : (b : Bearer) → b ≢ fault → Returns (scope_of b)
bearer-Returns fault h = absurd (h refl)
bearer-Returns rejected h = refl
bearer-Returns (bound consumer) h = tt

read_scope-Returns :
    (now : Time) (authorization : String) (s : Store)
    → IsIndexed s
    → Returns (read_scope now authorization s)
unfolding read_scope
read_scope-Returns now authorization s h = elim (Bool-cases (has_write_token now authorization s)) [
  | inl held ↦ rw held tt
  | inr other ↦ elim (Bool-cases (is_empty (bearer_value authorization))) [
    | inl nothing ↦ rw (other, nothing) refl
    | inr given ↦
        rw (other, given)
          (bearer-Returns (consumer_for_token now (bearer_value authorization) s)
            (consumer_for_token-no_fault now (bearer_value authorization) s h))
  ]
]

pub get_answers :
    (env : Env) (authorization id : String) (q : Query) (s : Store)
    → IsIndexed s
    → is_answer (handle_get_object env authorization id q s).0 ≡ true
unfolding handle_get_object
get_answers env authorization id q s h = answered s _ (
    then-Answers (read_scope env.now authorization s) _
      (read_scope-Returns env.now authorization s h)
      λ consumer. then-Answers (selected q) _ (selecting q) λ sel.
        then-Answers (map_err _ (get_variant id sel s)) _ (mapping _ _ variant_answer) λ obj.
          refusing (not (is_empty consumer) && not (member consumer obj.used_by)) _ _ refl refl)

pub used_by_answers :
    (id : String) (q : Query) (s : Store) → is_answer (handle_get_used_by id q s).0 ≡ true
unfolding handle_get_used_by
used_by_answers id q s = answered s _ (
    then-Answers (selected q) _ (selecting q) λ sel.
      then-Answers (map_err _ (get_variant id sel s)) _ (mapping _ _ variant_answer) λ obj. refl)

pub update_answers :
    (env : Env) (id : String) (body : Option UpdateObjectRequest) (q : Query) (s : Store)
    → is_answer (handle_update_object env id body q s).0 ≡ true
unfolding handle_update_object
update_answers env id body q s = answered s _ (
    then-Answers (decoded _ body) _ (decoding _ body refl) λ req.
      refusing (no_bytes req.value) _ _ refl (
        then-Answers (map_err _ (normalize_optional_tags req.tags)) _ (mapping _ _ λ e. refl)
          λ tags. then-Answers (selected q) _ (selecting q) λ sel.
            then-Answers (map_err _ (update_variant env.now id sel req.value tags req.used_by s)) _
              (mapping _ _ variant_answer) λ (obj, t). refl))

pub patch_answers :
    (env : Env) (id : String) (body : Option PatchObjectRequest) (q : Query) (s : Store)
    → is_answer (handle_patch_object env id body q s).0 ≡ true
unfolding handle_patch_object
patch_answers env id body q s = answered s _ (
    then-Answers (decoded _ body) _ (decoding _ body refl) λ req.
      refusing (not (is_empty (problem req))) _ _ refl (
        then-Answers (map_err _ (normalize_optional_tags req.tags)) _ (mapping _ _ λ e. refl)
          λ tags. then-Answers (selected q) _ (selecting q) λ sel.
            then-Answers (map_err _ (patch_variant env.now id sel req.description req.slug tags s))
              _ (mapping _ _ patch_answer) λ (obj, t). refl))

pub delete_answers :
    (id : String) (q : Query) (s : Store) → is_answer (handle_delete_object id q s).0 ≡ true
unfolding handle_delete_object
delete_answers id q s = answered s _ (
    then-Answers (selected q) _ (selecting q) λ sel.
      then-Answers (map_err _ (delete_variant id sel s)) _ (mapping _ _ variant_answer) λ t. refl)

pub audit_log_answers :
    (parse_time : String → Option Time) (q : Query) (s : Store)
    → is_answer (handle_query_audit_log parse_time q s).0 ≡ true
unfolding handle_query_audit_log
audit_log_answers parse_time q s = answered s _ (
    then-Answers (map_err _ (parse_audit_log_filter parse_time q)) _ (mapping _ _ λ e. refl)
      λ filter.
        then-Answers (map_err _ (Audit.query_audit_log filter s)) _ (mapping _ _ λ e. refl)
          λ found. refl)

pub add_consumer_answers :
    (body : Option String) (s : Store) → is_answer (handle_add_consumer body s).0 ≡ true
unfolding handle_add_consumer
add_consumer_answers body s = answered s _ (
    then-Answers (decoded _ body) _ (decoding _ body refl) λ name.
      refusing (is_empty name) _ _ refl (
        then-Answers (map_err _ (Consumers.add_consumer name s)) _ (mapping _ _ λ e. refl)
          λ t. refl))

pub update_consumer_answers :
    (name : String) (body : Option UpdateConsumerRequest) (s : Store)
    → is_answer (handle_update_consumer name body s).0 ≡ true
unfolding handle_update_consumer
update_consumer_answers name body s = answered s _ (
    then-Answers (decoded _ body) _ (decoding _ body refl) λ req.
      then-Answers (map_err _ (Consumers.update_consumer name req.name req.public_key s)) _
        (mapping _ _ λ e. refl) λ (entry, t). refl)

pub delete_consumer_answers :
    (name : String) (s : Store) → is_answer (handle_delete_consumer name s).0 ≡ true
unfolding handle_delete_consumer
delete_consumer_answers name s = answered s _ (
    then-Answers (map_err _ (Consumers.delete_consumer name s)) _ (mapping _ _ λ e. refl) λ t. refl)

pub create_token_answers :
    (env : Env) (body : Option CreateConsumerTokenRequest) (s : Store)
    → is_answer (handle_create_token env body s).0 ≡ true
unfolding handle_create_token
create_token_answers env body s = answered s _ (
    then-Answers (decoded _ body) _ (decoding _ body refl)
      λ req. refusing (is_empty req.consumer || leb_ℤ req.ttl_seconds (pos 0)) _ _ refl refl)

pub rotate_token_answers :
    (env : Env) (id : String) (body : Option ℤ) (s : Store)
    → is_answer (handle_rotate_token env id body s).0 ≡ true
unfolding handle_rotate_token
rotate_token_answers env id body s = answered s _ (
    then-Answers (decoded _ body) _ (decoding _ body refl) λ ttl.
      refusing (leb_ℤ ttl (pos 0)) _ _ refl (
        then-Answers (map_err _ (rotate_consumer_token env.suffix env.now id _ s)) _
          (mapping _ _ λ e. refl) λ (r, t). refl))

pub purge_token_answers :
    (env : Env) (id : String) (s : Store) → is_answer (handle_purge_token env id s).0 ≡ true
unfolding handle_purge_token
purge_token_answers env id s = answered s _ (
    then-Answers (map_err _ (purge_consumer_token env.now id s)) _ (mapping _ _ purge_answer)
      λ t. refl)
