-- ===== src/Server/Http/Preserves/Handlers.antt =====
-- Each handler of internal/testserver/testserver.go keeps the invariant of the store.
use hush_hush_cli.Prelude.{
  String, ◌≡◌, Bool, true, false, not, ◌||◌, Option, none, Result, ok, err, OnOk, OnOk-bind,
  OnOk-step, Bool-cases, inl, inr, map_err,
}
use hush_hush_cli.Prelude.Int.{ℤ, leb_ℤ, pos}
use hush_hush_cli.Prelude.Map.{lookup}
use hush_hush_cli.Prelude.Text.{is_empty}
use hush_hush_cli.Server.Types.{Time, Store}
use hush_hush_cli.Server.Objects.{create_object, update_variant, patch_variant, delete_variant}
use hush_hush_cli.Server.Consumers
use hush_hush_cli.Server.Requests.{
  Query, normalize_tags, normalize_optional_tags, parse_consumer_filter,
}
use hush_hush_cli.Server.Tokens.{token_value, rotate_consumer_token, purge_consumer_token}
use hush_hush_cli.Server.Invariant.{
  IsValid, add_consumer-IsValid, update_consumer-IsValid, delete_consumer-IsValid,
  issue_consumer_token-IsValid, rotate_consumer_token-IsValid, purge_consumer_token-IsValid,
}
use hush_hush_cli.Server.Invariant.Objects.{
  create_object-IsValid, update_variant-IsValid, patch_variant-IsValid, delete_variant-IsValid,
}
use hush_hush_cli.Server.Http.Defs.{
  Env, Response, CreateObjectRequest, UpdateObjectRequest, PatchObjectRequest,
  UpdateConsumerRequest, CreateConsumerTokenRequest,
}
use hush_hush_cli.Server.Http.Flow.{
  Answer, answer, require_write_token, has_write_token, decoded, refuse_if, ◌>>◌, selected,
}
use hush_hush_cli.Server.Http.Objects.{
  handle_create_object, handle_update_object, handle_patch_object, handle_delete_object, no_bytes,
  problem,
}
use hush_hush_cli.Server.Http.Consumers.{
  handle_list_consumers, handle_add_consumer, handle_update_consumer, handle_delete_consumer,
}
use hush_hush_cli.Server.Http.Tokens.{handle_create_token, handle_rotate_token, handle_purge_token}

answer-IsValid :
    (s : Store) (r : Result Response Answer)
    → IsValid s
    → OnOk (λ a. IsValid a.1) r
    → IsValid (answer s r).1
answer-IsValid s (ok a) h k = k
answer-IsValid s (err e) h k = h

OnOk-refuse {ℓ κ} :
    {A : Type ℓ} (P : A → Type κ) (b : Bool) (r : Response) (m : Result Response A)
    → OnOk P m
    → OnOk P (refuse_if b r >> m)
OnOk-refuse P true r m h = tt
OnOk-refuse P false r m h = h

pub guarded-IsValid :
    (now : Time) (authorization : String) (next : Store → Answer) (s : Store)
    → IsValid s
    → IsValid (next s).1
    → IsValid (require_write_token now authorization next s).1
unfolding require_write_token
guarded-IsValid now authorization next s h k =
    elim (Bool-cases (has_write_token now authorization s)) [
      | inl held ↦ rw held k
      | inr refused ↦ rw refused h
    ]

-- The random suffix and the id that a request draws are not in use.
pub record IsFresh (env : Env) (s : Store) : Type 0 where
  pub fresh_id : lookup env.new_id s.consumer_tokens ≡ none
  pub fresh_value :
      (consumer : String) → lookup (token_value consumer env.suffix) s.consumer_token_values ≡ none

pub create-IsValid :
    (object_id : String → String) (env : Env) (body : Option CreateObjectRequest) (s : Store)
    → IsValid s
    → IsValid (handle_create_object object_id env body s).1
unfolding handle_create_object
create-IsValid object_id env body s h = answer-IsValid s _ h (
    OnOk-bind _ (decoded _ body) _ λ req _.
      OnOk-refuse _ (is_empty req.slug || no_bytes req.value) _ _ (
        OnOk-bind _ (map_err _ (normalize_tags req.tags)) _ λ tags _.
          OnOk-step IsValid _ _
            (create_object object_id env.now req.slug req.value req.used_by req.description tags s)
            _
            (create_object-IsValid object_id env.now req.slug req.value req.used_by req.description
              tags s h)
            λ t k. k))

pub update-IsValid :
    (env : Env) (id : String) (body : Option UpdateObjectRequest) (q : Query) (s : Store)
    → IsValid s
    → IsValid (handle_update_object env id body q s).1
unfolding handle_update_object
update-IsValid env id body q s h = answer-IsValid s _ h (
    OnOk-bind _ (decoded _ body) _ λ req _. OnOk-refuse _ (no_bytes req.value) _ _ (
      OnOk-bind _ (map_err _ (normalize_optional_tags req.tags)) _ λ tags _.
        OnOk-bind _ (selected q) _ λ sel _.
          OnOk-step (λ r. IsValid r.1) _ _
            (update_variant env.now id sel req.value tags req.used_by s) _
            (update_variant-IsValid env.now id sel req.value tags req.used_by s h) λ (obj, t) k. k))

pub patch-IsValid :
    (env : Env) (id : String) (body : Option PatchObjectRequest) (q : Query) (s : Store)
    → IsValid s
    → IsValid (handle_patch_object env id body q s).1
unfolding handle_patch_object
patch-IsValid env id body q s h = answer-IsValid s _ h (
    OnOk-bind _ (decoded _ body) _ λ req _. OnOk-refuse _ (not (is_empty (problem req))) _ _ (
      OnOk-bind _ (map_err _ (normalize_optional_tags req.tags)) _ λ tags _.
        OnOk-bind _ (selected q) _ λ sel _.
          OnOk-step (λ r. IsValid r.1) _ _
            (patch_variant env.now id sel req.description req.slug tags s) _
            (patch_variant-IsValid env.now id sel req.description req.slug tags s h)
            λ (obj, t) k. k))

pub delete-IsValid :
    (id : String) (q : Query) (s : Store) → IsValid s → IsValid (handle_delete_object id q s).1
unfolding handle_delete_object
delete-IsValid id q s h = answer-IsValid s _ h (
    OnOk-bind _ (selected q) _ λ sel _.
      OnOk-step IsValid _ _ (delete_variant id sel s) _ (delete_variant-IsValid id sel s h)
        λ t k. k)

pub list_consumers-IsValid :
    (q : Query) (s : Store) → IsValid s → IsValid (handle_list_consumers q s).1
unfolding handle_list_consumers
list_consumers-IsValid q s h =
    answer-IsValid s _ h (OnOk-bind _ (map_err _ (parse_consumer_filter q)) _ λ filter _. h)

pub handle_add_consumer-IsValid :
    (body : Option String) (s : Store) → IsValid s → IsValid (handle_add_consumer body s).1
unfolding handle_add_consumer
handle_add_consumer-IsValid body s h = answer-IsValid s _ h (
    OnOk-bind _ (decoded _ body) _ λ name _. OnOk-refuse _ (is_empty name) _ _ (
      OnOk-step IsValid _ _ (Consumers.add_consumer name s) _ (add_consumer-IsValid name s h)
        λ t k. k))

pub handle_update_consumer-IsValid :
    (name : String) (body : Option UpdateConsumerRequest) (s : Store)
    → IsValid s
    → IsValid (handle_update_consumer name body s).1
unfolding handle_update_consumer
handle_update_consumer-IsValid name body s h = answer-IsValid s _ h (
    OnOk-bind _ (decoded _ body) _ λ req _.
      OnOk-step (λ r. IsValid r.1) _ _ (Consumers.update_consumer name req.name req.public_key s) _
        (update_consumer-IsValid name req.name req.public_key s h) λ (entry, t) k. k)

pub handle_delete_consumer-IsValid :
    (name : String) (s : Store) → IsValid s → IsValid (handle_delete_consumer name s).1
unfolding handle_delete_consumer
handle_delete_consumer-IsValid name s h = answer-IsValid s _ h (
    OnOk-step IsValid _ _ (Consumers.delete_consumer name s) _ (delete_consumer-IsValid name s h)
      λ t k. k)

pub handle_create_token-IsValid :
    (env : Env) (body : Option CreateConsumerTokenRequest) (s : Store)
    → IsFresh env s
    → IsValid s
    → IsValid (handle_create_token env body s).1
unfolding handle_create_token
handle_create_token-IsValid env body s fresh h = answer-IsValid s _ h (
    OnOk-bind _ (decoded _ body) _ λ req _.
      OnOk-refuse _ (is_empty req.consumer || leb_ℤ req.ttl_seconds (pos 0)) _ _ (
        issue_consumer_token-IsValid env.new_id env.suffix env.now req.consumer req.description _ s
          h fresh.fresh_id (fresh.fresh_value req.consumer)))

pub handle_rotate_token-IsValid :
    (env : Env) (id : String) (body : Option ℤ) (s : Store)
    → IsFresh env s
    → IsValid s
    → IsValid (handle_rotate_token env id body s).1
unfolding handle_rotate_token
handle_rotate_token-IsValid env id body s fresh h = answer-IsValid s _ h (
    OnOk-bind _ (decoded _ body) _ λ ttl _. OnOk-refuse _ (leb_ℤ ttl (pos 0)) _ _ (
      OnOk-step (λ r. IsValid r.1) _ _ (rotate_consumer_token env.suffix env.now id _ s) _
        (rotate_consumer_token-IsValid env.suffix env.now id _ s h fresh.fresh_value)
        λ (r, t) k. k))

pub handle_purge_token-IsValid :
    (env : Env) (id : String) (s : Store) → IsValid s → IsValid (handle_purge_token env id s).1
unfolding handle_purge_token
handle_purge_token-IsValid env id s h = answer-IsValid s _ h (
    OnOk-step IsValid _ _ (purge_consumer_token env.now id s) _
      (purge_consumer_token-IsValid env.now id s h) λ t k. k)
