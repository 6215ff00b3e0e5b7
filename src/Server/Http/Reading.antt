-- ===== src/Server/Http/Reading.antt =====
-- Reading a value through `handleGetObject` of internal/testserver/testserver.go: what a consumer token
-- opens, and what its holder can tell about names that are not its own.
use hush_hush_cli.Prelude.{
  String, ◌≡◌, true, false, not, none, ok, err, ◌>>=◌, map_err, ◌≤◌, length,
}
use hush_hush_cli.Prelude.Text.{is_empty, member}
use hush_hush_cli.Server.Types.{Time, Store, Object, Selector, several_variants, not_found}
use hush_hush_cli.Server.Objects.{get_variant, variants, is_zero}
use hush_hush_cli.Server.Objects.Lookup.{find-several_iff}
use hush_hush_cli.Server.Requests.{Query, selector_from}
use hush_hush_cli.Server.Tokens.{consumer_for_token, bound}
use hush_hush_cli.Server.Http.Defs.{Env, reply, bytes, write_json}
use hush_hush_cli.Server.Http.Flow.{
  answer, has_write_token, bearer_value, selected, refuse_if, ◌>>◌, unknown_object, variant_error,
}
use hush_hush_cli.Server.Http.Objects.{handle_get_object, read_scope}

-- The request carries no write token, and a token bound to the consumer `c`.
pub record IsScoped (now : Time) (authorization : String) (s : Store) (c : String) : Type 0 where
  pub no_write : has_write_token now authorization s ≡ false
  pub given : is_empty (bearer_value authorization) ≡ false
  pub bound_to : consumer_for_token now (bearer_value authorization) s ≡ bound c
  pub named : is_empty c ≡ false

module _ (env : Env) (authorization id : String) (q : Query) (s : Store) (c : String)
    (sel : Selector) (scoped : IsScoped env.now authorization s c)
    (picked : selector_from q ≡ ok sel) where
  scope : read_scope env.now authorization s ≡ ok c
  unfolding read_scope
  scope = rw (scoped.no_write, scoped.given, scoped.bound_to)

  -- What a consumer token's holder is answered is a function of the lookup alone.
  scoped_answer :
      handle_get_object env authorization id q s
      ≡ answer s (
          map_err variant_error (get_variant id sel s) >>= λ obj.
          refuse_if (not (member c obj.used_by)) unknown_object
          >> ok (write_json 200 (bytes obj.value), s))
  unfolding handle_get_object selected
  scoped_answer = rw (scope, picked, scoped.named)

  -- A request with a consumer token and no write token reads the value of an object that names the
  -- token's consumer.
  pub get_object-in_scope :
      (obj : Object)
      → get_variant id sel s ≡ ok obj
      → member c obj.used_by ≡ true
      → handle_get_object env authorization id q s ≡ (reply 200 (bytes obj.value) none, s)
  get_object-in_scope obj found mine = rw scoped_answer (rw (found, mine))

  -- A request with a consumer token and no write token gets, for an object that does not name the
  -- token's consumer, the answer of an unknown name.
  pub get_object-out_of_scope :
      (obj : Object)
      → get_variant id sel s ≡ ok obj
      → member c obj.used_by ≡ false
      → handle_get_object env authorization id q s ≡ (unknown_object, s)
  get_object-out_of_scope obj found foreign = rw scoped_answer (rw (found, foreign))

  pub get_object-unknown :
      get_variant id sel s ≡ err not_found
      → handle_get_object env authorization id q s ≡ (unknown_object, s)
  get_object-unknown missing = rw scoped_answer (rw missing)

  -- With no selector, a name of two variants or more answers 409 to every consumer token, whoever
  -- its variants name, and leaves the store as it was.
  pub get_object-reveals :
      is_zero sel ≡ true
      → 2 ≤ length (variants id s)
      → handle_get_object env authorization id q s ≡ (variant_error several_variants, s)
  unfolding get_variant
  get_object-reveals zero several =
      rw scoped_answer (rw ((find-several_iff id sel s).1 (zero, several)))
