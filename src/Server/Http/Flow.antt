-- ===== src/Server/Http/Flow.antt =====
-- Early returns of the handlers in internal/testserver/testserver.go, and the checks that they share.
-- A handler is a chain whose error is the answer that it returns at once, leaving the store alone.
use hush_hush_cli.Prelude.{
  String, Bool, true, false, not, Option, none, some, if◌then◌else◌, Result, ok, err, ◌>>=◌,
  map_err,
}
use hush_hush_cli.Prelude.Text.{cut_prefix, is_empty}
use hush_hush_cli.Server.Types.{Time, StoreError, several_variants, Store, Selector}
use hush_hush_cli.Server.Requests.{Message, text, Query, selector_from}
use hush_hush_cli.Server.Tokens.{validate_token}
use hush_hush_cli.Server.Http.Defs.{Response, write_error}

abbrev pub Answer : Type 0
Answer = Response × Store

-- The answer of a chain that starts at the store `s`.
abbrev pub answer : Store → Result Response Answer → Answer
answer s (ok a) = a
answer s (err r) = (r, s)

infixl 5 ◌>>◌
abbrev pub ◌>>◌ {ℓ} :
    {B : Type ℓ} → Result Response (Unit {0}) → Result Response B → Result Response B
m >> k = m >>= λ _. k

abbrev pub refuse_if : Bool → Response → Result Response (Unit {0})
refuse_if true r = err r
refuse_if false r = ok tt

-- A body, or the answer to one that does not decode.
abbrev pub decoded {ℓ} : {A : Type ℓ} → Response → Option A → Result Response A
decoded r none = err r
decoded r (some a) = ok a

abbrev pub malformed : Response
malformed = write_error 400 (text "malformed request body")

abbrev pub unauthorized : Response
unauthorized = write_error 401 (text "missing or invalid bearer token")

abbrev pub unknown_object : Response
unknown_object = write_error 404 (text "unknown object")

-- `writeVariantError`
abbrev pub variant_error : StoreError → Response
variant_error several_variants =
    write_error 409 (text "name has several variants; pass id to say which")
variant_error _ = unknown_object

abbrev pub bad_request : Message → Response
bad_request msg = write_error 400 msg

-- `selectorFrom`, which answers 400 itself.
unfoldable pub selected : Query → Result Response Selector
unfolding selector_from
selected q = map_err bad_request (selector_from q)

-- `strings.CutPrefix(authorization, "Bearer ")`, empty where the prefix is missing.
unfoldable pub bearer_value : String → String
unfolding cut_prefix
bearer_value authorization = elim (cut_prefix authorization "Bearer ") [
  | none ↦ ""
  | some got ↦ got
]

-- The test of `requireWriteToken`.
unfoldable pub has_write_token : Time → String → Store → Bool
unfolding bearer_value validate_token
has_write_token now authorization s =
    let got = bearer_value authorization in if is_empty got then false else validate_token now got s

-- `requireWriteToken`
unfoldable pub require_write_token : Time → String → (Store → Answer) → Store → Answer
unfolding has_write_token
require_write_token now authorization next s =
    if not (has_write_token now authorization s) then (unauthorized, s) else next s
