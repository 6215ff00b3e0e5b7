-- ===== src/Server/Requests.antt =====
-- What the handlers of internal/testserver/testserver.go read from a request: its query, its tags,
-- its page and its filters. `parse_time` is `time.Parse` at RFC 3339.
pub mod Tags
use Prim.Native.String
use hush_hush_cli.Prelude.{
  ℕ, ◌+◌, ◌-◌, String, code, Bool, true, false, not, ◌&&◌, ◌||◌, Option, none, some, List, [], ◌∷◌,
  ◌++◌, ◌==◌, ltb, leb, eqb, if◌then◌else◌, length, take, drop, min, any, all, Result, ok, err,
  ◌>>=◌, map_ok,
}
use hush_hush_cli.Prelude.Int.{ℤ, pos, negsuc}
use hush_hush_cli.Prelude.Text.{
  is_lower, is_digit, is_empty, to_lower, equal_fold, member, parse_int,
}
use hush_hush_cli.Server.Types.{Time, Selector, Object}
use hush_hush_cli.Server.Audit.{AuditLogFilter}
use hush_hush_cli.Server.Consumers.{ConsumerFilter}

-- The texts of error answers; a formatted one keeps its parts.
pub data Message : Type 0 where
  text : String → Message
  bad_tag : String → Message
  too_many_tags : Message
  bad_parameter : String → Message
  bad_filter : Message

-- `url.Values`, in the order of the query.
abbrev pub Query : Type 0
Query = List (String × String)

-- `q.Get(key)`: the first value, or the empty string.
unfoldable pub query_get : String → Query → String
query_get key [] = ""
query_get key ((k, v) ∷ q) = if k == key then v else query_get key q

-- `q[key]`
unfoldable pub query_all : String → Query → List String
query_all key [] = []
query_all key ((k, v) ∷ q) = let rest = query_all key q in if k == key then v ∷ rest else rest

-- `selectorFrom`
unfoldable pub selector_from : Query → Result Message Selector
unfolding query_get
selector_from q =
    let id = query_get "id" q in
    let consumer = query_get "consumer" q in
    if not (is_empty id) && not (is_empty consumer)
    then err (text "pass id or consumer to pick a variant, not both")
    else ok (record { id = id; consumer = consumer })

abbrev is_tag_code : ℕ → Bool
is_tag_code n = is_lower n || is_digit n || eqb n b'.' || eqb n b'_' || eqb n b'/' || eqb n b'-'

all_tag_codes : String → Bool
all_tag_codes String.[] = true
all_tag_codes (String.◌∷◌ c s) = is_tag_code (code c) && all_tag_codes s

-- The number of code points.
abbrev pub size : String → ℕ
size String.[] = 0
size (String.◌∷◌ c s) = 1 + size s

-- `tagPattern`: ^[a-z0-9._/-]{1,32}$
unfoldable pub is_tag : String → Bool
unfolding all_tag_codes
is_tag s = leb 1 (size s) && leb (size s) 32 && all_tag_codes s

-- `maxTags`
abbrev pub max_tags : ℕ
max_tags = 10

-- The loop of `normalizeTags`, with the tags kept so far.
unfoldable pub normalize_from : List String → List String → Result Message (List String)
unfolding is_tag to_lower member
normalize_from out [] = ok out
normalize_from out (t ∷ tags) =
    let tag = to_lower t in
    let rest = normalize_from (if member tag out then out else out ++ tag ∷ []) tags in
    if not (is_tag tag) then err (bad_tag tag) else rest

abbrev pub within_max : List String → Result Message (List String)
within_max out = if ltb max_tags (length out) then err too_many_tags else ok out

-- `normalizeTags`
unfoldable pub normalize_tags : List String → Result Message (List String)
unfolding normalize_from
normalize_tags tags = do out ← normalize_from [] tags; within_max out

-- `normalizeOptionalTags`
unfoldable pub normalize_optional_tags :
    Option (List String) → Result Message (Option (List String))
unfolding normalize_tags
normalize_optional_tags none = ok none
normalize_optional_tags (some tags) = map_ok some (normalize_tags tags)

-- `hasAllTags`
unfoldable pub has_all_tags : List String → List String → Bool
unfolding equal_fold
has_all_tags have want = all (λ tag. any (λ h. equal_fold h tag) have) want

-- `strconv.Atoi` where it gives a positive number.
abbrev pub positive_or : Option ℤ → ℕ → ℕ
positive_or (some (pos n)) default = if ltb 0 n then n else default
positive_or _ default = default

-- `limit` and `offset` as `paged` reads them: 50 by default and 500 at most, and 0 by default.
unfoldable pub page_limit : Query → ℕ
unfolding query_get parse_int
page_limit q = min (positive_or (parse_int 64 (query_get "limit" q)) 50) 500

unfoldable pub page_offset : Query → ℕ
unfolding query_get parse_int
page_offset q = positive_or (parse_int 64 (query_get "offset" q)) 0

-- `paged`: the page of the items.
unfoldable pub page_items {ℓ} : {A : Type ℓ} → Query → List A → List A
unfolding page_limit page_offset
page_items q items =
    let start = min (page_offset q) (length items) in
    let end = min (start + page_limit q) (length items) in take (end - start) (drop start items)

abbrev pub given : String → Option String
given String.[] = none
given (String.◌∷◌ c s) = some (String.◌∷◌ c s)

abbrev required {ℓ} : {A : Type ℓ} → String → Option A → Result Message (Option A)
required name none = err (bad_parameter name)
required name (some a) = ok (some a)

-- A parameter that is parsed where it is not empty.
unfoldable pub parsed {ℓ} :
    {A : Type ℓ} → (String → Option A) → String → Query → Result Message (Option A)
unfolding query_get
parsed parse name q =
    let v = query_get name q in if is_empty v then ok none else required name (parse v)

-- `parseConsumerFilter`
unfoldable pub parse_consumer_filter : Query → Result Message ConsumerFilter
unfolding query_get parsed parse_int
parse_consumer_filter q = do
  page ← parsed (parse_int 32) "page" q
  page_size ← parsed (parse_int 32) "page_size" q
  ok (record { q = given (query_get "q" q); page = page; page_size = page_size })

-- `parseAuditLogFilter`
unfoldable pub parse_audit_log_filter :
    (String → Option Time) → Query → Result Message AuditLogFilter
unfolding query_get parsed parse_int
parse_audit_log_filter parse_time q = do
  from ← parsed parse_time "from" q
  to ← parsed parse_time "to" q
  after ← parsed (parse_int 64) "after" q
  limit ← parsed (parse_int 32) "limit" q
  ok (record {
    object_id = given (query_get "object_id" q);
    caller = given (query_get "caller" q);
    actor = given (query_get "actor" q);
    from = from;
    to = to;
    after = after;
    limit = limit;
  })
