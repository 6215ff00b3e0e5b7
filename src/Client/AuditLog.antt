-- ===== src/Client/AuditLog.antt =====
-- `QueryAuditLog` of internal/client/client.go: the paging loop over the server's cursor.
pub mod Cursor
pub mod Paging
pub mod Transparent
use hush_hush_cli.Prelude.{
  ℕ, suc, zero, String, Bool, true, false, ◌&&◌, Option, none, some, List, [], ◌∷◌, ◌++◌, ltb, leb,
  eqb, if◌then◌else◌, length, Result, ok, err,
}
use hush_hush_cli.Prelude.Int.{ℤ, pos}
use hush_hush_cli.Server.Types.{Time, AuditLogEntry}
use hush_hush_cli.Server.Audit
use hush_hush_cli.Client.Errors.{Err, SdkError, map_error}
use hush_hush_cli.Client.Sdk.{Call}

-- `AuditLogFilter`. The code treats every limit below one alike, so a limit is a number.
pub record AuditLogFilter : Type 0 where
  pub object_id : Option String
  pub caller : Option String
  pub token : Option String
  pub since : Option Time
  pub until : Option Time
  pub limit : Option ℕ

-- `auditLogPageMax`
abbrev pub page_max : ℕ
page_max = 500

-- The size of the pages that are asked for.
unfoldable pub page_limit : Option ℕ → ℕ
page_limit none = page_max
page_limit (some limit) = if ltb 0 limit && ltb limit page_max then limit else page_max

-- The filter of one request.
unfoldable pub request_filter : AuditLogFilter → Option ℤ → Audit.AuditLogFilter
unfolding page_limit
request_filter filter after = record {
  object_id = filter.object_id;
  caller = filter.caller;
  actor = filter.token;
  from = filter.since;
  to = filter.until;
  after = after;
  limit = some (pos (page_limit filter.limit));
}

abbrev reached : Option ℕ → ℕ → Bool
reached none n = false
reached (some limit) n = leb limit n

-- The loop over a page: the result, and whether the limit was reached.
unfoldable pub append_page :
    Option ℕ → List AuditLogEntry → List AuditLogEntry → List AuditLogEntry × Bool
append_page limit result [] = (result, false)
append_page limit result (e ∷ page) =
    let result' = result ++ e ∷ [] in
    let rest = append_page limit result' page in
    if reached limit (length result') then (result', true) else rest

-- `page[len(page)-1].Id`; the number given is that of an empty page, which the loop never asks about.
unfoldable pub last_id : ℕ → List AuditLogEntry → ℕ
last_id d [] = d
last_id d (e ∷ page) = last_id e.id page

abbrev pub Outcome {ℓ} : Type ℓ → Type ℓ
Outcome W = Option (Result Err (List AuditLogEntry) × W)

module _ {ℓ} {W : Type ℓ} where
  -- A round that got a page, `next` being the rounds after it.
  unfoldable pub answer_page :
      AuditLogFilter
      → List AuditLogEntry
      → (Option ℤ → List AuditLogEntry → W → Outcome W)
      → List AuditLogEntry
      → W
      → Outcome W
  unfolding append_page last_id page_limit
  answer_page filter result next page w =
      let (result', full) = append_page filter.limit result page in
      let more = next (some (pos (last_id 0 page))) result' w in
      if full
      then some (ok result', w)
      else if ltb (length page) (page_limit filter.limit)
      then some (ok result', w)
      else more

  -- A round, by the reply.
  unfoldable pub answer_reply :
      AuditLogFilter
      → List AuditLogEntry
      → (Option ℤ → List AuditLogEntry → W → Outcome W)
      → Result SdkError (List AuditLogEntry) × W
      → Outcome W
  unfolding answer_page map_error
  answer_reply filter result next (err e, w) = some (err (map_error e), w)
  answer_reply filter result next (ok page, w) = answer_page filter result next page w

module _ {ℓ} {W : Type ℓ} (query : Audit.AuditLogFilter → Call W (List AuditLogEntry)) where
  -- The loop, with the cursor and the result so far; `none` where the fuel runs out.
  unfoldable pub query_from : ℕ → AuditLogFilter → Option ℤ → List AuditLogEntry → W → Outcome W
  unfolding request_filter answer_reply
  query_from zero filter after result w = none
  query_from (suc fuel) filter after result w =
      answer_reply filter result (query_from fuel filter) (query (request_filter filter after) w)

  -- `QueryAuditLog`, with fuel for the rounds.
  unfoldable pub query_audit_log : ℕ → AuditLogFilter → W → Outcome W
  unfolding query_from
  query_audit_log fuel filter w = query_from fuel filter none [] w
