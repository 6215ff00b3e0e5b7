-- ===== src/Client/AuditLog/Transparent.antt =====
-- The audit log query of internal/client/client.go over a server that answers as internal/testserver/testserver.go does.
use hush_hush_cli.Prelude.{
  ℕ, ◌+◌, ◌-◌, ◌<◌, ◌≡◌, refl, ap, ◌∙◌, false, Option, none, some, List, [], length, take, select,
  length-select, arith, ok, map_err, ltb,
}
use hush_hush_cli.Prelude.Int.{ℤ}
use hush_hush_cli.Server.Types.{StoreError, AuditLogEntry, Store}
use hush_hush_cli.Server.Audit
use hush_hush_cli.Server.Audit.{entry_matches, bad_object_id}
use hush_hush_cli.Server.Audit.Pages.{IsNumbered, collect-take}
use hush_hush_cli.Client.Errors.{SdkError}
use hush_hush_cli.Client.Sdk.{Call}
use hush_hush_cli.Client.AuditLog.{AuditLogFilter, page_limit, request_filter, query_audit_log}
use hush_hush_cli.Client.AuditLog.Cursor.{matching, page_limit_bounds}
use hush_hush_cli.Client.AuditLog.Paging.{capped, query_from-capped}

page_reply :
    (s : Store) (filter : AuditLogFilter) (after : Option ℤ)
    → bad_object_id filter.object_id ≡ false
    → Audit.query_audit_log (request_filter filter after) s
      ≡ ok (take (page_limit filter.limit) (matching filter after s.audit_log))
unfolding Audit.query_audit_log request_filter
page_reply s filter after valid =
    let (positive, small) = page_limit_bounds filter.limit in
    let low : ltb (page_limit filter.limit + 0) 1 ≡ false = ground arith in
    let high : ltb 500 (page_limit filter.limit + 0) ≡ false = ground arith in
    rw
      (
        valid,
        low,
        high,
        collect-take (request_filter filter after) (page_limit filter.limit) [] s.audit_log
            positive,
      )
      (ap (λ n. ok (take n (select (entry_matches (request_filter filter after)) s.audit_log)))
        {x = page_limit filter.limit - 0} {y = page_limit filter.limit} (omega arith))

module _ {ℓ} {W : Type ℓ} (query : Audit.AuditLogFilter → Call W (List AuditLogEntry)) (w : W)
    (s : Store) (of_server : StoreError → SdkError)
    (forwards : (f : Audit.AuditLogFilter)
      → query f w ≡ (map_err of_server (Audit.query_audit_log f s), w)) where
  -- Over an SDK that forwards each request to the server's log, whose ids grow, and for no object
  -- id or a well-formed one, the paging is invisible: with fuel for more rounds than the log has
  -- entries the query ends, and returns every entry that matches, oldest first, cut to the limit if
  -- one is given (a limit of zero lets one entry through).
  pub query_audit_log_complete :
      (filter : AuditLogFilter) (fuel : ℕ)
      → IsNumbered s
      → bad_object_id filter.object_id ≡ false
      → length s.audit_log < fuel
      → query_audit_log query fuel filter w
        ≡ some (
          ok (
              capped filter.limit
                (select (entry_matches (request_filter filter none)) s.audit_log)),
          w,
        )
  unfolding query_audit_log
  query_audit_log_complete filter fuel numbered valid enough =
      query_from-capped query w s.audit_log filter
        (λ after.
          forwards (request_filter filter after)
          ∙ ap (λ r. (map_err of_server r, w)) (page_reply s filter after valid))
        numbered.growing numbered.positive fuel filter.limit refl
        (omega (arith, length-select (entry_matches (request_filter filter none)) s.audit_log))
