-- ===== src/Examples/AuditLog.antt =====
-- The audit log and its paging by internal/client/client.go at a concrete store.
use hush_hush_cli.Prelude.{◌≡◌, refl, false, none, some, List, arith, ok, map_err, select}
use hush_hush_cli.Server.Types.{Store, AuditLogEntry, StoreError}
use hush_hush_cli.Server.Audit
use hush_hush_cli.Server.Audit.{record_audit_entry, collect, entry_matches}
use hush_hush_cli.Client.Errors.{SdkError, api}
use hush_hush_cli.Client.Sdk.{Call}
use hush_hush_cli.Client.AuditLog.{AuditLogFilter, query_audit_log, request_filter}
use hush_hush_cli.Client.AuditLog.Paging.{capped}
use hush_hush_cli.Client.AuditLog.Transparent.{query_audit_log_complete}
use hush_hush_cli.Examples.Fixtures.{full, full-IsNumbered}

abbrev of_server : StoreError → SdkError
of_server e = api 400 "invalid filter"

-- An SDK that asks the server's log.
abbrev sdk_query : Audit.AuditLogFilter → Call Store (List AuditLogEntry)
sdk_query f s = (map_err of_server (Audit.query_audit_log f s), s)

-- Two entries about one object.
abbrev about_db : AuditLogFilter
about_db = record {
  object_id = none;
  caller = none;
  token = none;
  since = none;
  until = none;
  limit = some 1;
}

no_bad_id : Audit.bad_object_id none ≡ false
unfolding Audit.bad_object_id
no_bad_id = refl

query_audit_log_complete_example :
    query_audit_log sdk_query 4 about_db full
    ≡ some (
      ok (capped (some 1) (select (entry_matches (request_filter about_db none)) full.audit_log)),
      full,
    )
query_audit_log_complete_example =
    query_audit_log_complete sdk_query full full of_server (λ f. refl) about_db 4 full-IsNumbered
      no_bad_id (omega arith)
