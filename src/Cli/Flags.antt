-- ===== src/Cli/Flags.antt =====
-- internal/cli/flags.go: flags read as a filter and as a lifetime. `time.Parse` with RFC 3339 and
-- `time.ParseDuration` are parameters.
use hush_hush_cli.Prelude.{
  ℕ, zero, suc, String, Option, none, some, if◌then◌else◌, Result, ok, err, ◌>>=◌, map_err, map_ok,
}
use hush_hush_cli.Prelude.Int.{ℤ, pos, negsuc}
use hush_hush_cli.Prelude.Text.{is_empty}
use hush_hush_cli.Server.Types.{Time}
use hush_hush_cli.Client.Errors.{Err, wrap, sentinel, ttl_required}
use hush_hush_cli.Client.Calls.{unless_empty}
use hush_hush_cli.Client.AuditLog.{AuditLogFilter}

-- The limit that is set for a flag: none below one.
abbrev limit_flag : ℤ → Option ℕ
limit_flag (pos zero) = none
limit_flag (pos (suc n)) = some (suc n)
limit_flag (negsuc n) = none

-- A time that a flag may give.
unfoldable pub time_flag : (String → Result Err Time) → String → String → Result Err (Option Time)
time_flag parse_time name text =
    if is_empty text then ok none else map_ok some (map_err (wrap name) (parse_time text))

-- `ParseAuditLogFilter`
unfoldable pub parse_audit_log_filter :
    (String → Result Err Time)
    → String
    → String
    → String
    → String
    → String
    → ℤ
    → Result Err AuditLogFilter
unfolding time_flag
parse_audit_log_filter parse_time object_id actor caller since until limit = do
  from ← time_flag parse_time "--since" since
  to ← time_flag parse_time "--until" until
  ok (record {
    object_id = unless_empty object_id;
    caller = unless_empty caller;
    token = unless_empty actor;
    since = from;
    until = to;
    limit = limit_flag limit;
  })

-- `ParseTTL`: a duration in nanoseconds.
unfoldable pub parse_ttl : (String → Result Err ℤ) → String → Result Err ℤ
parse_ttl parse_duration ttl =
    if is_empty ttl
    then err (sentinel ttl_required)
    else map_err (wrap "--ttl") (parse_duration ttl)
