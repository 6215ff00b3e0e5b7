-- ===== src/Cmd/Lists.antt =====
-- The commands that list, and those that ask about the server: list.go, status.go, health.go and audit_log.go
-- of internal/cmd, each up to what it prints.
use hush_hush_cli.Prelude.{
  ℕ, String, Bool, true, false, ◌||◌, Option, some, List, if◌then◌else◌, ◌==◌, Result, ok, err,
}
use hush_hush_cli.Prelude.Int.{ℤ}
use hush_hush_cli.Server.Types.{Time, AuditLogEntry}
use hush_hush_cli.Client.Errors.{wrap, Err, sentinel, unknown_audit_log_format}
use hush_hush_cli.Client.Op.{Op, ◌>>=◌, wrapping}
use hush_hush_cli.Client.Calls.{ObjectMetadata, Health}
use hush_hush_cli.Client.AuditLog.{AuditLogFilter}
use hush_hush_cli.Cli.Flags.{parse_audit_log_filter}
use hush_hush_cli.Cli.Commands.{Paged, wrapping_pages}
use hush_hush_cli.Cli.Commands
use hush_hush_cli.Cmd.{Settings, App}
use hush_hush_cli.Cmd.Config.{config}

-- The flags of `audit-log` that filter.
pub record AuditLogFlags : Type 0 where
  pub object_id : String
  pub actor : String
  pub caller : String
  pub since : String
  pub until : String
  pub limit : ℤ

-- Pages that follow an answer.
abbrev pub paged {ℓ κ μ} :
    {W : Type ℓ} {A : Type κ} {B : Type μ}
    → Result Err A × W
    → (A → Paged W B)
    → Option (Result Err B × W)
paged (err e, w) pages = some (err e, w)
paged (ok a, w) pages = pages a w

module _ {ℓ} {W : Type ℓ} (app : App W) (v : Settings) where
  -- The `RunE` of `newListCmd`
  unfoldable pub list : String → List String → Op W (List ObjectMetadata)
  unfolding config Commands.list
  list used_by tags =
      config app v true >>= λ cfg. wrapping (wrap "list") (Commands.list app.build cfg used_by tags)

  -- The `RunE` of `newStatusCmd`
  unfoldable pub status : Op W Bool
  unfolding config Commands.auth_status
  status =
      config app v false >>= λ cfg. wrapping (wrap "status") (Commands.auth_status app.build cfg)

  -- The `RunE` of `newHealthCmd`
  unfoldable pub health : Op W Health
  unfolding config Commands.health
  health = config app v false >>= λ cfg. wrapping (wrap "health") (Commands.health app.build cfg)

  -- The `RunE` of `newAuditLogCmd` with a format and a filter.
  unfoldable pub audit_log_of : ℕ → Result Err AuditLogFilter → Paged W (List AuditLogEntry)
  unfolding config Commands.audit_log
  audit_log_of fuel (err e) w = some (err e, w)
  audit_log_of fuel (ok filter) w =
      paged (config app v false w)
        (λ cfg. wrapping_pages (wrap "audit-log") (Commands.audit_log app.build fuel cfg filter))

  -- The `RunE` of `newAuditLogCmd`, with fuel for the pages. The format in the error's text is not kept.
  unfoldable pub audit_log :
      (String → Result Err Time) → ℕ → AuditLogFlags → String → Paged W (List AuditLogEntry)
  unfolding audit_log_of parse_audit_log_filter
  audit_log parse_time fuel f format w =
      if format == "table" || format == "json"
      then audit_log_of fuel
          (parse_audit_log_filter parse_time f.object_id f.actor f.caller f.since f.until f.limit) w
      else some (err (wrap "--format" (sentinel unknown_audit_log_format)), w)
