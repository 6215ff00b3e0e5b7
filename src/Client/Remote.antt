-- ===== src/Client/Remote.antt =====
-- `New` of internal/client/client.go. `Remote` has the calls of an SDK client, for an `X-Caller`.
use hush_hush_cli.Prelude.{String, List, Result, map_err}
use hush_hush_cli.Server.Types.{AuditLogEntry}
use hush_hush_cli.Server.Audit
use hush_hush_cli.Client.Errors.{Err, wrap}
use hush_hush_cli.Client.Sdk.{Call}
use hush_hush_cli.Client.Calls.{Sdk}
use hush_hush_cli.Client.Directory.{DirectorySdk}
use hush_hush_cli.Client.TokenCalls.{TokenSdk}

pub record Remote {ℓ} (W : Type ℓ) : Type ℓ where
  pub objects : Sdk W
  pub directory : DirectorySdk W
  pub tokens : TokenSdk W
  pub query_audit_log : Audit.AuditLogFilter → Call W (List AuditLogEntry)

-- What builds an SDK client: `hushhush.NewClient` with a server and a key. The caller is given afterwards.
abbrev pub Builder {ℓ} : Type ℓ → Type ℓ
Builder W = String → String → Result Err (String → Remote W)

-- `New`
unfoldable pub new_client {ℓ} : {W : Type ℓ} → Builder W → Builder W
new_client build server token = map_err (wrap "build hush-hush-go client") (build server token)
