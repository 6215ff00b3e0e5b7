-- ===== src/Cli/Commands.antt =====
-- The operations of internal/cli that build a client and pass one call of it on: audit_log.go, auth_status.go,
-- consumers.go, delete.go, health.go, list.go, tokens.go and used_by.go. The writes and the read of this
-- package over a built client are in Write and Read; `injecting`, `updating` and `editing` build it first.
use hush_hush_cli.Prelude.{
  ℕ, String, Bool, Option, none, some, List, if◌then◌else◌, Result, ok, err,
}
use hush_hush_cli.Prelude.Int.{ℤ}
use hush_hush_cli.Server.Types.{Time, AuditLogEntry}
use hush_hush_cli.Server.Tokens.{ConsumerToken}
use hush_hush_cli.Client.Errors.{Err, wrap, sentinel, nothing_to_edit}
use hush_hush_cli.Client.Op.{Op, failed, wrapping, wrapped_reply}
use hush_hush_cli.Client.Calls.{ObjectMetadata, Health}
use hush_hush_cli.Client.Reads
use hush_hush_cli.Client.Directory
use hush_hush_cli.Client.TokenCalls
use hush_hush_cli.Client.TokenCalls.{ConsumerTokenWithValue}
use hush_hush_cli.Client.Consumers
use hush_hush_cli.Client.Consumers.{Consumer}
use hush_hush_cli.Client.AuditLog
use hush_hush_cli.Client.Remote.{Remote, Builder}
use hush_hush_cli.Cli.Config.{Config}
use hush_hush_cli.Cli.Options.{WriteOption, new_write_options}
use hush_hush_cli.Cli.Client.{config_client, with_client}
use hush_hush_cli.Cli.Write.{changes_nothing, inject, update_value, edit}

-- A computation that asks for pages until it has enough, on fuel: nothing where the fuel runs out.
abbrev pub Paged {ℓ κ} : Type ℓ → Type κ → Type (ℓ ⊔ κ)
Paged W A = W → Option (Result Err A × W)

abbrev wrapped {ℓ κ} :
    {W : Type ℓ} {A : Type κ} → (Err → Err) → Option (Result Err A × W) → Option (Result Err A × W)
wrapped f none = none
wrapped f (some reply) = some (wrapped_reply f reply)

abbrev pub wrapping_pages {ℓ κ} : {W : Type ℓ} {A : Type κ} → (Err → Err) → Paged W A → Paged W A
wrapping_pages f pages w = wrapped f (pages w)

-- A paged call on the client, where there is one.
abbrev pub pages_of {ℓ κ} :
    {W : Type ℓ} {A : Type κ} → Result Err (Remote W) → (Remote W → Paged W A) → Paged W A
pages_of (err e) pages w = some (err e, w)
pages_of (ok remote) pages w = pages remote w

module _ {ℓ} {W : Type ℓ} (build : Builder W) where
  -- `AuthStatus`
  unfoldable pub auth_status : Config → Op W Bool
  unfolding config_client Reads.auth_status
  auth_status cfg =
      with_client build cfg
        (λ remote. wrapping (wrap "auth status") (Reads.auth_status remote.objects))

  -- `Health`
  unfoldable pub health : Config → Op W Health
  unfolding config_client Reads.health
  health cfg =
      with_client build cfg (λ remote. wrapping (wrap "health") (Reads.health remote.objects))

  -- `Delete`
  unfoldable pub delete : Config → String → String → String → Op W (Unit {0})
  unfolding config_client Reads.delete
  delete cfg id variant_id consumer = with_client build cfg (λ remote.
      wrapping (wrap "delete object") (Reads.delete remote.objects id variant_id consumer))

  -- `List`
  unfoldable pub list : Config → String → List String → Op W (List ObjectMetadata)
  unfolding config_client Reads.list
  list cfg used_by tags =
      with_client build cfg
        (λ remote. wrapping (wrap "list objects") (Reads.list remote.objects used_by tags))

  -- `UsedBy`
  unfoldable pub used_by : Config → String → String → String → Op W (List String)
  unfolding config_client Reads.used_by
  used_by cfg id variant_id consumer =
      with_client build cfg
        (λ remote. wrapping (wrap "used-by") (Reads.used_by remote.objects id variant_id consumer))

  -- `AddConsumer`
  unfoldable pub add_consumer : Config → String → Op W Consumer
  unfolding config_client Directory.add_consumer
  add_consumer cfg name =
      with_client build cfg
        (λ remote. wrapping (wrap "add consumer") (Directory.add_consumer remote.directory name))

  -- `UpdateConsumer`
  unfoldable pub update_consumer : Config → String → Option String → Option String → Op W Consumer
  unfolding config_client Directory.update_consumer
  update_consumer cfg name new_name public_key = with_client build cfg (λ remote.
      wrapping (wrap "update consumer")
        (Directory.update_consumer remote.directory name new_name public_key))

  -- `DeleteConsumer`
  unfoldable pub delete_consumer : Config → String → Op W (Unit {0})
  unfolding config_client Directory.delete_consumer
  delete_consumer cfg name = with_client build cfg (λ remote.
      wrapping (wrap "delete consumer") (Directory.delete_consumer remote.directory name))

  -- `ListConsumers`, with fuel for the pages.
  unfoldable pub list_consumers : ℕ → Config → String → Paged W (List Consumer)
  unfolding config_client Consumers.list_consumers
  list_consumers fuel cfg query = pages_of (config_client build cfg) (λ remote.
      wrapping_pages (wrap "list consumers")
        (Consumers.list_consumers remote.directory.list_consumers fuel query))

  -- `AuditLog`, with fuel for the pages.
  unfoldable pub audit_log : ℕ → Config → AuditLog.AuditLogFilter → Paged W (List AuditLogEntry)
  unfolding config_client AuditLog.query_audit_log
  audit_log fuel cfg filter = pages_of (config_client build cfg) (λ remote.
      wrapping_pages (wrap "query audit log")
        (AuditLog.query_audit_log remote.query_audit_log fuel filter))

  -- `Edit`: its options are looked at before its client is built, and by `edit` as well.
  unfoldable pub editing : Config → String → List WriteOption → Op W (Unit {0})
  unfolding config_client edit new_write_options
  editing cfg id opts =
      if changes_nothing (new_write_options opts)
      then failed (sentinel nothing_to_edit)
      else with_client build cfg (λ remote. edit remote.objects id opts)

  module _ {κ} {R : Type κ} (parse_recipient : String → Result Err R)
      (encrypt : List R → List ℕ → Result Err (List ℕ)) where
    -- `Inject` with its client.
    unfoldable pub injecting :
        Config
        → String
        → List ℕ
        → List String
        → List String
        → String
        → List WriteOption
        → Op W (Unit {0})
    unfolding config_client inject
    injecting cfg id value recipients used_by description opts = with_client build cfg (λ remote.
        inject remote.objects parse_recipient encrypt id value recipients used_by description opts)

    -- `Update` with its client.
    unfoldable pub updating :
        Config → String → List ℕ → List String → List WriteOption → Op W (Unit {0})
    unfolding config_client update_value
    updating cfg id value recipients opts =
        with_client build cfg
          (λ remote. update_value remote.objects parse_recipient encrypt id value recipients opts)

  -- The operations on tokens.
  module _ (seconds : ℤ → ℤ) (now : Time) where
    -- `CreateConsumerToken`
    unfoldable pub create_consumer_token :
        Config → String → String → ℤ → Op W ConsumerTokenWithValue
    unfolding config_client TokenCalls.create_consumer_token
    create_consumer_token cfg consumer description ttl = with_client build cfg (λ remote.
        wrapping (wrap "create consumer token")
          (TokenCalls.create_consumer_token seconds now remote.tokens consumer description ttl))

    -- `ListConsumerTokens`
    unfoldable pub list_consumer_tokens : Config → Op W (List ConsumerToken)
    unfolding config_client TokenCalls.list_consumer_tokens
    list_consumer_tokens cfg = with_client build cfg (λ remote.
        wrapping (wrap "list consumer tokens")
          (TokenCalls.list_consumer_tokens seconds now remote.tokens))

    -- `RotateConsumerToken`
    unfoldable pub rotate_consumer_token : Config → String → ℤ → Op W ConsumerTokenWithValue
    unfolding config_client TokenCalls.rotate_consumer_token
    rotate_consumer_token cfg id ttl = with_client build cfg (λ remote.
        wrapping (wrap "rotate consumer token")
          (TokenCalls.rotate_consumer_token seconds now remote.tokens id ttl))

    -- `RevokeConsumerToken`
    unfoldable pub revoke_consumer_token : Config → String → Op W (Unit {0})
    unfolding config_client TokenCalls.revoke_consumer_token
    revoke_consumer_token cfg id = with_client build cfg (λ remote.
        wrapping (wrap "revoke consumer token")
          (TokenCalls.revoke_consumer_token seconds now remote.tokens id))

    -- `PurgeConsumerToken`
    unfoldable pub purge_consumer_token : Config → String → Op W (Unit {0})
    unfolding config_client TokenCalls.purge_consumer_token
    purge_consumer_token cfg id = with_client build cfg (λ remote.
        wrapping (wrap "purge consumer token")
          (TokenCalls.purge_consumer_token seconds now remote.tokens id))
