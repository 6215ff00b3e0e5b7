-- ===== src/Cmd/Printed.antt =====
-- The commands that print, with what they print: the ends of the `RunE` functions of internal/cmd.
pub mod Complete
use hush_hush_cli.Prelude.{
  ℕ, String, Bool, true, false, Option, none, some, List, if◌then◌else◌, Result, ◌==◌,
}
use hush_hush_cli.Prelude.Int.{ℤ}
use hush_hush_cli.Server.Types.{Time, AuditLogEntry}
use hush_hush_cli.Server.Tokens.{ConsumerToken}
use hush_hush_cli.Client.Errors.{Err, wrap}
use hush_hush_cli.Client.Op.{Op, ◌>>=◌, continue, wrapping}
use hush_hush_cli.Client.Consumers.{Consumer}
use hush_hush_cli.Cli.Commands.{Paged}
use hush_hush_cli.Render
use hush_hush_cli.Render.{Out}
use hush_hush_cli.Render.Tables
use hush_hush_cli.Cmd.{Settings, App}
use hush_hush_cli.Cmd.Flags.{VariantFlags}
use hush_hush_cli.Cmd.Objects
use hush_hush_cli.Cmd.Lists
use hush_hush_cli.Cmd.Lists.{AuditLogFlags}
use hush_hush_cli.Cmd.Directory
use hush_hush_cli.Cmd.Tokens

-- What follows pages, where the fuel was enough.
abbrev then_print {ℓ κ μ} :
    {W : Type ℓ} {A : Type κ} {B : Type μ}
    → Option (Result Err A × W)
    → (A → Op W B)
    → Option (Result Err B × W)
then_print none print = none
then_print (some reply) print = some (continue print reply)

abbrev truth : Bool → String
truth true = "bootstrapped: true\n"
truth false = "bootstrapped: false\n"

module _ {ℓ} {W : Type ℓ} (format : Time → String) (decimal : ℤ → String) (out : Out W)
    (app : App W) (v : Settings) where
  -- `newUsedByCmd`
  unfoldable pub print_used_by : Bool → String → VariantFlags → Op W (Unit {0})
  unfolding Objects.used_by Render.used_by_json Render.used_by_lines
  print_used_by as_json id variant = Objects.used_by app v id variant >>= λ used_by.
      if as_json then Render.used_by_json out used_by else Render.used_by_lines out used_by

  -- `newListCmd`
  unfoldable pub print_list : Bool → String → List String → Op W (Unit {0})
  unfolding Lists.list Tables.objects_json Tables.objects_table
  print_list as_json used_by tags = Lists.list app v used_by tags >>= λ objects.
      if as_json
      then Tables.objects_json format decimal out objects
      else Tables.objects_table format decimal out objects

  -- `newStatusCmd`
  unfoldable pub print_status : Bool → Op W (Unit {0})
  unfolding Lists.status Render.status_json
  print_status as_json = Lists.status app v >>= λ bootstrapped.
      if as_json
      then Render.status_json out bootstrapped
      else wrapping (wrap "write status") (out.write (truth bootstrapped))

  -- `newHealthCmd`
  unfoldable pub print_health : Bool → Op W (Unit {0})
  unfolding Lists.health Render.health_json Render.health_text
  print_health as_json = Lists.health app v >>= λ h.
      if as_json then Render.health_json out h else Render.health_text out h

  -- `newAuditLogCmd`
  unfoldable pub print_audit_log :
      (String → Result Err Time) → ℕ → AuditLogFlags → String → Paged W (Unit {0})
  unfolding Lists.audit_log Tables.audit_log_json Tables.audit_log_table
  print_audit_log parse_time fuel f flag w =
      then_print (Lists.audit_log app v parse_time fuel f flag w) (λ entries.
        if flag == "json"
        then Tables.audit_log_json format decimal out entries
        else Tables.audit_log_table format decimal out entries)

  -- `newConsumerListCmd`
  unfoldable pub print_consumer_list : Bool → ℕ → String → Paged W (Unit {0})
  unfolding Directory.consumer_list Tables.consumers_json Tables.consumers_table
  print_consumer_list as_json fuel query w =
      then_print (Directory.consumer_list app v fuel query w) (λ consumers.
        if as_json
        then Tables.consumers_json format decimal out consumers
        else Tables.consumers_table format decimal out consumers)

  -- `newConsumerAddCmd`
  unfoldable pub print_consumer_add : Bool → String → Op W (Unit {0})
  unfolding Directory.consumer_add Tables.one_consumer
  print_consumer_add as_json name = Directory.consumer_add app v name >>= λ consumer.
      Tables.one_consumer format decimal out consumer as_json

  -- `newConsumerUpdateCmd`
  unfoldable pub print_consumer_update :
      Bool → String → Option String → Option String → Op W (Unit {0})
  unfolding Directory.consumer_update Tables.one_consumer
  print_consumer_update as_json name new_name public_key =
      Directory.consumer_update app v name new_name public_key >>= λ consumer.
      Tables.one_consumer format decimal out consumer as_json

  module _ (parse_duration : String → Result Err ℤ) (seconds : ℤ → ℤ) (now : Time) where
    -- `newTokenCreateCmd`
    unfoldable pub print_token_create : Bool → String → String → String → Op W (Unit {0})
    unfolding Tokens.token_create Tables.consumer_token_with_value
    print_token_create as_json consumer description ttl =
        Tokens.token_create parse_duration seconds now app v consumer description ttl >>= λ token.
        Tables.consumer_token_with_value format decimal out token as_json

    -- `newTokenRotateCmd`
    unfoldable pub print_token_rotate : Bool → String → String → Op W (Unit {0})
    unfolding Tokens.token_rotate Tables.consumer_token_with_value
    print_token_rotate as_json id ttl =
        Tokens.token_rotate parse_duration seconds now app v id ttl >>= λ token.
        Tables.consumer_token_with_value format decimal out token as_json

    -- `newTokenListCmd`
    unfoldable pub print_token_list : Bool → Op W (Unit {0})
    unfolding Tokens.token_list Tables.consumer_tokens_json Tables.consumer_tokens_table
    print_token_list as_json = Tokens.token_list parse_duration seconds now app v >>= λ tokens.
        if as_json
        then Tables.consumer_tokens_json format decimal out tokens
        else Tables.consumer_tokens_table format decimal out tokens
