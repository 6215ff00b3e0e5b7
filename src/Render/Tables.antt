-- ===== src/Render/Tables.antt =====
-- The tables of internal/render. `format` is the text of a time, Local().Format(time.DateTime), and `decimal`
-- that of a number.
pub mod Rows
use hush_hush_cli.Prelude.{String, Bool, Option, none, some, List, [], ◌∷◌, map, if◌then◌else◌}
use hush_hush_cli.Prelude.Int.{ℤ}
use hush_hush_cli.Server.Types.{Time, AuditLogEntry}
use hush_hush_cli.Server.Tokens.{ConsumerToken}
use hush_hush_cli.Client.Errors.{wrap}
use hush_hush_cli.Client.Op.{Op, wrapping}
use hush_hush_cli.Client.Calls.{ObjectMetadata}
use hush_hush_cli.Client.Consumers.{Consumer}
use hush_hush_cli.Client.TokenCalls.{ConsumerTokenWithValue}
use hush_hush_cli.Render.{Out, join_comma, or_dash, table}

module _ (format : Time → String) (decimal : ℤ → String) where
  -- `formatTime`
  unfoldable pub format_time : Option Time → String
  format_time none = "-"
  format_time (some t) = format t

  abbrev pub object_row : ObjectMetadata → List String
  unfolding join_comma format_time
  object_row o =
      o.slug
      ∷ join_comma o.used_by
      ∷ join_comma o.tags
      ∷ format_time o.created_at
      ∷ format_time o.updated_at
      ∷ o.description
      ∷ []

  abbrev pub entry_row : AuditLogEntry → List String
  entry_row e = format e.timestamp ∷ e.action ∷ e.object_id ∷ or_dash e.caller ∷ e.ip ∷ []

  abbrev pub consumer_row : Consumer → List String
  consumer_row c = c.name ∷ decimal c.secret_count ∷ c.public_key ∷ []

  abbrev pub token_row : ConsumerToken → List String
  token_row t = t.id ∷ t.consumer ∷ t.description ∷ format t.expires_at ∷ t.status ∷ []

  module _ {ℓ} {W : Type ℓ} (out : Out W) where
    -- `ObjectsTable`
    unfoldable pub objects_table : List ObjectMetadata → Op W (Unit {0})
    unfolding table
    objects_table objects =
        table out "write list header" "write list row" "flush list table"
          ("ID" ∷ "USED BY" ∷ "TAGS" ∷ "CREATED" ∷ "UPDATED" ∷ "DESCRIPTION" ∷ [])
          (map object_row objects)

    -- `ObjectsJSON`
    unfoldable pub objects_json : List ObjectMetadata → Op W (Unit {0})
    objects_json objects = wrapping (wrap "write list as json") (out.encode_objects objects)

    -- `AuditLogTable`
    unfoldable pub audit_log_table : List AuditLogEntry → Op W (Unit {0})
    unfolding table
    audit_log_table entries =
        table out "write audit-log header" "write audit-log row" "flush audit-log table"
          ("TIMESTAMP" ∷ "ACTION" ∷ "OBJECT ID" ∷ "CALLER" ∷ "IP" ∷ []) (map entry_row entries)

    -- `AuditLogJSON`
    unfoldable pub audit_log_json : List AuditLogEntry → Op W (Unit {0})
    audit_log_json entries = wrapping (wrap "write audit-log as json") (out.encode_entries entries)

    -- `ConsumersTable`
    unfoldable pub consumers_table : List Consumer → Op W (Unit {0})
    unfolding table
    consumers_table consumers =
        table out "write consumer header" "write consumer row" "flush consumer table"
          ("NAME" ∷ "SECRETS" ∷ "PUBLIC KEY" ∷ []) (map consumer_row consumers)

    -- `ConsumersJSON`
    unfoldable pub consumers_json : List Consumer → Op W (Unit {0})
    consumers_json consumers =
        wrapping (wrap "write consumers as json") (out.encode_consumers consumers)

    -- `OneConsumer`
    unfoldable pub one_consumer : Consumer → Bool → Op W (Unit {0})
    unfolding consumers_table
    one_consumer consumer as_json =
        if as_json
        then wrapping (wrap "write consumer as json") (out.encode_consumer consumer)
        else consumers_table (consumer ∷ [])

    -- `ConsumerTokensTable`
    unfoldable pub consumer_tokens_table : List ConsumerToken → Op W (Unit {0})
    unfolding table
    consumer_tokens_table tokens =
        table out "write token list header" "write token list row" "flush token list table"
          ("ID" ∷ "CONSUMER" ∷ "DESCRIPTION" ∷ "EXPIRES" ∷ "STATUS" ∷ []) (map token_row tokens)

    -- `ConsumerTokensJSON`
    unfoldable pub consumer_tokens_json : List ConsumerToken → Op W (Unit {0})
    consumer_tokens_json tokens =
        wrapping (wrap "write consumer tokens as json") (out.encode_tokens tokens)

    -- `ConsumerTokenWithValue`
    unfoldable pub consumer_token_with_value : ConsumerTokenWithValue → Bool → Op W (Unit {0})
    unfolding table
    consumer_token_with_value t as_json =
        if as_json
        then wrapping (wrap "write consumer token as json") (out.encode_token t)
        else table out "write consumer token header" "write consumer token row"
            "flush consumer token table"
            ("ID" ∷ "CONSUMER" ∷ "DESCRIPTION" ∷ "EXPIRES" ∷ "TOKEN" ∷ [])
            ((t.token.id
                ∷ t.token.consumer
                ∷ t.token.description
                ∷ format t.token.expires_at
                ∷ t.value
                ∷ [])
              ∷ [])
