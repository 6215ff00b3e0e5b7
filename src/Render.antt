-- ===== src/Render.antt =====
-- internal/render: what the commands print. A table goes through text/tabwriter and JSON through encoding/json:
-- both are operations of `Out`, as is writing to the stream. Where the source replaces a nil slice by an empty
-- one nothing is to be done: they are one list.
pub mod Tables
use Prim.Native.String.{◌++◌}
use hush_hush_cli.Prelude.{ℕ, String, Bool, Option, none, some, List, [], ◌∷◌, if◌then◌else◌}
use hush_hush_cli.Prelude.Int.{ℤ}
use hush_hush_cli.Server.Types.{Time, AuditLogEntry}
use hush_hush_cli.Server.Tokens.{ConsumerToken}
use hush_hush_cli.Client.Errors.{wrap}
use hush_hush_cli.Client.Op.{Op, ◌>>=◌, done, wrapping}
use hush_hush_cli.Client.Calls.{ObjectMetadata, Health}
use hush_hush_cli.Client.Consumers.{Consumer}
use hush_hush_cli.Client.TokenCalls.{ConsumerTokenWithValue}

pub record Out {ℓ} (W : Type ℓ) : Type ℓ where
  -- A write to the stream, a write to a table, and the table's flush.
  pub write : String → Op W (Unit {0})
  pub tab_write : String → Op W (Unit {0})
  pub tab_flush : Op W (Unit {0})
  -- `json.NewEncoder(out).Encode` of what the commands print.
  pub encode_entries : List AuditLogEntry → Op W (Unit {0})
  pub encode_objects : List ObjectMetadata → Op W (Unit {0})
  pub encode_names : List String → Op W (Unit {0})
  pub encode_health : Health → Op W (Unit {0})
  pub encode_status : Bool → Op W (Unit {0})
  pub encode_consumer : Consumer → Op W (Unit {0})
  pub encode_consumers : List Consumer → Op W (Unit {0})
  pub encode_tokens : List ConsumerToken → Op W (Unit {0})
  pub encode_token : ConsumerTokenWithValue → Op W (Unit {0})

-- A row of cells, which the table takes separated by tabs.
abbrev pub row_text : List String → String
row_text [] = "\n"
row_text (cell ∷ []) = cell ++ "\n"
row_text (cell ∷ (next ∷ cells)) = cell ++ "\t" ++ row_text (next ∷ cells)

-- `strings.Join(xs, ",")`
unfoldable pub join_comma : List String → String
join_comma [] = ""
join_comma (x ∷ []) = x
join_comma (x ∷ (y ∷ xs)) = x ++ "," ++ join_comma (y ∷ xs)

abbrev pub or_dash : Option String → String
or_dash none = "-"
or_dash (some text) = text

module _ {ℓ} {W : Type ℓ} (out : Out W) where
  -- The rows of a table, one after another.
  unfoldable pub write_rows : String → List (List String) → Op W (Unit {0})
  write_rows failure [] = done tt
  write_rows failure (cells ∷ rows) =
      wrapping (wrap failure) (out.tab_write (row_text cells)) >>= λ written.
      write_rows failure rows

  -- A header, the rows and the flush, with the errors of each.
  unfoldable pub table :
      String → String → String → List String → List (List String) → Op W (Unit {0})
  unfolding write_rows
  table header_failure row_failure flush_failure header rows =
      wrapping (wrap header_failure) (out.tab_write (row_text header)) >>= λ headed.
      write_rows row_failure rows >>= λ written. wrapping (wrap flush_failure) out.tab_flush

  -- `UsedByLines`
  unfoldable pub used_by_lines : List String → Op W (Unit {0})
  used_by_lines [] = done tt
  used_by_lines (consumer ∷ consumers) =
      wrapping (wrap "write used-by line") (out.write (consumer ++ "\n")) >>= λ written.
      used_by_lines consumers

  -- `UsedByJSON`
  unfoldable pub used_by_json : List String → Op W (Unit {0})
  used_by_json used_by = wrapping (wrap "write used-by as json") (out.encode_names used_by)

  -- The line of the environment, where there is one.
  abbrev environment_line : Option String → Op W (Unit {0})
  environment_line none = done tt
  environment_line (some label) =
      wrapping (wrap "write health") (out.write ("environment: " ++ label ++ "\n"))

  -- `HealthText`
  unfoldable pub health_text : Health → Op W (Unit {0})
  health_text h =
      wrapping (wrap "write health") (out.write ("status: " ++ h.status ++ "\n")) >>= λ written.
      environment_line h.environment

  -- `HealthJSON`
  unfoldable pub health_json : Health → Op W (Unit {0})
  health_json h = wrapping (wrap "write health as json") (out.encode_health h)

  -- `StatusJSON`
  unfoldable pub status_json : Bool → Op W (Unit {0})
  status_json bootstrapped = wrapping (wrap "write status as json") (out.encode_status bootstrapped)
