-- ===== src/Cmd/Printed/Complete.antt =====
-- The listing of consumers from the command line to the server's directory and back to the stream.
use hush_hush_cli.Prelude.{
  ℕ, String, ◌≡◌, refl, ap, true, false, some, List, [], ◌∷◌, map, length, ◌<◌, ◌*◌, ok,
}
use hush_hush_cli.Prelude.Int.{ℤ}
use hush_hush_cli.Server.Types.{Time, Store}
use hush_hush_cli.Server.Consumers
use hush_hush_cli.Server.Consumers.{ConsumerFilter, ConsumersPage, matching, sorted_names, paged}
use hush_hush_cli.Client.Calls.{unless_empty}
use hush_hush_cli.Client.Consumers.{page}
use hush_hush_cli.Client.Consumers.Complete.{shown, list_consumers_complete}
use hush_hush_cli.Client.Remote.{Remote}
use hush_hush_cli.Cli.Config.{Config}
use hush_hush_cli.Cli.Client.{config_client}
use hush_hush_cli.Cli.Commands
use hush_hush_cli.Render.{Out, row_text}
use hush_hush_cli.Render.Tables.{consumer_row, consumers_table}
use hush_hush_cli.Render.Tables.Rows.{keep_all, table-rows}
use hush_hush_cli.Cmd.{Settings, App}
use hush_hush_cli.Cmd.Config.{config}
use hush_hush_cli.Cmd.Directory.{consumer_list}
use hush_hush_cli.Cmd.Printed.{print_consumer_list}

abbrev pub consumer_header : List String
consumer_header = "NAME" ∷ "SECRETS" ∷ "PUBLIC KEY" ∷ []

module _ {ℓ} {W : Type ℓ} (format : Time → String) (decimal : ℤ → String) (out : Out W)
    (app : App W) (v : Settings) (keep : String → W → W)
    (takes : (text : String) (w : W) → out.tab_write text w ≡ (ok tt, keep text w))
    (flushes : (w : W) → out.tab_flush w ≡ (ok tt, w)) (w w1 : W) (cfg : Config)
    (configured : config app v true w ≡ (ok cfg, w1)) (remote : Remote W)
    (builds : config_client app.build cfg ≡ ok remote) (s : Store) (query : String)
    (forwards : (f : ConsumerFilter) (p : ConsumersPage)
      → Consumers.list_consumers f s ≡ paged p
      → remote.directory.list_consumers f w1 ≡ (ok (page p), w1))
    (small : length (matching (unless_empty query) (sorted_names s)) < 2147483648) where
  listed :
      (fuel : ℕ)
      → length (matching (unless_empty query) (sorted_names s)) < fuel * 100
      → consumer_list app v fuel query w
        ≡ some (ok (shown s (matching (unless_empty query) (sorted_names s))), w1)
  unfolding consumer_list Commands.list_consumers
  listed fuel enough =
      rw
        (
          configured,
          builds,
          list_consumers_complete remote.directory.list_consumers w1 s query forwards small fuel
              enough,
        )
        refl

  -- Where the settings make a configuration and a client can be built for it, the SDK forwards each request to
  -- the server's directory, the stream takes every write, and fewer than 2^31 names match the query, `consumer
  -- list` with fuel for more requests than the hundreds of those names ends well, and has printed the header and
  -- one row for each consumer that matches, in the order of the names.
  pub print_consumer_list_complete :
      (fuel : ℕ)
      → length (matching (unless_empty query) (sorted_names s)) < fuel * 100
      → print_consumer_list format decimal out app v false fuel query w
        ≡ some (
          ok tt,
          keep_all keep
              (map row_text (
                consumer_header
                ∷ map
                    (consumer_row format decimal)
                    (shown s (matching (unless_empty query) (sorted_names s)))))
              w1,
        )
  unfolding print_consumer_list consumers_table
  print_consumer_list_complete fuel enough = rw (listed fuel enough) (
      ap some (
        table-rows out keep takes flushes "write consumer header" "write consumer row"
          "flush consumer table" consumer_header
          (map (consumer_row format decimal)
            (shown s (matching (unless_empty query) (sorted_names s))))
          w1))
