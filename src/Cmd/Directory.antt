-- ===== src/Cmd/Directory.antt =====
-- The commands of internal/cmd/consumer.go, each up to what it prints.
use hush_hush_cli.Prelude.{ℕ, String, true, not, ◌&&◌, Option, is_some, List, if◌then◌else◌}
use hush_hush_cli.Client.Errors.{wrap, sentinel, consumer_update_nothing}
use hush_hush_cli.Client.Op.{Op, ◌>>=◌, failed, wrapping}
use hush_hush_cli.Client.Consumers.{Consumer}
use hush_hush_cli.Cli.Commands.{Paged, wrapping_pages}
use hush_hush_cli.Cmd.Lists.{paged}
use hush_hush_cli.Cli.Commands
use hush_hush_cli.Cmd.{Settings, App}
use hush_hush_cli.Cmd.Config.{config}

module _ {ℓ} {W : Type ℓ} (app : App W) (v : Settings) where
  -- The `RunE` of `newConsumerAddCmd`
  unfoldable pub consumer_add : String → Op W Consumer
  unfolding config Commands.add_consumer
  consumer_add name = config app v true >>= λ cfg.
      wrapping (wrap "consumer add") (Commands.add_consumer app.build cfg name)

  -- The `RunE` of `newConsumerDeleteCmd`
  unfoldable pub consumer_delete : String → Op W (Unit {0})
  unfolding config Commands.delete_consumer
  consumer_delete name = config app v true >>= λ cfg.
      wrapping (wrap "consumer delete") (Commands.delete_consumer app.build cfg name)

  -- The `RunE` of `newConsumerUpdateCmd`: a name and a key that are given or not.
  unfoldable pub consumer_update : String → Option String → Option String → Op W Consumer
  unfolding config Commands.update_consumer
  consumer_update name new_name public_key =
      if not (is_some new_name) && not (is_some public_key)
      then failed (sentinel consumer_update_nothing)
      else (config app v true >>= λ cfg.
          wrapping (wrap "consumer update")
            (Commands.update_consumer app.build cfg name new_name public_key))

  -- The `RunE` of `newConsumerListCmd`, with fuel for the pages.
  unfoldable pub consumer_list : ℕ → String → Paged W (List Consumer)
  unfolding config Commands.list_consumers
  consumer_list fuel query w = paged (config app v true w) (λ cfg.
      wrapping_pages (wrap "consumer list") (Commands.list_consumers app.build fuel cfg query))
