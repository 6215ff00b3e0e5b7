-- ===== src/Server/Http/Consumers.antt =====
-- The consumer directory's handlers of internal/testserver/testserver.go.
use hush_hush_cli.Prelude.{String, Option, ok, ◌>>=◌, map_err, none}
use hush_hush_cli.Prelude.Text.{is_empty}
use hush_hush_cli.Server.Types.{StoreError, Store}
use hush_hush_cli.Server.Consumers.{
  ConsumersResult, plain, paged, panicked, add_consumer, update_consumer, delete_consumer,
  consumer_entry, list_consumers,
}
use hush_hush_cli.Server.Requests.{text, Query, parse_consumer_filter}
use hush_hush_cli.Server.Http.Defs.{
  UpdateConsumerRequest, Response, reply, aborted, consumer, name_list, consumer_page, empty,
  write_json, write_error,
}
use hush_hush_cli.Server.Http.Flow.{
  Answer, answer, ◌>>◌, refuse_if, decoded, malformed, bad_request,
}

abbrev pub listing : ConsumersResult → Response
listing (plain names) = write_json 200 (name_list names)
listing (paged page) = write_json 200 (consumer_page page)
listing panicked = aborted

-- `handleListConsumers`
unfoldable pub handle_list_consumers : Query → Store → Answer
unfolding parse_consumer_filter list_consumers
handle_list_consumers q s = answer s (do
  filter ← map_err bad_request (parse_consumer_filter q)
  ok (listing (list_consumers filter s), s))

abbrev name_required : Response
name_required = write_error 400 (text "name is required")

abbrev consumer_conflict : StoreError → Response
consumer_conflict e = write_error 409 (text "consumer already exists")

abbrev unknown_consumer : StoreError → Response
unknown_consumer e = write_error 404 (text "unknown consumer")

-- `handleAddConsumer`
unfoldable pub handle_add_consumer : Option String → Store → Answer
unfolding add_consumer consumer_entry
handle_add_consumer body s = answer s (do
  name ← decoded name_required body
  refuse_if (is_empty name) name_required
  t ← map_err consumer_conflict (add_consumer name s)
  ok (write_json 201 (consumer (consumer_entry name t)), t))

-- `handleUpdateConsumer`
unfoldable pub handle_update_consumer : String → Option UpdateConsumerRequest → Store → Answer
unfolding update_consumer
handle_update_consumer name body s = answer s (do
  req ← decoded malformed body
  (entry, t) ← map_err unknown_consumer (update_consumer name req.name req.public_key s)
  ok (write_json 200 (consumer entry), t))

-- `handleDeleteConsumer`
unfoldable pub handle_delete_consumer : String → Store → Answer
unfolding delete_consumer
handle_delete_consumer name s =
    answer s
      (do t ← map_err unknown_consumer (delete_consumer name s); ok (reply 204 empty none, t))
