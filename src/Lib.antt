-- ===== src/Lib.antt =====
-- hush-hush-cli seals secrets locally and keeps them on a hush-hush server. Its repository has the
-- client (internal/client over the hush-hush-go SDK), the commands (internal/cli, internal/cmd,
-- internal/cliconfig), and internal/testserver, an in-memory server with the contract of the real
-- one, which the tests run against. This library models the server, the client, and the commands with
-- what they print.
--
-- Server, of internal/testserver/testserver.go:
--   Server/Types: `Store`, the objects, tokens and log entries in it, and its sentinel errors.
--   Server/Objects: the object methods. A name has a first object in `objects` and further variants in
--     `extra`; `find` is findLocked, `variants` and `store_variants` read and write both maps.
--     Objects/Variants and Objects/Lookup have the theorems, Objects/Owned the maps' invariant.
--     Objects/Catalogue is the abstract view, each name with its variants in order, and the same calls on
--     it; Catalogue/Refined compares the two.
--   Server/Consumers: the directory; `update_consumer` renames and merges, `list_consumers` pages.
--   Server/Tokens: write tokens and consumer tokens. Tokens/Indexed is the invariant between records and
--     values, Tokens/Lifetime what a value opens, and until when.
--   Server/Audit: the log and its query; Audit/Pages is its order.
--   Server/Requests, Server/Listing: what is read from a request, and the listing of objects.
--   Server/Http: a handler is a chain in `Flow` whose error is the early answer; `Mux.serve` is newMux
--     with the check of requireWriteToken. Access, Reading, Created, Preserves and Answers have the
--     theorems.
--   Server/Invariant: the invariant of the whole store, through each method; Invariant/Objects has those
--     on objects.
--   Server/Shortcuts, Server/Steps: the methods that fix arguments of others, `New`, and the server as a
--     step relation: requests, and the calls that a test makes on the store.
-- Client, of internal/client:
--   Client/Errors: mapError, mapConsumerError and mapConsumerTokenIDError over SDK errors.
--   Client/AuditLog: QueryAuditLog. The SDK is a parameter, a function of the request and of a world; in
--     AuditLog/Transparent it is one that forwards to the server's log.
--   Client/Op, Client/Calls, Client/Reads: calls in sequence over a world, and those on objects and keys, of
--     a record of SDK functions. Client/Consumers: ListConsumers, in Consumers/Complete over an SDK
--     that forwards to the server's directory. Client/Directory, Client/TokenCalls: the other calls on
--     consumers and tokens. Client/Tokens: the state derived for tokens of older servers.
--     Client/Remote: New, with all the SDK's calls as one record.
--   Client/Seal: internal/seal, over the age library's functions as parameters; Seal/Opened has Seal and
--     then Unseal.
-- Commands, of internal/cli, internal/cliconfig, internal/render, internal/cmd and
-- cmd/hush-hush-cli:
--   Cli/Config, Cli/Client: Validate, readError and newClient. Cli/Options: WriteOption. Cli/Write: Inject,
--     Update and Edit, with the theorems in Write/Sealed and Write/Calm. Cli/Read: Get, by the
--     server's reply in Read/Fetched, and in Read/RoundTrip after an Inject. Cli/Flags: flags read as filters and lifetimes. Cli/Commands: the calls passed on.
--   Cliconfig: the operations on the surroundings as an interface `Io`. Cliconfig/Prompt: the questions.
--     Cliconfig/Secret: PersistCredential, ResolveSecret and keyring-get. Cliconfig/Render: the file's text.
--     Cliconfig/Setup: WriteStarter, WriteInteractive and OfferInit.
--   Cmd/Config: config. Cmd/Flags: flags and the options they become. Cmd/Objects, Cmd/Lists, Cmd/Directory
--     and Cmd/Tokens: the RunE of each command up to what it prints; Cmd/Printed: with it, and
--     Printed/Complete from a command to the server. Render: the tables and JSON of internal/render, over
--     an interface `Out` to the stream. Cmd/Init: init and the offer before a command. Cmd/Tree:
--     the commands as they are declared, with Tree/Sound over all of them. Main: run.
-- Session puts the commands, the client and the server together: `Hosting` is the server between two calls,
--   and `Forwards` what is relied on of the SDK's client with a credential. Session/Success,
--   Session/Stored, Session/Updated, Session/Renamed and Session/Removed invert an answer of success,
--   and Session/Rejected follows a rejection; Session/Picked is on the options that pick a variant;
--   Session/Shared, Session/Foreign, Session/Resealed, Session/Edited, Session/Deleted,
--   Session/Revoked and Session/Rotated follow an operator and a reader.
-- Examples has runs at concrete stores.
--
-- A method holds the store's mutex throughout, so it is one step from store to store. The clock, the
-- drawn UUIDs and suffixes, the UUID of a slug and time.Parse are arguments. Instants are numbers of
-- nanoseconds. A map is a list of entries, whose laws are those of lookup. A decoded body is `none` where
-- JSON decoding fails. `int32` arithmetic in the paging of consumers and the product of a TTL
-- wrap around. Lower case is exact where it is ASCII, and other letters stay themselves.
-- The paging of the audit log is on fuel, one unit for each request; more units than the log has entries
-- are enough, because each full page moves the cursor past one entry at least. The paging of consumers
-- is on fuel in the same way; one unit for each hundred names that match, and one more, is enough.
--
-- Where a flag's being given matters it is an option, `none` where it is not given. A command is the RunE of
-- the source over its flags' values and viper's settings. A masked read is a text. The clock of a command is
-- one argument.
--
-- Not modelled: path matching and JSON (net/http, encoding/json), what cobra and viper make of a declared
-- command and its flags, the man command, the layout of columns (text/tabwriter), signals, and encryption
-- itself, which is the age library's.
pub mod Prelude
pub mod Server
pub mod Client
pub mod Cli
pub mod Cliconfig
pub mod Render
pub mod Cmd
pub mod Main
pub mod Session
pub mod Examples
