-- ===== src/Lib.antt =====
-- A model of trace2receiver, a component of an OpenTelemetry collector that receives the Trace2
-- telemetry of Git commands and turns the events of each command into one dataset, from which
-- spans are exported. Paths are those of the repository.
--
-- The parts. A worker hands each line of a client to `processRawLine`. `evt_parse` (evt_parse.go)
-- reads the JSON object through the getters of jmap_get.go and fills a TrEvent; `evt_apply`
-- (evt_apply.go) looks the event up in a table and changes the dataset (trace2dataset.go), whose
-- threads have stacks of open regions. At the end of the stream `exportTraces` closes what is
-- open (`prepareDataset`), asks the filter (trace2ruleset.go) for the detail level and hands the spans
-- of `ToTraces` (trace2emitotlp.go) to the consumer. A receiver (rcvr_unixsocket.go on Unix,
-- rcvr_namedpipe.go on Windows) listens, starts a worker for each connection, and is stopped by
-- `Shutdown`; its configuration (config.go) is validated before it starts.
--
-- The files, with the code that each is about:
--   Common          Go's integers, slices, maps, strings, errors and panics
--   Runtime         what comes from outside the sources, as one record of functions
--   Json, Jmap      jmap_get.go: the values behind interface{}, the getters (`getRequiredString` is
--                   `get_required_string`)
--   Event           evt_parse.go: the event records, with Go's field names
--   Extract         evt_parse.go: `extract_keys__*` (`extract_keys__atexit` is `extract_keys_atexit`)
--   Parse, Lines    evt_parse.go: the table, `parse_json`, `evt_parse` (Parse/Line); what becomes of a
--                   line
--   Dataset         trace2dataset.go: the records and the stack of regions
--   Apply           evt_apply.go: `apply__*`, the table, `evt_apply`, the display names; and
--                   `processRawLine` of evt_parse.go, reject_client.go, trace2sids.go
--   Nesting         the invariant of the stacks, for every handler
--   Linked          the invariant of the parents of spans, for every handler and `prepareDataset`
--   Privacy         the personal data and the handlers
--   NilSafe         what each extractor fills, and what each handler reads of it
--   Errors          the errors of the handlers
--   Prepare         trace2dataset.go: `prepareDataset`, the qualified names, `exportTraces`
--   Filter          fsdetaillevel.go, filter_settings.go, ruleset_definition.go, parse_yml.go,
--                   trace2ruleset.go
--   Emit            trace2emitotlp.go, trace2semconv.go (`Trace2CmdSid` is `trace2_cmd_sid`); the
--                   parents of the spans; what each level lets out
--   Version         version.go
--   Pii, Config     pii.go, `pii_gather` of platform_*.go, config.go, `createDefaultConfig`
--   Worker          `worker` of the receivers, `exportTraces` as a whole
--   Socket          rcvr_unixsocket.go: `Start`, `Shutdown`, and `listenLoop` as steps in any order
--   Pipe            rcvr_namedpipe.go: `Start`, `Shutdown`, `makeSDDL`, the pool of `listenLoop`
--   Tests           concrete inputs
--
-- How the code is read. The dataset is passed and returned; a handler returns the dataset and its
-- error, or a panic, since nothing in the program recovers from one. A pointer that may be nil is
-- an Option, and following nil is the panic `nil_deref`; an index out of range and a failed type
-- assertion are panics too. The pointer that `lookupThread` returns is read and then written back
-- by `store_thread` under the same name. A Go map is an association list; where the code ranges
-- over one, the model takes the list's order, which Go leaves open. An int64 is an integer whose
-- sums and differences are wrapped to 64 bits. Time is a number of nanoseconds, 0 for Go's zero
-- time. The loop of `popAllRegionStack` has the length of the stack as its fuel, which is enough,
-- since each step removes one region; the digits of a number have the number itself as their fuel,
-- which each step divides by ten. All other recursion is on the structure of the data.
--
-- A connection is the list of its complete lines and the way in which it ends; what stands behind
-- the last line break is dropped by the code. A receiver is a state with a step for each critical
-- section, each case of a `select` and each result of an accept; the steps of its goroutines, of
-- the collector and of other processes come in any order. The loops of the receivers need no fuel,
-- since a turn of a loop is a step of its own.
--
-- Parameters, since their code is not in the repository: the JSON decoder and encoder, the time
-- parser, the conversions of float64, SHA-256, the random generator, lower case; the YAML decoder
-- and the reading of files; filepath on Windows; the names of host and user; listen, lstat and
-- accept; the packages `windows` and `go-winio`; pdata, the keys of semconv, the build information.
-- No law of them is assumed but one, of ListenPipe, by the theorem on the start of a named pipe
-- receiver: it gives a listener exactly where it gives no error.
--
-- Not modelled: logging; the thread of a worker that closes the connection when the collector
-- stops, which shows as a stream that ends as closed; the error of ConsumeTraces, which is only
-- logged; the system calls behind getPeerUsername (unixsocket_darwin.go, unixsocket_linux.go);
-- chmod of the socket; the registration of the component (`NewFactory`, `createTraces`); the
-- vendored internal/go-winio. Paths of commands are read as on Unix.
mod Common
pub mod Runtime
pub mod Json
pub mod Jmap
pub mod Event
pub mod Extract
pub mod Parse
pub mod Dataset
pub mod Apply
pub mod Nesting
pub mod Linked
pub mod NilSafe
pub mod Lines
pub mod Errors
pub mod Prepare
pub mod Filter
pub mod Version
pub mod Privacy
pub mod Emit
pub mod Pii
pub mod Config
pub mod Worker
pub mod Socket
pub mod Pipe
pub mod Tests
