-- ===== src/Lib.antt =====
-- DuckDB load testing toolkit: a model of the Go sidecar (sidecar-go) and what it does right.
--
-- The sidecar takes events of a load test over HTTP, keeps them in a buffer, flushes the buffer to a
-- DuckDB table, and shows live statistics. The analysis reads runs back from the table, compares
-- them, explains what got slower, and the performance gate turns two runs and a policy into a
-- verdict and an exit code.
--
-- - Prelude: shared names, tests, lists, integers (`ℤ` for Go's int and int64), maps
--   (`Dict`), `(value, error)` results, sorting, and what a rearrangement keeps.
-- - Float: `float64` as a parameter. A theorem that needs the order of floats takes `IsOrdered`;
--   one that needs the index of a percentile to be in range takes `IsIndexing`. Float/Milli is an
--   instance in which both hold, for the runs of Tests.
-- - Policy: sidecar-go/analysis/policy/policy.go. `parse` and `load` are Parse and Load,
--   `effective_metric_policy` is EffectiveMetricPolicy; a nil pointer is `none`.
-- - Analysis: sidecar-go/analysis. Endpoint is endpoint.go, Bottleneck bottleneck.go, Comparator
--   comparator.go, Regression regression.go, Explain explain.go. Database holds the answers of
--   DuckDB to the queries of the catalog: the SQL is not modelled.
-- - Gate: sidecar-go/analysis/gate. Findings and Checks are the checks of one endpoint, Build is
--   `build`, Evaluation is `Evaluate`, Report has ExitCode and Report/Human FormatHuman; the other
--   files hold proofs.
-- - Event: sidecar-go/models/event.go.
-- - Storage: sidecar-go/storage/duckdb.go. Flush has Flush and writeBatch, in the pieces between
--   which the lock is free, so that events may come in while a batch is written. The file system and
--   DuckDB are the record `Outside`. S3 is sidecar-go/storage/s3.go, over the AWS SDK.
-- - Realtime: sidecar-go/realtime/hub.go. Hub has the map of clients, their channels and the rounds
--   of Run, in any order of what it receives; the order in which a broadcast runs over the map is
--   that of a list, and decides only the order of `dropping`. Sort has the helper functions, Stats the
--   state with RecordEvent, calculatePercentiles and sendStats; the clock is an argument. The int64
--   counters wrap around. Client is realtime/client.go: the pump that writes to one socket, with what
--   the socket answers and what the hub does meanwhile as steps.
-- - Handlers: sidecar-go/handlers/handlers.go over the interfaces of interfaces.go, which the record
--   `Store` is; DuckDb fills it with Storage. Ingest has the handlers themselves.
-- - Orchestrator: sidecar-go/orchestrator/controller.go. Pods has RegisterPod, UnregisterPod and
--   HealthCheckAll, whose goroutines run one after the other, and Flush has FlushAll, which runs
--   likewise, and GetStats; Runs has StartRun, EndRun and GetRun; Wait has WaitForCompletion, over
--   the rounds that its deadline leaves time for.
-- - Queries: sidecar-go/analysis/queries and analysis/validator. Text has what the catalog uses of
--   Go's strings, unicode and bufio; Header has parse, Catalog has init, Get, MustGet and All, and
--   Validator has validator.go over what DuckDB answers. The order in which All meets the map is that
--   of a list, before it sorts. RoundTrip writes a query file, which no code of the program does.
-- - Handlers/Analysis: sidecar-go/handlers/analysis_handlers.go. Engine sets its gate beside the
--   command.
-- - Duckload: sidecar-go/cmd/duckload/main.go. Duckload itself has `duckload gate` from its flags to
--   its exit code, Args has parseArgs and the part of Go's flag package that it relies on, Commands
--   has the other subcommands and main. What they print is given to parameters.
-- - Server: sidecar-go/main.go up to its goroutines and with its background flusher, and the handlers
--   that sidecar-go/server/server.go routes to, one action after the other.
-- - Tests: the results at a concrete input.
--
-- The loops of the code run over lists, and so do those of the model. The only fuel is that of the
-- decimal form of an integer, n + 1 for the number n, which has fewer digits than that.
-- Timestamps, counts of rows and sums of counts outside the hub are integers without bounds, as the
-- code never comes near 2^63 with them. Error messages are kept as their format and arguments.
--
-- Not modelled: the capacity of the hub's own channels and its ticker; the limits and deadlines of a
-- socket; the AWS SDK, DuckDB and the router, which are libraries; HandleDownload, which serves a
-- file; requests that run while a flush does, but for the events that Storage/History lets come in;
-- flushes of the store that overlap each other; pods that are unregistered while a call of the
-- orchestrator runs over them; the test data and drivers of analysis/fixtures and test/e2e.
pub mod Prelude
pub mod Float
pub mod Policy
pub mod Analysis
pub mod Gate
pub mod Queries
pub mod Realtime
pub mod Event
pub mod Storage
pub mod Handlers
pub mod Orchestrator
pub mod Duckload
pub mod Server
pub mod Tests
