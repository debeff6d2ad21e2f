-- ===== src/Lib.antt =====
-- The SRE root-cause analysis service (umodel-sre-rca, Go): alerts become incidents, workers
-- investigate them with evidence from the cloud and a model, and the result is stored and shown.
--
-- The parts, and how they interact:
--
-- * internal/domain/incident.go is Domain: the records and their constructors.
-- * internal/store/sqlite.go is Store. Store.Tables holds the four tables (Db) and the SQL
--   statements, Store.Intake, Store.Claims, Store.Settlement and Store.Records the operations of the
--   repository, each under the Go method's name in snake case. An operation is a Tx: a function of
--   the tables that fails with an error or gives a value and the new tables. A failing transaction
--   leaves the tables alone (settle, run). Store.Moves says how an incident and a job may change,
--   Store.Keeps what a well-formed database is (IsValid) and which steps are allowed (Step);
--   Store.Invariant proves that every operation takes only those, for any sequence of them (Op,
--   apply_all). Store.Leases is about ClaimNext and the claims that it hands out, Store.Marking
--   about MarkInvestigatingForClaim, Store.Repeats about CreateOrGetIncident, Store.Recovery about
--   Recover and Store.Opens about stored evidence. Store.Holds, Store.Progress, Store.Carding,
--   Store.Requeue and Store.Closing follow one claim from ClaimNext to the end of its job.
--   Store.Migration is Open, on a file whose statements the driver may refuse; Store.Opened and
--   Store.Upgrades say what it leaves.
-- * Schedule is the database as several processes share it. Each call of the repository is atomic;
--   before it, others may run any operations, and it may fail without effect. Both are the world's
--   list of turns, and a call beyond its end is undisturbed. CreateOrGetIncident and
--   MarkInvestigatingForClaim run two statements without a transaction; here each is one call, so
--   nothing comes between the two. Theorems for every world hold for every interleaving of calls and
--   every choice of failing ones. A call that takes effect and is then reported as failed is not
--   among the turns.
-- * internal/inbound/cloudmonitor_event.go is Inbound, and the handler of internal/httpapi/server.go
--   is Gateway: a callback creates an incident and queues its job, or recovers incidents.
--   Gateway.Server has the routes. Gateway.Delivered follows an alert from its callback through the
--   next poll of a worker.
-- * internal/inbound/cloudmonitor.go is Inbound.Capture: it redacts a callback and stores it. Json has
--   the values that encoding/json gives.
-- * internal/worker/worker.go is Worker: Worker.Run has RunOne, which claims one job, makes the card,
--   collects evidence, has it analysed, and completes, puts off, retries or fails the job. Worker.Loop
--   is the polling loop of cmd/sre-worker/main.go, over the ticks and the end of its context.
--   Worker.Starts follows RunOne to the start of an investigation, Worker.Completes from there on if
--   every service answers, Worker.Breaks and Worker.Strands if one fails, and Worker.Retries the
--   polls after that.
-- * internal/cc/runner.go is Analysis: the tests of identifiers, forms and results, the buffer for the
--   child's output, and in Analysis.Runner the prompt, the child's command and Run.
-- * internal/evidence is Evidence: the reviewed bindings and the queries by them. Evidence.Unordered
--   and Evidence.Reordered are about the order of the bindings, Evidence.TextOrder about that of texts.
-- * internal/provider is Provider: the request builders (Requests), Resolve and the evidence that it
--   makes (Resolve, Summary), and the client with its allowlist (Client). Provider.Sdk is how the
--   clients of the SDK and, by internal/aliyunauth, their credential are made. Provider.Asks is about the
--   requests that Resolve makes, Provider.Served about their way through the client, Provider.Queries
--   about the text of the queries, Provider.LogRequests about the request for the logs,
--   Provider.Numbers about the greatest and the least value of a metric.
-- * internal/feishu/client.go is Feishu.
-- * internal/config/config.go and internal/runtime/incident_source.go are Config.
-- * internal/runtime/evidence.go and the start-up of cmd/sre-worker are Launch, and the run of
--   cmd/sre-gateway is Launch.Serving: which requests come, and how ListenAndServe and Shutdown end,
--   are its events, and a request is handled whole before the next.
-- * internal/modelsync is Modelsync: plans of upserts, the writer's checks (Writer), the log groups
--   that it sends (Logs), LoadConfig and Upsert (Sync) and the inspections (Inspect). Modelsync.Run is cmd/sre-sync/main.go.
-- * cmd/sre-evidence/main.go is Command; Command.Prints follows evidence from StoreEvidence to stdout.
-- * Common holds the shared names: Go's error results, tables as lists with SELECT and UPDATE, and
--   their laws. Scenarios has concrete runs, and each theorem at one of them.
--
-- How values are modelled: times are whole Unix seconds, as the tables hold them, and those of
-- incidents and jobs are not before 1970. Random identifiers are arguments of the functions that draw
-- them. A confidence counts units of 2^-1074, of which every finite float64 is a whole number. An
-- error is the sentinel that errors.Is finds in it, or a text without what fmt.Errorf quotes. A Go
-- map is a list of its entries. All functions are by structural recursion; there is no fuel.
--
-- Parameters: encoding/json, net/http, time.Parse and time's formats, fmt's formatting of numbers,
-- strconv, the YAML decoder, MD5 and SHA-256, the arithmetic of float64, the SDK of the cloud, the
-- errors of the file system, and the model's process. Not modelled: the SQLite driver, net/http's
-- handling of connections, how the model's process is started and killed, the endpoint of the log
-- protocol's client, the parsing of flags, signals and tickers.
mod Common
pub mod Domain
pub mod Store
pub mod Analysis
pub mod Schedule
pub mod Text
pub mod Evidence
pub mod Config
pub mod Provider
pub mod Json
pub mod Feishu
pub mod Modelsync
pub mod Command
pub mod Inbound
pub mod Gateway
pub mod Worker
pub mod Launch
mod Scenarios
