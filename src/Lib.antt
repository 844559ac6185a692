-- ===== src/Lib.antt =====
-- The proxy in front of self-hosted model servers: it queues requests for the slots of an endpoint, wakes
-- the machine that serves it, and powers it off when it is idle or its schedule says so.
--
-- Parts, with the code that each file is about:
-- * Queue (relay/queue.py, `EndpointQueue`): Queue/State has the records, Queue/Admission how requests come
--   in, are promoted and end (`get_or_create_session`, `enqueue`, `_eligible`, `_try_promote`, `abandon`,
--   `release`), Queue/Lifecycle the statuses, deadlines and `tick`, Queue/Wait the polling of
--   `wait_for_slot`. Queue/Invariant states when a queue is well formed, Queue/Promotion and
--   Queue/Validity/* carry that through each operation, Queue/Runs through every interleaving.
--   Queue/Order, Queue/Running, Queue/Accounting, Queue/Deadlines and Queue/Orphan are about single
--   guarantees. Tracker is `UnknownTracker`.
-- * Power (relay/power): the backend as an interface (Power/Backend), the scripted one (Power/Noop), the
--   calls to a BMC with their retries (Power/Bmc) and Redfish (Power/Redfish); Power/Retries has the lemmas.
-- * Server (relay/servers.py, `ServerRuntime`): Server/Runtime has the state and the power actions,
--   Server/Shutdown the shutdown engine, Server/Events everything that happens to a server as steps. The
--   others prove: Server/Safety, Server/Schedule, Server/Deferral, Server/Frames, Server/Cooldown,
--   Server/Ownership; Server/Mirror and Server/Restart relate the state to its row in the store.
-- * Store (relay/store.py, relay/db.py): Store/Buffer is the staging of request records and the degraded mode,
--   Store/Tables the rows and the writes to them, Store/Queries what is read, Store/Retention `prune`.
--   Store/Pruned, Store/Sessions and Store/Reconcile are about single operations, Store/Persisted follows the
--   row of a server, and Store/Mirrored takes it through the database from one startup to the next.
-- * Clients (relay/clients.py): detection (Clients/Detect), the poller of a client's status
--   (Clients/Poller), the spot that a sub-agent shares (Clients/Sharing, with Clients/Ancestors); Clients/Blocked
--   proves what the poll of the pending requests reports.
-- * Transport/Http (relay/transport/http.py): `forward_request` and its stream.
-- * Identity and Routing (relay/endpoints.py): the session of a request, and the endpoint of a path.
-- * Endpoint (relay/endpoints.py, `EndpointRuntime`): readiness and wake (Endpoint/Readiness), admission
--   (Endpoint/Admission), the admission of a WebSocket (Endpoint/Tunnel) and its spot (Endpoint/Socket), the polls of
--   the queue manager (Endpoint/Polling) and its whole tick (Endpoint/Manager); Endpoint/Gates with
--   Endpoint/Settled, Endpoint/Surrender with Endpoint/Freed, and Endpoint/Managed with Endpoint/Polled prove.
-- * Config (relay/config.py, relay/models.py): Config/Node is a parsed document, Config/Result the errors as
--   values, Config/Fields the helpers `_get_str` to `_get_float`, Config/Models the dataclasses,
--   Config/Sections, Config/Power and Config/Build the builders up to `_build`, Config/Environ
--   `_load_env_files`, Config/Interpolate `_interpolate`, Config/Load `load_config`. Config/Rules states when
--   a configuration is valid and Config/Valid/* carries that through the builders; Config/Pieces,
--   Config/References and Config/Settled are about the interpolation, Config/Mistakes about what is accepted by mistake.
-- * App (relay/main.py): `RelayApp` with `setup` (App/Setup), the state that the handlers share (App/Relay),
--   `proxy` and `ws_proxy` (App/Dispatch), the actions of the monitor and `healthz` (App/Actions). App/Wiring
--   and App/Wired follow the loops of `setup`, App/Handled the dispatch with App/Adoption, App/Effects and App/Health the
--   actions.
-- An endpoint admits a request by its queue, wakes its server while requests wait, and reports to the server
-- that its service is ready; the server asks its endpoints for activity before it powers off.
-- Tests/* apply the theorems at concrete inputs; Prelude has what the parts share.
--
-- How the code is rendered. A method is a function from the state and what it reads from outside (clocks,
-- fresh identifiers, answers of the network) to the new state; a call of the store is an entry of the
-- journal. Shared objects live on a heap, by reference. Code between two `await`s is one step; what other
-- tasks do at an `await` is a relation on steps (Queue/Runs) or a function argument (Endpoint). Times are
-- milliseconds, where the code has floating seconds; a difference `a - b >= c` is written `b + c <= a`.
-- Fuel: `_try_promote` has as many rounds as entries wait, since each round removes one, and
-- `promote_loop_done` proves that none is left that may run; for the digits of a number `digits_enough`
-- proves it. A table is pruned in no more batches than it has rows, since each but the last deletes one.
-- `str.lower`, the format of an attempt count, the `repr` of a JSON list, the cron library, the HTTP library,
-- the YAML parser, dotenv and the file system are parameters; so is, of the database, how a write ends and which
-- rows a `DELETE` with a limit takes. A table is a list of rows, or a dictionary if it has a key. A document is what the parser
-- returns, with texts for the keys of its mappings. The floats of the configuration are a type of their own
-- with the comparison and the conversion that the loader asks for; what is proved of the bounds assumes only
-- that the literals in the code compare as the numbers they stand for.
-- A Python object that several parts refer to is, in App, the entry of a dictionary under its name.
--
-- Not modelled: the rows and pages of the monitor, the opening of the database and its migrations, the frames of a
-- WebSocket, the start and the stop of the application, logging, and the endless loops around the ticks. The calls of
-- the store and of the power backend by a server do not raise in the model of the server.
pub mod Prelude
pub mod Queue
pub mod Power
pub mod Server
pub mod Clients
pub mod Identity
pub mod Endpoint
pub mod Store
pub mod Tracker
pub mod Transport
pub mod Routing
pub mod Tests
pub mod Config
pub mod App
