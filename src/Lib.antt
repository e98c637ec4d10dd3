-- ===== src/Lib.antt =====
-- A model of botwork's session and authorisation core, with the theorems that make it correct.
--
-- botwork runs each tenant's plugins in containers. session-broker spawns them through the launcher,
-- records them in the database and announces each to control-plane, which compiles the sessions'
-- egress settings into policies for the egress envoy and answers only when envoy has acknowledged
-- them. auth-broker sits in front: it logs tenants in, issues leases and capabilities, claims tenants
-- by one-time passwords, and reads from the path which tenant a request is for.
--
-- The files and what they model, function by function under the names of the source:
--   Common              helpers: Boolean tests, lists, maps (HashMap), Result and Option chains,
--                       texts as UTF-8 bytes, IPv4 addresses, and two interfaces: JsonApi for
--                       serde_json and Table for one table of the database behind sea_orm, each
--                       with an instance in memory for runs at concrete inputs
--   ControlPlane        Sessions (control-plane/src/sessions.rs), Handler
--                       (control-plane/src/handler.rs), Policy (control-plane/src/policy.rs) and
--                       Recovery (control-plane/src/recovery.rs)
--   AuthBroker          Pending, Invitation, Lease and RateLimit (auth-broker/src/auth/pending.rs,
--                       invitation.rs, lease.rs, rate_limit.rs), Grammar
--                       (auth-broker/src/grammar.rs) and Cache (auth-broker/src/cache.rs, caps.rs)
--   ApiCore             Names (api-core/src/names.rs)
--   Launcher            Validate (launcher/src/validate.rs)
--   SessionBroker       Workers (session-broker/src/session_worker.rs); of
--                       session-broker/src/ext_proc.rs, Routes (paths and headers), Transports (open
--                       streams, timers, tombstones and the ends of sessions, with lib.rs and
--                       sweeper.rs), Requests (`handle_request_headers` for known sessions) and
--                       Spawning with Launching (the same for a POST that spawns a container, and
--                       `spawn_new_container`); Exits (exit_listener.rs, `handle_container_exit`),
--                       Secrets (secrets.rs) and Clients (the requests and errors of launcher.rs,
--                       control_plane.rs and config_broker.rs)
-- A component's file holds its state and operations; its child modules hold the theorems, named for
-- what they prove, and Tests the runs at concrete inputs.
--
-- State is passed explicitly: an operation takes the state and returns its answer and the new state,
-- and a mutex or a transaction makes it one step. Where the source waits or lets other requests in,
-- the model has a list: the events during a wait for envoy (`wait_loop`), the requests between the
-- SELECT and the UPDATE of an invitation (`SingleUse`), the writes after a revocation or a reap, the
-- UPDATE of a reap that comes later than its SELECT (`Workers.Reaping.marks`). Statements on a table
-- may fail, and a failed one may still have reached the table. The sessions of session-broker change
-- by a step relation (`Transports.Steps`) whose steps are the parts of the functions between which
-- other tasks may come, the sweeper's work and the start-up included; a whole function is a run of
-- such steps. The rate limiter changes by requests, sweeps and the passing of time
-- (`RateLimit.Traffic`). What is asked of the launcher, of control-plane and of the database writers
-- is kept in the state as a list; a call says that the request went out, not that it was answered.
--
-- Numbers are natural numbers. The generation of the session store and its count of streams wrap
-- at 2 ^ 64 as in the source. Times are counts of seconds or nanoseconds within the range of their
-- types. Uuids and keys of fixed width are numbers. Regular expressions are written out as tests on
-- bytes. Loops are structural recursion; the only fuel is that of the decimal digits of a port (20,
-- which every u64 fits) and of `trim_start_matches` (the length of the text, since each round takes
-- a non-empty prefix off). The attempts of a recovery are counted down as in the source.
--
-- Parameters, for code that is not part of the repository: the OPAQUE state with its byte form, JSON
-- values, the database, the SHA-256 digest, the unwrapping of a lease's export key, the operator's
-- pattern for images, docker's answers, `from_utf8` and `from_utf8_lossy`, and f64: an interface
-- with the laws of IEEE 754 that the rate limiter relies on (`RateLimit.Doubles`), met in the tests
-- by whole thousandths; also the answers of the services that a spawn calls over HTTP
-- (`Clients.Services`).
--
-- Not modelled: a task that still holds the counts of a session after their removal from the map, a
-- transaction that cannot be opened, what a launch that failed leaves at the launcher, HTTP
-- routing and the wire form of bodies, gRPC streams, docker and file system I/O, cryptography,
-- logging, the request and response bodies of plugins, the vault, the command line tools and the web
-- interface.
pub mod Common
pub mod ApiCore
pub mod AuthBroker
pub mod ControlPlane
pub mod Launcher
pub mod SessionBroker
