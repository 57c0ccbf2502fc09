-- ===== src/Lib.antt =====
-- Verification of flatbed: the run-time parts of the framework that keep state and decide, as functions
-- on explicit states, with the theorems that make them correct. Paths are from the repository's root.
--
-- The program. A flatbed service is an HTTP server over registered routes, with workers beside it, which
-- Flatbed::run (lib.rs) checks and starts and hyper/server.rs runs and shuts down. Lists are served page
-- by page (crates/flatbed/src/pagination.rs): a cursor is a signed text that carries the filters and the
-- key to go on from. Workers run under a supervisor (supervisor.rs), which restarts them with a backoff
-- or gives them up, and then makes the process unhealthy and shuts it down. A local queue
-- (local_queue.rs) is one such worker: it holds the newest message of each key, and retries it until it
-- becomes a dead letter. Readiness gates (readiness.rs) let the server answer whether its dependencies
-- are there. Responders on NATS subjects (nats_route.rs) answer the requests of nats_request.rs; they
-- are checked at startup for subjects that overlap, and so are the registered types and routes (lib.rs).
-- A request over HTTP (hyper/service.rs) goes to an endpoint that is built in, to a route that the
-- router (hyper/router.rs) finds once the process is ready, or to a file of a mount
-- (hyper/static_files.rs). Reconcilers of Kubernetes (k8s.rs) run on the leader, around a finalizer.
-- Messages and watched keys come by NATS (nats_connect.rs, nats.rs, kv.rs). The code generator
-- (crates/flatbed_build) puts the declarations of a schema in the order of their source and gives each
-- type a name.
--
-- Files.
--   Base: what the parts share: tests, sequences over the native numbers, lists searched by a key.
--   Pagination: `Codec` has the operations of the MAC, base64, JSON and FlatBuffers, `CodecLaws` what is
--     assumed of them; `mint` and `open_cursor` are Pager::mint and Pager::open, `signed` is the message
--     of Pager::tag, with the theorems in Framing and Cursors. In Serve, `page` is Pager::page, in its
--     steps `start`, `list_query` and `finish`, with the theorems in Pages; Walk is a client that
--     follows the cursors.
--   LocalQueue: the guarded `State`, one function for each method of LocalQueueSender; Executor is the
--     task that serves a queue, as a step function over the moves of producers, task and leadership.
--     Keys and Invariant hold the well-formedness of the state, Status, Calls and Letters what each call
--     does, and the children of Executor what holds after any interleaving.
--   Supervisor: `supervise` is the function of that name over the runs that a worker makes; Backoff
--     holds the theorems on RestartPolicy::delay and jittered, Bound and Restarts those on the loop.
--   Readiness: each atomic access of Readiness::gate and ReadinessGate::set_ready is a move.
--   Router: RouterNode is the trie, with add_route, match_route and get_allowed_methods; Table is the
--     table of routes that it is compared with.
--   Http: what a response is built from, and HttpLibrary, the operations of the crates http and
--     serde_json.
--   StaticFiles: strip_mount, sanitize, serve and the media types; Paths and Serving hold the theorems.
--   Service: Context is ServiceContext, a request and the events of its handling; Codec reads its
--     headers and query; Endpoints has the built-in ones; Answering and Dispatch are the steps of
--     dispatch and handle_request. Branches, Guards, Reports and Head hold the theorems.
--   Server: launch is Flatbed::run up to the server's start; its moves are the steps of the boot task,
--     of the task that starts the workers and of AutoServer::serve (hyper/server.rs). Boot, Accepting,
--     Timing and Shutdown hold the theorems; Controller is ShutdownController (hyper/shutdown.rs).
--   Registry: validate_routes and validate_type_registry, over the loop that they share.
--   Reconciler: reconcile_with_finalizer, the waits for leadership, and the loop of run_kube_reconciler;
--     Watchers has the loops of native reconcilers and of watchers.
--   Connector: connect_with_retry over the dials that it makes, and what on_event does to the readiness
--     gate.
--   Consumers: consume is the loop over messages of consume_loop (nats.rs), watch_cycle that of a watch
--     (kv.rs); Loops has run_stream_worker and run_kv_worker.
--   FbsTypes: the names of reflected types (crates/flatbed_build/src/reflection.rs) and the types of
--     Rust that they become (fbs_types.rs); Classified holds the theorem.
--   SourceOrder: strip_fbs_comments and source_decl_order; Comments, Scan, Schemas and Order hold
--     the theorems.
--   NatsRoute: subjects_overlap, find_conflict, validate_nats_routes and extract_params; Subjects is the
--     function parse_subject of crates/flatbed_macros/src/nats_route.rs.
--   NatsHeaders: set_header, copy_headers, from_nats_headers and to_nats_headers over HeaderLibrary, the
--     header maps of http and async-nats, of which `Laws` has what is assumed, among it that the headers
--     of a message arrive with their values trimmed. Values, Flatten and Hop hold the lemmas.
--   NatsCall: Reply has reply_ok, reply_err and the wrapper that the macro nats_route generates;
--     Responder has dispatch and run_nats_route; Client is nats_request.rs. Answers, Reports and Lost
--     hold the theorems.
-- A file Tests holds concrete runs and the theorems at concrete inputs.
--
-- Bounds and fuel. Numbers are natural numbers; where the source saturates or wraps (u32 counters, u64
-- milliseconds, usize counters, the two bytes of a key's length) the definitions write that out. The
-- loop of the supervisor, the executor, the reconciler and the connector recurse on the list of what
-- happens to them. The client of Walk recurses on the number of pages it may ask for; each page but the
-- last holds a row, so that one more than the number of rows is enough. The scan of SourceOrder recurses
-- on fuel and gives none where it runs out; one more than the length of the text is enough. A text
-- that is taken apart is its UTF-8 bytes, as a list of numbers; what is looked for is ASCII, but for the blanks of a subject pattern and the
-- control characters of a header, whose bytes are written out.
--
-- Not modelled. I/O, logging, metrics and the texts of messages; time, but for the durations that the
-- code compares; memory orders weaker than sequential consistency. Header maps, JSON, the disk and the
-- kube client are given by their operations. The generation of code but for the names of types, and the
-- macros but for what `nats_route` makes of a subject and a handler, are not part of this library.
pub mod Base
pub mod Connector
pub mod Consumers
pub mod FbsTypes
pub mod Http
pub mod LocalQueue
pub mod NatsCall
pub mod NatsHeaders
pub mod NatsRoute
pub mod Pagination
pub mod Readiness
pub mod Reconciler
pub mod Registry
pub mod Router
pub mod Server
pub mod Service
pub mod SourceOrder
pub mod StaticFiles
pub mod Supervisor
