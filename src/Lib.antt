-- ===== src/Lib.antt =====
-- pingsix: the configuration control plane of an API gateway, modelled from its Rust sources.
--
-- The gateway follows a configuration that etcd holds. The etcd adapter hands lists and watch
-- batches to the configuration graph authority, which validates each graph as a whole and submits
-- it; one worker prepares and compiles the latest submission and publishes it to the data plane.
-- The Admin API plans each change on a snapshot of the store and commits it with a
-- compare-and-swap. The status store tells the readiness probes how the synchronisation stands.
--
-- - Status: src/core/status.rs. `RuntimeStatusInner` is the record behind the mutex of
--   `StatusStore`; the methods have the source's names and take the instant where the source reads
--   the clock.
-- - Graph.Vocabulary and Graph.Memory: src/proxy/graph_mutation/store.rs. `InMemoryGraphStore` is
--   its state; `compare_and_swap` is the method of that name.
-- - Graph.Decode: src/proxy/graph_mutation/decode.rs. `decode_graph` and the validators, which
--   read JSON through serde, are parameters.
-- - Graph.Publication: `PublicationRegistry` of src/proxy/graph_mutation/state.rs. Its BTreeMap is a
--   sorted association list. The loop of `trim` runs on fuel, the number of records: each round
--   removes one.
-- - Graph.Keys and Etcd.Names: src/config/etcd/keys.rs. The standard library's tests of UTF-8 are parameters.
-- - Etcd: src/config/etcd/sync.rs. `Snapshot` and `Events` map the responses, `Sync` has `list` and the
--   rounds of `watch`, `Loop` is `run_sync_loop` as a machine: a phase for each point where it waits, and
--   what it awaits as inputs, the shutdown receiver's included, and whether the graph is shut down in the
--   middle of a submission. Of the client only its presence is kept.
-- - Authority: the rest of src/proxy/graph_mutation/state.rs, and `with_state`, `replace_all`,
--   `apply_watch` and `shutdown` of authority.rs. The worker's task is a phase, one for each point
--   where it waits; `advance` runs it from one to the next. `step` interleaves the worker with the
--   two halves of a submission and with a shutdown: a submission holds the write lock between its
--   halves, which the fence of the worker waits for and the shutdown does not.
-- - Limiter: src/plugins/limiter_shards.rs (`Order`) and `Shard` of src/plugins/limiting.rs
--   (`Entries`). `enter` is admission followed by `or_insert`, as in `get_or_insert_counter` of
--   src/plugins/limit_conn.rs. The loop of `sweep` recurs on its budget. A plugin gives the predicate
--   of the entries that may go.
-- - Breaker: src/plugins/api_breaker.rs. A word of a status set is the list of its 64 bits; the
--   counters are u32 and wrap. `failing` and `recovering` fold responses over the state of a route,
--   whatever it has counted before.
-- - Runtime: `publish` of src/proxy/runtime.rs, and `register_upstream`, `unregister_upstream` and
--   `discard` of src/proxy/upstream/health_check.rs. An Arc of a load balancer is a number, equal for
--   the same allocation.
-- - Selection: src/proxy/upstream/selection.rs. `Backends` has the set and the groups, `Iterate` the
--   iterator over the groups. The inner algorithm is two parameters: the iterator that it makes for the
--   backends of a group, and what the iterator draws. The loop of `next` runs on fuel: `rounds_from`,
--   which for each group counts its draw budget, its members and the step to the next group. Each round
--   takes one of them. `iter` hands the inner iterator out for a single group: the walks are those of a
--   grouped cursor, for two groups or more.
-- - LimitConn: src/plugins/limit_conn.rs. `Decide` has the decision and the limits of a request, `Requests`
--   its guards and its phases. `advance` is `request_filter`, `logging` and the drops, cut where another
--   request can come between; a floating-point number is a parameter with the two operations used.
-- - Admin: `put`, `delete` and `map_store_error` of src/proxy/graph_mutation/authority.rs, and the statuses
--   of src/admin/mod.rs. The store is a parameter, the trait `GraphStore`; what others do to it between the
--   snapshot and the commit is an argument. The status of a refusal is for any store; what a commit leaves is
--   for the in-memory store, with compare-and-swaps of others, and not for that of etcd. What reads and
--   writes JSON values is a parameter; the assignment of the id panics on some of them, and then `put`
--   is `none`.
-- - Control.Config, Control.Validate, Control.Bootstrap: the resources of src/config/resources.rs with
--   their validators, and the collection and validation of a set, src/proxy/control_plane/resources.rs. The fields that the control plane does
--   not read are one text, and so is a JSON value. The maps and texts of two configurations are compared
--   as written, in one order; the source compares them without regard to order.
-- - Control.Registry, Control.TrafficSplit, Control.SplitLocal: the table of plugins of src/plugins/mod.rs,
--   and src/plugins/traffic_split.rs with its entry in it; the typed reading of its JSON and the derived
--   validators are parameters. `Gateway` collects the parameters: the table,
--   discovery, the load balancer, the certificate parser, the UUIDs and a hash.
-- - Control.Merge, Control.Compiled: the order and the merge of plugins, and the constructors of
--   src/proxy/service.rs, global_rule.rs and route.rs. Two Arcs of compiled objects are the same where the
--   objects are equal; the allocation of a load balancer is a number in them.
-- - Control.Plan, Control.Snapshot: src/proxy/control_plane/plan.rs and compile.rs. The other files of
--   Control have the proofs: `Coherent`, `Incremental`, `Whole` and `Refined` on what is reused, `Failures`, `Needs`
--   and `Compiles` on errors, `Merged` and `Executors` on plugins, `Weights` on the draws.
-- - Prelude: the equality classes, maps and lists that they share. Tests: concrete runs.
--
-- Bounds and representations. Revisions are natural numbers, since etcd counts them from 1 (the
-- source has i64, and never computes with one beyond adding 1 in the in-memory store). Instants and
-- durations count nanoseconds. A cancellation token is named by the generation it was made for, and
-- the state lists the cancelled ones. A `String` or a JSON text that the code only carries is a
-- parameter or a string. Of the locks, the write lock is
-- modelled, by the submission that is under way; one worker runs, so the preparation lock is free
-- when it takes it. The recency tokens of the limiter are u64 and wrap: what needs them to be distinct
-- asks for tokens to be left.
--
-- Not modelled: the parsing of the static configuration, the store adapter of etcd, the other plugins, the HTTP and TLS
-- services, DNS, the compiled data plane, metrics other than `PENDING_REVISION`, and log output.
pub mod Control
pub mod Prelude
pub mod Status
pub mod Graph
pub mod Authority
pub mod Limiter
pub mod Breaker
pub mod Runtime
pub mod Etcd
pub mod Selection
pub mod LimitConn
pub mod Admin
mod Tests
