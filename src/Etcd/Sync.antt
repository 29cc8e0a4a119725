-- ===== src/Etcd/Sync.antt =====
-- `EtcdConfigSync` (src/config/etcd/sync.rs): one attempt to list, one watch, and the loop around
-- them, as a machine whose inputs are what the loop awaits. The status store is the one that the
-- graph holds. `E` is `ProxyError`, `C` the client's error, `L` `ResourceConfigSet`.
use pingsix.Prelude.{
  ℕ, max, Bool, true, false, Option, none, some, List, [], ◌∷◌, ◌++◌, if◌then◌else◌, String, Bytes,
  codes,
}
use pingsix.Status.{
  RuntimeStatusInner, record_sync_success, record_sync_error, record_preparation_error,
  mark_etcd_connected, set_revision,
}
use pingsix.Graph.{
  StoredGraph, GraphError, invalid_candidate, invalid_resource, secret, StoreError, Result, ok, err,
}
use pingsix.Graph.Keys.{KeyError}
use pingsix.Authority.{Inner, replace_all, apply_watch}
use pingsix.Etcd.Names.{canonicalize_prefix}
use pingsix.Etcd.Snapshot.{ListKv, graph_snapshot_from_list}
use pingsix.Etcd.Events.{Event, EventError, graph_changes_from_events}

pub data SyncError (E : Type 0) : Type 0 where
  transport data_error : E → SyncError E

-- What a request of the client returns, as far as it is read.
pub record ListResponse : Type 0 where
  pub header : Option ℕ
  pub kvs : List ListKv

pub record WatchResponse : Type 0 where
  pub canceled : Bool
  pub header : Option ℕ
  pub events : List Event

-- Whether there is a client is all that is kept of it.
pub record EtcdConfigSync (L : Type 0) : Type 0 where
  pub canonical_prefix : Bytes
  pub client : Bool
  pub revision : ℕ
  pub graph : Inner L

-- `EtcdConfigSync::new`
unfoldable pub new : {L : Type 0} → Bytes → Inner L → EtcdConfigSync L
unfolding canonicalize_prefix
new prefix graph = record {
  canonical_prefix = canonicalize_prefix prefix;
  client = false;
  revision = 0;
  graph = graph;
}

-- A call of the status store.
abbrev pub on_status :
    {L : Type 0} → (RuntimeStatusInner → RuntimeStatusInner) → EtcdConfigSync L → EtcdConfigSync L
on_status f s = record s { graph = record s.graph { status = f s.graph.status } }

-- The greatest `mod_revision` of the pairs, or 0.
unfoldable pub batch_revision : List Event → ℕ
batch_revision [] = 0
batch_revision (e ∷ es) =
    let rest = batch_revision es in elim e.kv [ none ↦ rest | some kv ↦ max kv.mod_revision rest ]

unfoldable pub reset_client : {L : Type 0} → ℕ → EtcdConfigSync L → EtcdConfigSync L
unfolding mark_etcd_connected
reset_client now s = on_status (mark_etcd_connected now false) (record s { client = false })

-- The constructors and the texts of `ProxyError`.
pub record ErrorText (E C : Type 0) : Type 0 where
  pub etcd_error : Bytes → E
  pub etcd_error_with_cause : Bytes → C → E
  pub configuration : Bytes → E
  pub of_event : EventError → E
  pub of_key : KeyError → Bytes
  pub debug_store : StoreError E → Bytes
  pub display_graph : GraphError E → Bytes
  pub to_string : E → String

-- Where a watch stands after a message.
pub data Flow (E : Type 0) : Type 0 where
  continues : Flow E
  ended : Result (SyncError E) (Unit {0}) → Flow E

module _ {E C L : Type 0} (decode_graph : StoredGraph → Result E L)
    (validate_runtime_form : L → Result E (Unit {0})) (is_utf8 : Bytes → Bool)
    (lossy : Bytes → Bytes) (text : ErrorText E C) where
  unfoldable pub get_client :
      Result E (Unit {0}) → EtcdConfigSync L → EtcdConfigSync L × Result E (Unit {0})
  get_client created s =
      if s.client
      then (s, ok tt)
      else elim created [ ok _ ↦ (record s { client = true }, ok tt) | err e ↦ (s, err e) ]

  unfoldable pub classify_rejection : GraphError E → SyncError E
  classify_rejection e =
      let message = codes "Configuration graph rejected input: " ++ text.display_graph e in
      elim e [
        | invalid_candidate _ ↦ data_error (text.configuration message)
        | invalid_resource _ _ ↦ data_error (text.configuration message)
        | secret _ _ _ ↦ data_error (text.configuration message)
        | _ ↦ transport (text.configuration message)
      ]

  -- `list`, from the submission of the graph on; `shut` tells whether a shutdown falls into it.
  unfoldable pub submit_snapshot :
      Bool → ℕ → StoredGraph → EtcdConfigSync L → EtcdConfigSync L × Result (SyncError E) (Unit {0})
  unfolding replace_all classify_rejection set_revision
  submit_snapshot shut revision snapshot s =
      let r = replace_all decode_graph validate_runtime_form shut snapshot s.graph in
      elim r.1 [
        | err e ↦ (record s { graph = r.0 }, err (classify_rejection e))
        | ok _ ↦ (
          on_status (set_revision (some revision)) (record s { graph = r.0; revision = revision }),
          ok tt,
        )
      ]

  -- `list`, from the revision of the response on.
  unfoldable pub list_response :
      Bool
      → ℕ
      → ℕ
      → List ListKv
      → EtcdConfigSync L
      → EtcdConfigSync L × Result (SyncError E) (Unit {0})
  unfolding graph_snapshot_from_list submit_snapshot record_sync_success
  list_response shut now revision kvs s =
      let t = on_status (record_sync_success now revision) s in
      elim (graph_snapshot_from_list is_utf8 lossy text.of_key kvs revision s.canonical_prefix) [
        | err e ↦ (
          t,
          err (
              transport (
                text.configuration
                  (codes "Failed to map etcd list response: " ++ text.debug_store e))),
        )
        | ok snapshot ↦ submit_snapshot shut revision snapshot t
      ]

  unfoldable pub list :
      Result E (Unit {0})
      → Result C ListResponse
      → Bool
      → ℕ
      → EtcdConfigSync L
      → EtcdConfigSync L × Result (SyncError E) (Unit {0})
  unfolding get_client list_response
  list created got shut now s =
      let c = get_client created s in
      elim c.1 [
        | err e ↦ (c.0, err (transport e))
        | ok _ ↦ elim got [
          | err x ↦ (
            c.0,
            err (
                transport (
                  text.etcd_error_with_cause
                    (codes "Failed to list key '" ++ s.canonical_prefix ++ codes "'") x)),
          )
          | ok response ↦ elim response.header [
            | none ↦ (
              c.0,
              err (transport (text.etcd_error (codes "Failed to get header from list response"))),
            )
            | some revision ↦ list_response shut now revision response.kvs c.0
          ]
        ]
      ]

  -- `watch`, up to its loop.
  unfoldable pub open_watch :
      Result E (Unit {0})
      → Result C (Unit {0})
      → ℕ
      → EtcdConfigSync L
      → EtcdConfigSync L × Result (SyncError E) (Unit {0})
  unfolding get_client mark_etcd_connected
  open_watch created opened now s =
      let c = get_client created s in
      elim c.1 [
        | err e ↦ (c.0, err (transport e))
        | ok _ ↦ elim opened [
          | err x ↦ (
            c.0,
            err (
                transport (
                  text.etcd_error_with_cause
                    (codes "Failed to watch key '" ++ s.canonical_prefix ++ codes "'") x)),
          )
          | ok _ ↦ (on_status (mark_etcd_connected now true) c.0, ok tt)
        ]
      ]

  -- The header of a response whose changes were taken.
  unfoldable pub take_header : ℕ → Option ℕ → EtcdConfigSync L → EtcdConfigSync L
  unfolding record_sync_success
  take_header now none s = s
  take_header now (some revision) s =
      on_status (record_sync_success now revision) (record s { revision = revision })

  -- A response that is not the cancellation of the watch.
  unfoldable pub watch_response :
      Bool → ℕ → WatchResponse → EtcdConfigSync L → EtcdConfigSync L × Flow E
  unfolding graph_changes_from_events batch_revision apply_watch classify_rejection take_header
  watch_response shut now response s =
      elim (graph_changes_from_events is_utf8 lossy response.events s.canonical_prefix) [
        | err e ↦ (s, ended (err (transport (text.of_event e))))
        | ok changes ↦
            let r =
              apply_watch decode_graph validate_runtime_form shut
                (record { revision = batch_revision response.events; changes = changes }) s.graph in
            elim r.1 [
              | err e ↦ (record s { graph = r.0 }, ended (err (classify_rejection e)))
              | ok _ ↦ (take_header now response.header (record s { graph = r.0 }), continues)
            ]
      ]

  -- One round of the loop of `watch`, for a message of the stream.
  unfoldable pub watch_message :
      Bool → ℕ → Result C (Option WatchResponse) → EtcdConfigSync L → EtcdConfigSync L × Flow E
  unfolding watch_response
  watch_message shut now message s = elim message [
    | err x ↦ (
      s,
      ended (
          err (transport (text.etcd_error_with_cause (codes "Failed to receive watch message") x))),
    )
    | ok none ↦ (s, ended (ok tt))
    | ok (some response) ↦
        if response.canceled then (s, ended (ok tt)) else watch_response shut now response s
  ]

  -- The same for a tick.
  unfoldable pub watch_tick : Result C (Unit {0}) → EtcdConfigSync L → EtcdConfigSync L × Flow E
  watch_tick requested s = elim requested [
    | err x ↦ (
      s,
      ended (
          err (
            transport
              (text.etcd_error_with_cause (codes "Failed to request etcd watch progress") x))),
    )
    | ok _ ↦ (s, continues)
  ]

  -- What the loop does with an error of either.
  unfoldable pub record_failure : ℕ → SyncError E → EtcdConfigSync L → EtcdConfigSync L
  unfolding record_sync_error reset_client record_preparation_error
  record_failure now (transport e) s =
      reset_client now (on_status (record_sync_error now (text.to_string e)) s)
  record_failure now (data_error e) s = on_status (record_preparation_error (text.to_string e)) s
