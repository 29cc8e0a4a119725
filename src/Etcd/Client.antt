-- ===== src/Etcd/Client.antt =====
-- The client of the synchronisation loop against the connection that the status store shows.
use pingsix.Prelude.{
  ℕ, ◌≡◌, refl, Bool, true, false, Option, none, some, List, ◌≢◌, ◌∙◌, ◌⊎◌, inl, inr, arith, Bytes,
  Option-cases,
}
use pingsix.Status.{
  begin_etcd_sync, record_sync_success, record_sync_error, record_preparation_error,
  mark_etcd_connected,
}
use pingsix.Graph.{StoredGraph, GraphError, Result, ok, err, Result-cases}
use pingsix.Authority.{
  Inner, ensure_worker_started, finish_submit, shutdown, submit, submit_admitted, replace_all,
}
use pingsix.Etcd.Snapshot.{ListKv, graph_snapshot_from_list}
use pingsix.Etcd.Sync.{
  SyncError, transport, data_error, ListResponse, WatchResponse, EtcdConfigSync, on_status, new,
  ErrorText, Flow, continues, ended, get_client, submit_snapshot, list_response, list, open_watch,
  take_header, watch_response, watch_message, watch_tick, record_failure, reset_client,
}
use pingsix.Etcd.Loop.{
  Phase, listing, opening, watching, Input, listed, opened, messaged, ticked, Service,
  start_service, select_shutdown, after_list, after_watch, after_open, after_flow, advance, step,
}

-- Etcd counts as connected only while there is a client.
abbrev pub HasClient : {L : Type 0} → EtcdConfigSync L → Type 0
HasClient s = (s.graph.status.connected ≡ false) ⊎ (s.client ≡ true)

abbrev is_watching : Phase → Bool
is_watching watching = true
is_watching _ = false

pub record Inv {L : Type 0} (s : Service L) : Type 0 where
  pub connected : HasClient s.sync
  pub streaming : (is_watching s.phase ≡ false) ⊎ (s.sync.client ≡ true)

submit_status :
    (shut : Bool) (E : Type 0) {L : Type 0} (g : StoredGraph) (l : L) (s : Inner L)
    → (submit {E = E} shut g l s).0.status ≡ s.status
unfolding submit ensure_worker_started finish_submit shutdown
submit_status shut E g l s = ground arith

module _ {E C L : Type 0} (decode_graph : StoredGraph → Result E L)
    (validate_runtime_form : L → Result E (Unit {0})) (is_utf8 : Bytes → Bool)
    (lossy : Bytes → Bytes) (text : ErrorText E C) where
  submit_admitted_status :
      (shut : Bool) (r : Result (GraphError E) (Option (StoredGraph × L))) (s : Inner L)
      → (submit_admitted decode_graph validate_runtime_form shut r s).0.status ≡ s.status
  unfolding submit_admitted
  submit_admitted_status shut (err x) s = refl
  submit_admitted_status shut (ok none) s = refl
  submit_admitted_status shut (ok (some (g, l))) s = submit_status shut E g l s

  replace_all_status :
      (shut : Bool) (g : StoredGraph) (s : Inner L)
      → (replace_all decode_graph validate_runtime_form shut g s).0.status ≡ s.status
  unfolding replace_all
  replace_all_status shut g s = submit_admitted_status shut _ s

  submit_snapshot_client :
      (shut : Bool) (revision : ℕ) (g : StoredGraph) (s : EtcdConfigSync L)
      → (submit_snapshot decode_graph validate_runtime_form is_utf8 lossy text shut revision g
          s).0.client
        ≡ s.client
  unfolding submit_snapshot
  submit_snapshot_client shut revision g s = ground arith

  list_response_client :
      (shut : Bool) (now revision : ℕ) (kvs : List ListKv) (s : EtcdConfigSync L)
      → (list_response decode_graph validate_runtime_form is_utf8 lossy text shut now revision kvs
          s).0.client
        ≡ s.client
  unfolding list_response
  list_response_client shut now revision kvs s =
      let t = on_status (record_sync_success now revision) s in
      elim (Result-cases (
        graph_snapshot_from_list {E = E} is_utf8 lossy text.of_key kvs revision
          s.canonical_prefix)) [
            | inl (g, o) ↦ ground (arith, submit_snapshot_client shut revision g t)
            | inr (x, o) ↦ ground arith
          ]

  -- What a successful request for the client leaves.
  get_client-ok :
      (created : Result E (Unit {0})) (s : EtcdConfigSync L) (u : Unit {0})
      → (get_client decode_graph validate_runtime_form is_utf8 lossy text created s).1 ≡ ok u
      → (get_client decode_graph validate_runtime_form is_utf8 lossy text created s).0.client ≡ true
  unfolding get_client
  get_client-ok created s u h = ground arith

  get_client-HasClient :
      (created : Result E (Unit {0})) (s : EtcdConfigSync L)
      → HasClient s
      → HasClient (get_client decode_graph validate_runtime_form is_utf8 lossy text created s).0
  unfolding get_client
  get_client-HasClient created s h = ground arith

  list-HasClient :
      (shut : Bool) (created : Result E (Unit {0})) (got : Result C ListResponse) (now : ℕ)
      (s : EtcdConfigSync L)
      → HasClient s
      → HasClient
          (list decode_graph validate_runtime_form is_utf8 lossy text created got shut now s).0
  unfolding list
  list-HasClient shut created got now s h =
      let c = get_client decode_graph validate_runtime_form is_utf8 lossy text created s in
      elim (Result-cases c.1) [
        | inr (x, o) ↦ ground (arith, get_client-HasClient created s h)
        | inl (u, o) ↦
            let there = get_client-ok created s u o in
            elim (Result-cases got) [
              | inr (x, g) ↦ ground (arith, get_client-HasClient created s h)
              | inl (r, g) ↦ elim (Option-cases r.header) [
                | inl n ↦ ground (arith, get_client-HasClient created s h)
                | inr (revision, n) ↦
                    ground (arith, there, list_response_client shut now revision r.kvs c.0)
              ]
            ]
      ]

  open_watch-HasClient :
      (created : Result E (Unit {0})) (reply : Result C (Unit {0})) (now : ℕ) (s : EtcdConfigSync L)
      → HasClient s
      → HasClient
          (open_watch decode_graph validate_runtime_form is_utf8 lossy text created reply now s).0
  unfolding open_watch mark_etcd_connected
  open_watch-HasClient created reply now s h =
      elim (Result-cases
        (get_client decode_graph validate_runtime_form is_utf8 lossy text created s).1) [
          | inr (x, o) ↦ ground (arith, get_client-HasClient created s h)
          | inl (u, o) ↦
              ground (arith, get_client-HasClient created s h, get_client-ok created s u o)
        ]

  open_watch-ok :
      (created : Result E (Unit {0})) (reply : Result C (Unit {0})) (now : ℕ) (s : EtcdConfigSync L)
      (u : Unit {0})
      → (open_watch decode_graph validate_runtime_form is_utf8 lossy text created reply now s).1
        ≡ ok u
      → (open_watch decode_graph validate_runtime_form is_utf8 lossy text created reply now
          s).0.client
        ≡ true
  unfolding open_watch mark_etcd_connected
  open_watch-ok created reply now s u h =
      elim (Result-cases
        (get_client decode_graph validate_runtime_form is_utf8 lossy text created s).1) [
          | inr (x, o) ↦ absurd (ground arith)
          | inl (v, o) ↦ ground (arith, get_client-ok created s v o)
        ]

  watch_response_client :
      (shut : Bool) (now : ℕ) (r : WatchResponse) (s : EtcdConfigSync L)
      → (watch_response decode_graph validate_runtime_form is_utf8 lossy text shut now r s).0.client
        ≡ s.client
  unfolding watch_response take_header
  watch_response_client shut now r s = ground arith

  watch_message_client :
      (shut : Bool) (now : ℕ) (m : Result C (Option WatchResponse)) (s : EtcdConfigSync L)
      → (watch_message decode_graph validate_runtime_form is_utf8 lossy text shut now m s).0.client
        ≡ s.client
  unfolding watch_message
  watch_message_client shut now (err x) s = refl
  watch_message_client shut now (ok none) s = refl
  watch_message_client shut now (ok (some r)) s = ground (arith, watch_response_client shut now r s)

  record_failure-HasClient :
      (now : ℕ) (e : SyncError E) (s : EtcdConfigSync L)
      → HasClient s
      → HasClient (record_failure decode_graph validate_runtime_form is_utf8 lossy text now e s)
  unfolding record_failure reset_client record_sync_error record_preparation_error
      mark_etcd_connected
  record_failure-HasClient now (transport x) s h = inl refl
  record_failure-HasClient now (data_error x) s h = h

  after_watch-Inv :
      (now : ℕ) (s : EtcdConfigSync L) (r : Result (SyncError E) (Unit {0}))
      → HasClient s
      → Inv (after_watch decode_graph validate_runtime_form is_utf8 lossy text now s r)
  unfolding after_watch
  after_watch-Inv now s (ok u) h = record { connected = h; streaming = inl refl }
  after_watch-Inv now s (err e) h = record {
    connected = record_failure-HasClient now e s h;
    streaming = inl refl;
  }

  after_list-Inv :
      (now : ℕ) (r : EtcdConfigSync L × Result (SyncError E) (Unit {0}))
      → HasClient r.0
      → Inv (after_list decode_graph validate_runtime_form is_utf8 lossy text now r)
  unfolding after_list
  after_list-Inv now (s, ok u) h = record { connected = h; streaming = inl refl }
  after_list-Inv now (s, err e) h = record {
    connected = record_failure-HasClient now e s h;
    streaming = inl refl;
  }

  after_open-Inv :
      (now : ℕ) (r : EtcdConfigSync L × Result (SyncError E) (Unit {0}))
      → HasClient r.0
      → ((u : Unit {0}) → r.1 ≡ ok u → r.0.client ≡ true)
      → Inv (after_open decode_graph validate_runtime_form is_utf8 lossy text now r)
  unfolding after_open
  after_open-Inv now (s, ok u) h c = record { connected = h; streaming = inr (c u refl) }
  after_open-Inv now (s, err e) h c = after_watch-Inv now s (err e) h

  after_flow-Inv :
      (now : ℕ) (r : EtcdConfigSync L × Flow E)
      → r.0.client ≡ true
      → Inv (after_flow decode_graph validate_runtime_form is_utf8 lossy text now r)
  unfolding after_flow
  after_flow-Inv now (s, continues) c = record { connected = inr c; streaming = inr c }
  after_flow-Inv now (s, ended result) c = after_watch-Inv now s result (inr c)

  streaming_client : (s : Service L) → Inv s → s.phase ≡ watching → s.sync.client ≡ true
  streaming_client s v h = ground (arith, v.streaming)

  advance-Inv :
      (p : Phase) (i : Input E C) (s : EtcdConfigSync L)
      → Inv (record { sync = s; phase = p })
      → Inv (advance decode_graph validate_runtime_form is_utf8 lossy text p i s)
  unfolding advance select_shutdown watch_tick
  advance-Inv listing (listed created got shut now) s v =
      after_list-Inv now
        (list decode_graph validate_runtime_form is_utf8 lossy text created got shut now s)
        (list-HasClient shut created got now s v.connected)
  advance-Inv opening (opened created reply now) s v =
      after_open-Inv now
        (open_watch decode_graph validate_runtime_form is_utf8 lossy text created reply now s)
        (open_watch-HasClient created reply now s v.connected) (open_watch-ok created reply now s)
  advance-Inv watching (messaged m shut now) s v =
      let c = streaming_client _ v refl in
      after_flow-Inv now
        (watch_message decode_graph validate_runtime_form is_utf8 lossy text shut now m s)
        (watch_message_client shut now m s ∙ c)
  advance-Inv watching (ticked (ok u) now) s v =
      after_flow-Inv now (watch_tick decode_graph validate_runtime_form is_utf8 lossy text (ok u) s)
        (streaming_client _ v refl)
  advance-Inv watching (ticked (err x) now) s v =
      after_flow-Inv now
        (watch_tick decode_graph validate_runtime_form is_utf8 lossy text (err x) s)
        (streaming_client _ v refl)
  advance-Inv _ _ s v = ground arith

  -- What the loop can come to, while others change the graph it shares, the connection apart.
  pub data Reached : Service L → Type 0 where
    started :
        (prefix : Bytes) (g : Inner L)
        → g.status.connected ≡ false
        → Reached (start_service (new prefix g))
    moved :
        (i : Input E C) (s : Service L)
        → Reached s
        → Reached (step decode_graph validate_runtime_form is_utf8 lossy text i s)
    shared :
        (s : Service L) (g : Inner L)
        → g.status.connected ≡ s.sync.graph.status.connected
        → Reached s
        → Reached (record s { sync = record s.sync { graph = g } })

  Reached-Inv : (s : Service L) → Reached s → Inv s
  unfolding step start_service new begin_etcd_sync
  Reached-Inv _ (started prefix g h) = record { connected = inl h; streaming = inl refl }
  Reached-Inv _ (moved i s r) = advance-Inv s.phase i s.sync (Reached-Inv s r)
  Reached-Inv _ (shared s g h r) = ground (arith, Reached-Inv s r)

  -- In whatever the loop can come to from a store that is not connected, while others change the
  -- graph but not the connection, etcd counts as connected only while there is a client, and a watch
  -- is read only while there is one.
  pub Reached-HasClient :
      (s : Service L)
      → Reached s
      → HasClient s.sync × ((s.phase ≢ watching) ⊎ (s.sync.client ≡ true))
  Reached-HasClient s r = ground (arith, Reached-Inv s r)
