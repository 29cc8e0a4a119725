-- ===== src/Etcd/Recovery.antt =====
-- What a failure of the synchronisation loop leaves.
use pingsix.Prelude.{
  ℕ, ◌≡◌, refl, Bool, true, false, Option, none, some, List, ◌⊎◌, inl, inr, arith, Bytes,
  Option-cases,
}
use pingsix.Status.{
  candidate_invalid, etcd_unavailable, record_sync_success, record_sync_error,
  record_preparation_error, mark_etcd_connected,
}
use pingsix.Graph.{StoredGraph, GraphError, Result, ok, err, Result-cases, WatchBatch}
use pingsix.Authority.{
  Inner, ensure_worker_started, finish_submit, shutdown, running, stopped, submit, submit_admitted,
  replace_all, apply_watch,
}
use pingsix.Etcd.Events.{graph_changes_from_events}
use pingsix.Etcd.Snapshot.{ListKv, graph_snapshot_from_list}
use pingsix.Etcd.Sync.{
  SyncError, transport, data_error, ListResponse, WatchResponse, EtcdConfigSync, on_status,
  ErrorText, Flow, continues, ended, get_client, submit_snapshot, list_response, list, open_watch,
  watch_response, watch_message, watch_tick, record_failure, reset_client, batch_revision,
}
use pingsix.Etcd.Loop.{
  Phase, listing, list_delay, opening, watching, watch_delay, Input, listed, opened, messaged,
  ticked, signalled, Service, select_shutdown, after_list, after_watch, after_open, after_flow,
  advance, step,
}

-- Asleep after a failure.
abbrev pub is_delay : Phase → Bool
is_delay list_delay = true
is_delay watch_delay = true
is_delay _ = false

-- The target is as it was, or a shutdown has fallen in between.
abbrev KeepsTarget : {L : Type 0} → Inner L → Inner L → Type 0
KeepsTarget s t = (t.target ≡ s.target) ⊎ ((s.lifecycle ≡ running) × (t.lifecycle ≡ stopped))

-- What a submission that fails leaves.
record KeptGraph {L : Type 0} (s t : Inner L) : Type 0 where
  committed : t.committed ≡ s.committed
  status : t.status ≡ s.status
  target : KeepsTarget s t

submit_kept :
    {E L : Type 0} (shut : Bool) (g : StoredGraph) (l : L) (s : Inner L) (e : GraphError E)
    → (submit {E = E} shut g l s).1 ≡ err e
    → KeptGraph s (submit {E = E} shut g l s).0
unfolding submit ensure_worker_started finish_submit shutdown
submit_kept shut g l s e h = record {
  committed = ground arith;
  status = ground arith;
  target = ground arith;
}

module _ {E L : Type 0} (decode_graph : StoredGraph → Result E L)
    (validate_runtime_form : L → Result E (Unit {0})) where
  submit_admitted_kept :
      (shut : Bool) (r : Result (GraphError E) (Option (StoredGraph × L))) (s : Inner L)
      (e : GraphError E)
      → (submit_admitted decode_graph validate_runtime_form shut r s).1 ≡ err e
      → KeptGraph s (submit_admitted decode_graph validate_runtime_form shut r s).0
  unfolding submit_admitted
  submit_admitted_kept shut (err x) s e h = record {
    committed = refl;
    status = refl;
    target = inl refl;
  }
  submit_admitted_kept shut (ok none) s e h = absurd (ground arith)
  submit_admitted_kept shut (ok (some (g, l))) s e h = submit_kept shut g l s e h

  replace_all_kept :
      (shut : Bool) (g : StoredGraph) (s : Inner L) (e : GraphError E)
      → (replace_all decode_graph validate_runtime_form shut g s).1 ≡ err e
      → KeptGraph s (replace_all decode_graph validate_runtime_form shut g s).0
  unfolding replace_all
  replace_all_kept shut g s e h = submit_admitted_kept shut _ s e h

  apply_watch_kept :
      (shut : Bool) (b : WatchBatch) (s : Inner L) (e : GraphError E)
      → (apply_watch decode_graph validate_runtime_form shut b s).1 ≡ err e
      → KeptGraph s (apply_watch decode_graph validate_runtime_form shut b s).0
  unfolding apply_watch
  apply_watch_kept shut b s e h = submit_admitted_kept shut _ s e h

-- What an attempt that fails leaves: the revision, the graphs (the target as above), and, unless it got one, the client and
-- the connection.
pub record Kept {L : Type 0} (s t : EtcdConfigSync L) : Type 0 where
  pub revision : t.revision ≡ s.revision
  pub committed : t.graph.committed ≡ s.graph.committed
  pub target : KeepsTarget s.graph t.graph
  pub client : (t.client ≡ true) ⊎ (t.client ≡ s.client)
  pub connected :
      (t.graph.status.connected ≡ true) ⊎ (t.graph.status.connected ≡ s.graph.status.connected)

-- What the loop makes of it: a rejected configuration leaves the connection, any other failure drops
-- the client and marks etcd as disconnected.
pub record Failed {L : Type 0} (s t : EtcdConfigSync L) : Type 0 where
  pub revision : t.revision ≡ s.revision
  pub committed : t.graph.committed ≡ s.graph.committed
  pub target : KeepsTarget s.graph t.graph
  pub recorded :
      ((t.graph.status.error_kind ≡ some candidate_invalid)
        × ((t.client ≡ true) ⊎ (t.client ≡ s.client))
        × ((t.graph.status.connected ≡ true)
            ⊎ (t.graph.status.connected ≡ s.graph.status.connected)))
      ⊎ ((t.graph.status.error_kind ≡ some etcd_unavailable)
          × (t.client ≡ false)
          × (t.graph.status.connected ≡ false))

module _ {E C L : Type 0} (decode_graph : StoredGraph → Result E L)
    (validate_runtime_form : L → Result E (Unit {0})) (is_utf8 : Bytes → Bool)
    (lossy : Bytes → Bytes) (text : ErrorText E C) where
  Kept-refl : (s : EtcdConfigSync L) → Kept s s
  Kept-refl s = ground arith

  get_client-Kept :
      (created : Result E (Unit {0})) (s : EtcdConfigSync L)
      → Kept s (get_client decode_graph validate_runtime_form is_utf8 lossy text created s).0
  unfolding get_client
  get_client-Kept (ok u) s = ground arith
  get_client-Kept (err e) s = ground arith

  submit_snapshot-Kept :
      (shut : Bool) (revision : ℕ) (g : StoredGraph) (s : EtcdConfigSync L) (e : SyncError E)
      → (submit_snapshot decode_graph validate_runtime_form is_utf8 lossy text shut revision g s).1
        ≡ err e
      → Kept s
          (submit_snapshot decode_graph validate_runtime_form is_utf8 lossy text shut revision g
            s).0
  unfolding submit_snapshot
  submit_snapshot-Kept shut revision g s e h =
      elim (Result-cases (replace_all decode_graph validate_runtime_form shut g s.graph).1) [
        | inl (u, o) ↦ absurd (ground arith)
        | inr (x, o) ↦
            ground (arith, replace_all_kept decode_graph validate_runtime_form shut g s.graph x o)
      ]

  -- The record that a response's revision makes before its graph is read.
  list_response-Kept :
      (shut : Bool) (now revision : ℕ) (kvs : List ListKv) (s : EtcdConfigSync L) (e : SyncError E)
      → (list_response decode_graph validate_runtime_form is_utf8 lossy text shut now revision kvs
          s).1
        ≡ err e
      → Kept s
          (list_response decode_graph validate_runtime_form is_utf8 lossy text shut now revision kvs
            s).0
  unfolding list_response record_sync_success
  list_response-Kept shut now revision kvs s e h =
      elim (Result-cases (
        graph_snapshot_from_list {E = E} is_utf8 lossy text.of_key kvs revision
          s.canonical_prefix)) [
            | inl (g, o) ↦
                let t = on_status (record_sync_success now revision) s in
                ground (arith, submit_snapshot-Kept shut revision g t e)
            | inr (x, o) ↦ ground arith
          ]

  list-Kept :
      (shut : Bool) (created : Result E (Unit {0})) (got : Result C ListResponse) (now : ℕ)
      (s : EtcdConfigSync L) (e : SyncError E)
      → (list decode_graph validate_runtime_form is_utf8 lossy text created got shut now s).1
        ≡ err e
      → Kept s (list decode_graph validate_runtime_form is_utf8 lossy text created got shut now s).0
  unfolding list
  list-Kept shut created got now s e h =
      let c = get_client decode_graph validate_runtime_form is_utf8 lossy text created s in
      elim (Result-cases c.1) [
        | inr (x, o) ↦ ground (arith, get_client-Kept created s)
        | inl (u, o) ↦ elim (Result-cases got) [
          | inr (x, g) ↦ ground (arith, get_client-Kept created s)
          | inl (r, g) ↦ elim (Option-cases r.header) [
            | inl n ↦ ground (arith, get_client-Kept created s)
            | inr (revision, n) ↦
                ground (
                  arith,
                  get_client-Kept created s,
                  list_response-Kept shut now revision r.kvs c.0 e,
                )
          ]
        ]
      ]

  open_watch-Kept :
      (created : Result E (Unit {0})) (reply : Result C (Unit {0})) (now : ℕ) (s : EtcdConfigSync L)
      (e : SyncError E)
      → (open_watch decode_graph validate_runtime_form is_utf8 lossy text created reply now s).1
        ≡ err e
      → Kept s
          (open_watch decode_graph validate_runtime_form is_utf8 lossy text created reply now s).0
  unfolding open_watch
  open_watch-Kept created reply now s e h =
      elim (Result-cases
        (get_client decode_graph validate_runtime_form is_utf8 lossy text created s).1) [
          | inr (x, o) ↦ ground (arith, get_client-Kept created s)
          | inl (u, o) ↦ ground (arith, get_client-Kept created s)
        ]

  watch_response-Kept :
      (shut : Bool) (now : ℕ) (r : WatchResponse) (s : EtcdConfigSync L) (e : SyncError E)
      → (watch_response decode_graph validate_runtime_form is_utf8 lossy text shut now r s).1
        ≡ ended (err e)
      → Kept s (watch_response decode_graph validate_runtime_form is_utf8 lossy text shut now r s).0
  unfolding watch_response
  watch_response-Kept shut now r s e h =
      elim (Result-cases (graph_changes_from_events is_utf8 lossy r.events s.canonical_prefix)) [
        | inr (x, o) ↦ ground arith
        | inl (changes, o) ↦
            let b : WatchBatch = record { revision = batch_revision r.events; changes = changes } in
            elim (Result-cases (apply_watch decode_graph validate_runtime_form shut b s.graph).1) [
              | inl (u, a) ↦ absurd (ground arith)
              | inr (x, a) ↦
                  ground
                    (arith, apply_watch_kept decode_graph validate_runtime_form shut b s.graph x a)
            ]
      ]

  watch_message-Kept :
      (shut : Bool) (now : ℕ) (m : Result C (Option WatchResponse)) (s : EtcdConfigSync L)
      (e : SyncError E)
      → (watch_message decode_graph validate_runtime_form is_utf8 lossy text shut now m s).1
        ≡ ended (err e)
      → Kept s (watch_message decode_graph validate_runtime_form is_utf8 lossy text shut now m s).0
  unfolding watch_message
  watch_message-Kept shut now (err x) s e h = Kept-refl s
  watch_message-Kept shut now (ok none) s e h = Kept-refl s
  watch_message-Kept shut now (ok (some r)) s e h =
      ground (arith, watch_response-Kept shut now r s e)

  watch_tick-Kept :
      (q : Result C (Unit {0})) (s : EtcdConfigSync L)
      → (watch_tick decode_graph validate_runtime_form is_utf8 lossy text q s).0 ≡ s
  unfolding watch_tick
  watch_tick-Kept (ok u) s = refl
  watch_tick-Kept (err x) s = refl

  record_failure-Failed :
      (now : ℕ) (e : SyncError E) (s t : EtcdConfigSync L)
      → Kept s t
      → Failed s (record_failure decode_graph validate_runtime_form is_utf8 lossy text now e t)
  unfolding record_failure reset_client record_sync_error record_preparation_error
      mark_etcd_connected
  record_failure-Failed now (transport x) s t k = record {
    revision = k.revision;
    committed = k.committed;
    target = k.target;
    recorded = inr (refl, refl, refl);
  }
  record_failure-Failed now (data_error x) s t k = record {
    revision = k.revision;
    committed = k.committed;
    target = k.target;
    recorded = inl (refl, k.client, k.connected);
  }

  after_list-Failed :
      (now : ℕ) (s : EtcdConfigSync L) (r : EtcdConfigSync L × Result (SyncError E) (Unit {0}))
      → ((e : SyncError E) → r.1 ≡ err e → Kept s r.0)
      → is_delay (after_list decode_graph validate_runtime_form is_utf8 lossy text now r).phase
        ≡ true
      → Failed s (after_list decode_graph validate_runtime_form is_utf8 lossy text now r).sync
  unfolding after_list
  after_list-Failed now s (t, ok u) k h = absurd (ground arith)
  after_list-Failed now s (t, err e) k h = record_failure-Failed now e s t (k e refl)

  after_open-Failed :
      (now : ℕ) (s : EtcdConfigSync L) (r : EtcdConfigSync L × Result (SyncError E) (Unit {0}))
      → ((e : SyncError E) → r.1 ≡ err e → Kept s r.0)
      → is_delay (after_open decode_graph validate_runtime_form is_utf8 lossy text now r).phase
        ≡ true
      → Failed s (after_open decode_graph validate_runtime_form is_utf8 lossy text now r).sync
  unfolding after_open after_watch
  after_open-Failed now s (t, ok u) k h = absurd (ground arith)
  after_open-Failed now s (t, err e) k h = record_failure-Failed now e s t (k e refl)

  after_flow-Failed :
      (now : ℕ) (s : EtcdConfigSync L) (r : EtcdConfigSync L × Flow E)
      → ((e : SyncError E) → r.1 ≡ ended (err e) → Kept s r.0)
      → is_delay (after_flow decode_graph validate_runtime_form is_utf8 lossy text now r).phase
        ≡ true
      → Failed s (after_flow decode_graph validate_runtime_form is_utf8 lossy text now r).sync
  unfolding after_flow after_watch
  after_flow-Failed now s (t, continues) k h = absurd (ground arith)
  after_flow-Failed now s (t, ended (ok u)) k h = absurd (ground arith)
  after_flow-Failed now s (t, ended (err e)) k h = record_failure-Failed now e s t (k e refl)

  advance-Failed :
      (p : Phase) (i : Input E C) (s : EtcdConfigSync L)
      → is_delay p ≡ false
      → is_delay (advance decode_graph validate_runtime_form is_utf8 lossy text p i s).phase ≡ true
      → Failed s (advance decode_graph validate_runtime_form is_utf8 lossy text p i s).sync
  unfolding advance select_shutdown after_list after_open after_flow after_watch
  advance-Failed listing (listed created got shut now) s h d =
      after_list-Failed now s
        (list decode_graph validate_runtime_form is_utf8 lossy text created got shut now s)
        (list-Kept shut created got now s) d
  advance-Failed opening (opened created reply now) s h d =
      after_open-Failed now s
        (open_watch decode_graph validate_runtime_form is_utf8 lossy text created reply now s)
        (open_watch-Kept created reply now s) d
  advance-Failed watching (messaged m shut now) s h d =
      after_flow-Failed now s
        (watch_message decode_graph validate_runtime_form is_utf8 lossy text shut now m s)
        (watch_message-Kept shut now m s) d
  advance-Failed watching (ticked q now) s h d =
      after_flow-Failed now s (watch_tick decode_graph validate_runtime_form is_utf8 lossy text q s)
        (λ e o. rw (watch_tick-Kept q s) (Kept-refl s)) d
  advance-Failed listing (signalled true) s h d = absurd (ground arith)
  advance-Failed listing (signalled false) s h d = absurd (ground arith)
  advance-Failed _ _ s h d = absurd (ground arith)

  -- A step that puts the loop to sleep after a failure keeps the revision and the committed graph,
  -- and the target too, unless it shut down a running graph, as a shutdown that falls into the
  -- submission does. Either the configuration was rejected, the client is kept, and etcd stays
  -- connected if it was; or the error counts as one of etcd, the client is dropped, and etcd is
  -- disconnected.
  pub step-Failed :
      (i : Input E C) (s : Service L)
      → is_delay s.phase ≡ false
      → is_delay (step decode_graph validate_runtime_form is_utf8 lossy text i s).phase ≡ true
      → Failed s.sync (step decode_graph validate_runtime_form is_utf8 lossy text i s).sync
  unfolding step
  step-Failed i s h d = advance-Failed s.phase i s.sync h d
